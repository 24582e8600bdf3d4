-- ===== src/Filesystem/Vfs/Tree.antt =====
-- The tree that `init_vfs` builds.
use kernel_study.Base.{ℕ, ◌≡◌, ◌≢◌, refl, true, false, [], ◌∷◌, some, arith, ◌==◌, ◌∙◌, update}
use kernel_study.Scheduler.{Ptr, null}
use kernel_study.Filesystem.Vfs.{
  Vfs, set_vnode, set_parent, set_children, mount_file_on_dir, create_vnode, init_vfs,
}
use kernel_study.Filesystem.Vfs.Mount.{HasChildren, siblings, after_parent, after_children}

-- Three addresses that are not null and different from each other.
pub record Apart (a b c : Ptr) : Type 0 where
  pub some_a : a ≢ null
  pub some_b : b ≢ null
  pub some_c : c ≢ null
  pub ab : a ≢ b
  pub ac : a ≢ c
  pub bc : b ≢ c

-- The vnodes after all are created.
abbrev created : (root_dir dev_dir tty root_name dev_name tty_name tty_ops : Ptr) → Vfs → Vfs
created root_dir dev_dir tty root_name dev_name tty_name tty_ops s =
    let rooted = record (create_vnode root_dir root_name s) { global_vfs_root = root_dir } in
    let named = record (create_vnode tty tty_name (create_vnode dev_dir dev_name rooted)) {
      global_tty = tty;
    } in
    set_vnode tty (record (named.vnodes tty) { ops = tty_ops }) named

no_sibling :
    (root_dir dev_dir tty root_name dev_name tty_name tty_ops : Ptr) (s : Vfs)
    → Apart root_dir dev_dir tty
    → (((created root_dir dev_dir tty root_name dev_name tty_name tty_ops s).vnodes
          dev_dir).next_sibling
        ≡ null)
      × (((created root_dir dev_dir tty root_name dev_name tty_name tty_ops s).vnodes
            tty).next_sibling
          ≡ null)
unfolding create_vnode set_vnode update
no_sibling root_dir dev_dir tty root_name dev_name tty_name tty_ops s v =
    let dd : (dev_dir == dev_dir) ≡ true = ground arith in
    let t : (tty == tty) ≡ true = ground arith in
    let td : (tty == dev_dir) ≡ false = ground (arith, v.bc) in (rw (td, dd) refl, rw t refl)

-- With three different addresses that are not null, `init_vfs` ends, whatever the fuel: the root directory has the
-- one child "dev", which has the one child "tty", which has none and carries the operations of the terminal; each is
-- the parent of the next, and both global pointers are set.
pub init_vfs-HasChildren :
    (fuel : ℕ) (root_dir dev_dir tty root_name dev_name tty_name tty_ops : Ptr) (s : Vfs)
    → Apart root_dir dev_dir tty
    → (s' : Vfs) × (init_vfs fuel root_dir dev_dir tty root_name dev_name tty_name tty_ops s
        ≡ some s')
      × (s'.global_vfs_root ≡ root_dir)
      × (s'.global_tty ≡ tty)
      × HasChildren s' root_dir (dev_dir ∷ [])
      × HasChildren s' dev_dir (tty ∷ [])
      × HasChildren s' tty []
      × ((s'.vnodes dev_dir).parent ≡ root_dir)
      × ((s'.vnodes tty).parent ≡ dev_dir)
      × ((s'.vnodes tty).ops ≡ tty_ops)
unfolding init_vfs create_vnode set_vnode mount_file_on_dir set_parent set_children update
    mathlib.Core.Option.bind
init_vfs-HasChildren fuel root_dir dev_dir tty root_name dev_name tty_name tty_ops s v =
    let rr : (root_dir == root_dir) ≡ true = ground arith in
    let dd : (dev_dir == dev_dir) ≡ true = ground arith in
    let tt' : (tty == tty) ≡ true = ground arith in
    let rd : (root_dir == dev_dir) ≡ false = ground (arith, v.ab) in
    let dr : (dev_dir == root_dir) ≡ false = ground (arith, v.ab) in
    let rt : (root_dir == tty) ≡ false = ground (arith, v.ac) in
    let tr : (tty == root_dir) ≡ false = ground (arith, v.ac) in
    let dt : (dev_dir == tty) ≡ false = ground (arith, v.bc) in
    let td : (tty == dev_dir) ≡ false = ground (arith, v.bc) in
    let made = created root_dir dev_dir tty root_name dev_name tty_name tty_ops s in
    let one = set_parent tty dev_dir made in
    let two = set_children dev_dir tty one in
    let three = set_parent dev_dir root_dir two in
    let sib : (a : Ptr) → siblings (set_children root_dir dev_dir three) a ≡ siblings made a = λ a.
      (after_children root_dir dev_dir three a).0
      ∙ (after_parent dev_dir root_dir two a).0
      ∙ (after_children dev_dir tty one a).0
      ∙ (after_parent tty dev_dir made a).0 in
    (
      set_children root_dir dev_dir
          (set_parent dev_dir root_dir (set_children dev_dir tty (set_parent tty dev_dir made))),
      simp (rr, dd, tt', rd, dr, rt, tr, dt, td) refl,
      refl,
      refl,
      record {
        chain = (
          simp (rr, dd, tt', rd, dr, rt, tr, dt, td) refl,
          sib dev_dir ∙ (no_sibling root_dir dev_dir tty root_name dev_name tty_name tty_ops s v).0,
        );
        distinct = (refl, tt);
        no_null = ground (arith, v.some_b);
      },
      record {
        chain = (
          simp (rr, dd, tt', rd, dr, rt, tr, dt, td) refl,
          sib tty ∙ (no_sibling root_dir dev_dir tty root_name dev_name tty_name tty_ops s v).1,
        );
        distinct = (refl, tt);
        no_null = ground (arith, v.some_c);
      },
      record {
        chain = simp (rr, dd, tt', rd, dr, rt, tr, dt, td) refl;
        distinct = tt;
        no_null = refl;
      },
      simp (rr, dd, tt', rd, dr, rt, tr, dt, td) refl,
      simp (rr, dd, tt', rd, dr, rt, tr, dt, td) refl,
      simp (rr, dd, tt', rd, dr, rt, tr, dt, td) refl,
    )
