-- ===== src/Filesystem/Vfs/Mount.antt =====
-- `mount_file_on_dir` puts a file behind the children of a directory.
use kernel_study.Base.{
  ℕ, zero, suc, ◌<◌, ◌≡◌, ◌≢◌, refl, inl, inr, true, false, List, [], ◌∷◌, ◌++◌, some, arith, ◌==◌,
  length, last_of, ◌∙◌, if◌then◌else◌, Bool-cases, ap, update,
}
use kernel_study.Scheduler.{Ptr, null}
use kernel_study.Scheduler.Ring.{
  Seg, Seg-frame, Seg-append, Seg-redirect, has, has-append, has-last_of, Distinct, Distinct-snoc,
}
use kernel_study.Filesystem.Vfs.{
  Vnode, Vfs, set_vnode, last_sibling, set_parent, set_children, set_sibling, mount_file_on_dir,
}

-- The `next_sibling` pointers.
abbrev pub siblings : Vfs → Ptr → Ptr
siblings s a = (s.vnodes a).next_sibling

-- The children of `dir`, in order.
pub record HasChildren (s : Vfs) (dir : Ptr) (xs : List Ptr) : Type 0 where
  pub chain : Seg (siblings s) (s.vnodes dir).children xs null
  pub distinct : Distinct xs
  pub no_null : has null xs ≡ false

last_sibling-last_of :
    (vnodes : Ptr → Vnode) (fuel : ℕ) (p : Ptr) (xs : List Ptr)
    → Seg (λ a. (vnodes a).next_sibling) (vnodes p).next_sibling xs null
    → has null xs ≡ false
    → length xs < fuel
    → last_sibling vnodes fuel p ≡ some (last_of p xs)
unfolding last_sibling
last_sibling-last_of vnodes zero p xs s out h = absurd (omega (arith, h))
last_sibling-last_of vnodes (suc fuel) p [] s out h = ground (arith, s)
last_sibling-last_of vnodes (suc fuel) p (x ∷ xs) s out h =
    ground (arith, s.0, last_sibling-last_of vnodes fuel x xs s.1)

-- What each field is after one of them is written.
module _ (p q : Ptr) (s : Vfs) (a : Ptr) where
  pub after_parent :
      ((((set_parent p q s).vnodes a).next_sibling ≡ (s.vnodes a).next_sibling)
        × (((set_parent p q s).vnodes a).children ≡ (s.vnodes a).children)
        × (((set_parent p q s).vnodes a).parent ≡ (if p == a then q else (s.vnodes a).parent)))
  unfolding set_parent set_vnode update
  after_parent = elim (Bool-cases (p == a)) [
    | inl e ↦
        let same : p ≡ a = ground (arith, e) in
        rw e (
          ap (λ (x : Ptr). (s.vnodes x).next_sibling) same,
          ap (λ (x : Ptr). (s.vnodes x).children) same,
          refl,
        )
    | inr ne ↦ rw ne (refl, refl, refl)
  ]

  pub after_children :
      ((((set_children p q s).vnodes a).next_sibling ≡ (s.vnodes a).next_sibling)
        × (((set_children p q s).vnodes a).children ≡ (if p == a then q else (s.vnodes a).children))
        × (((set_children p q s).vnodes a).parent ≡ (s.vnodes a).parent))
  unfolding set_children set_vnode update
  after_children = elim (Bool-cases (p == a)) [
    | inl e ↦
        let same : p ≡ a = ground (arith, e) in
        rw e (
          ap (λ (x : Ptr). (s.vnodes x).next_sibling) same,
          refl,
          ap (λ (x : Ptr). (s.vnodes x).parent) same,
        )
    | inr ne ↦ rw ne (refl, refl, refl)
  ]

  after_sibling :
      ((((set_sibling p q s).vnodes a).next_sibling
          ≡ (if p == a then q else (s.vnodes a).next_sibling))
        × (((set_sibling p q s).vnodes a).children ≡ (s.vnodes a).children)
        × (((set_sibling p q s).vnodes a).parent ≡ (s.vnodes a).parent))
  unfolding set_sibling set_vnode update
  after_sibling = elim (Bool-cases (p == a)) [
    | inl e ↦
        let same : p ≡ a = ground (arith, e) in
        rw e (
          refl,
          ap (λ (x : Ptr). (s.vnodes x).children) same,
          ap (λ (x : Ptr). (s.vnodes x).parent) same,
        )
    | inr ne ↦ rw ne (refl, refl, refl)
  ]

-- The tree after the file has been put behind the children `xs`.
abbrev mounted : (file dir : Ptr) → List Ptr → Vfs → Vfs
mounted file dir [] s = set_children dir file (set_parent file dir s)
mounted file dir (x ∷ xs) s = set_sibling (last_of x xs) file (set_parent file dir s)

module _ (file dir : Ptr) (s : Vfs) where
  siblings_of_parent : (a : Ptr) → siblings (set_parent file dir s) a ≡ siblings s a
  siblings_of_parent a = (after_parent file dir s a).0

  mount_file_on_dir-mounted :
      (fuel : ℕ) (xs : List Ptr)
      → HasChildren s dir xs
      → length xs < fuel
      → mount_file_on_dir fuel file dir s ≡ some (mounted file dir xs s)
  unfolding mount_file_on_dir
  mount_file_on_dir-mounted fuel [] h lt =
      let e : ((set_parent file dir s).vnodes dir).children ≡ null =
        (after_parent file dir s dir).1 ∙ h.chain in
      rw e refl
  mount_file_on_dir-mounted fuel (x ∷ xs) h lt =
      let e : ((set_parent file dir s).vnodes dir).children ≡ x =
        (after_parent file dir s dir).1 ∙ h.chain.0 in
      let some_child : (x == null) ≡ false = ground (arith, h.no_null) in
      let chain : Seg (siblings (set_parent file dir s)) (siblings (set_parent file dir s) x) xs
          null =
        rw (siblings_of_parent x) (
          Seg-frame (siblings s) (siblings (set_parent file dir s)) (siblings s x) xs null
            (λ a i. siblings_of_parent a) h.chain.1) in
      rw
        (
          e,
          some_child,
          last_sibling-last_of (set_parent file dir s).vnodes fuel x xs chain
              (ground (arith, h.no_null)) (omega (arith, lt)),
        )
        refl

  module _ (no_file : file ≢ null) (alone : siblings s file ≡ null) where
    mounted-HasChildren :
        (xs : List Ptr)
        → HasChildren s dir xs
        → has file xs ≡ false
        → HasChildren (mounted file dir xs s) dir (xs ++ (file ∷ []))
    mounted-HasChildren [] h out = record {
      chain = (
        ground (arith, (after_children dir file (set_parent file dir s) dir).1),
        (after_children dir file (set_parent file dir s) file).0 ∙ siblings_of_parent file ∙ alone,
      );
      distinct = (refl, tt);
      no_null = ground (arith, no_file);
    }
    mounted-HasChildren (x ∷ xs) h out =
        let t = set_parent file dir s in
        let after = set_sibling (last_of x xs) file t in
        let chain : Seg (siblings t) (siblings t x) xs null = rw (siblings_of_parent x) (
          Seg-frame (siblings s) (siblings t) (siblings s x) xs null (λ a i. siblings_of_parent a)
            h.chain.1) in
        let moved : Seg (siblings after) (siblings after x) xs file =
          Seg-redirect (siblings t) (siblings after) x xs null file
            (λ a. (after_sibling (last_of x xs) file t a).0) chain h.distinct in
        let first : (after.vnodes dir).children ≡ x =
          (after_sibling (last_of x xs) file t dir).1
          ∙ (after_parent file dir s dir).1
          ∙ h.chain.0 in
        let ends : siblings after file ≡ null = ground (
          arith,
          (after_sibling (last_of x xs) file t file).0,
          siblings_of_parent file,
          alone,
          has-last_of x xs,
          out,
        ) in
        record {
          chain = (
            first,
            Seg-append (siblings after) (siblings after x) xs file (file ∷ []) null moved
                (refl, ends),
          );
          distinct = Distinct-snoc (x ∷ xs) file h.distinct out;
          no_null = ground (arith, has-append null (x ∷ xs) (file ∷ []), h.no_null, no_file);
        }

    siblings_kept :
        (xs : List Ptr) (a : Ptr)
        → HasChildren s dir xs
        → has a xs ≡ false
        → siblings (mounted file dir xs s) a ≡ siblings s a
    siblings_kept [] a h out =
        (after_children dir file (set_parent file dir s) a).0 ∙ siblings_of_parent a
    siblings_kept (x ∷ xs) a h out = ground (
      arith,
      (after_sibling (last_of x xs) file (set_parent file dir s) a).0,
      siblings_of_parent a,
      has-last_of x xs,
      out,
    )

    children_kept :
        (xs : List Ptr) (d : Ptr)
        → d ≢ dir
        → ((mounted file dir xs s).vnodes d).children ≡ (s.vnodes d).children
    children_kept [] d ne = ground (
      arith,
      (after_children dir file (set_parent file dir s) d).1,
      (after_parent file dir s d).1,
      ne,
    )
    children_kept (x ∷ xs) d ne =
        (after_sibling (last_of x xs) file (set_parent file dir s) d).1
        ∙ (after_parent file dir s d).1

    parent_lem : (xs : List Ptr) → ((mounted file dir xs s).vnodes file).parent ≡ dir
    parent_lem [] = ground (
      arith,
      (after_children dir file (set_parent file dir s) file).2,
      (after_parent file dir s file).2,
    )
    parent_lem (x ∷ xs) = ground (
      arith,
      (after_sibling (last_of x xs) file (set_parent file dir s) file).2,
      (after_parent file dir s file).2,
    )

    -- A file that is not null, has no next sibling and is no child of the directory: `mount_file_on_dir` ends with
    -- more fuel than the directory has children, the file then is the last child behind the others, and the directory is
    -- its parent. Any other directory keeps its children, if they are none of these.
    pub mount_file_on_dir-HasChildren :
        (fuel : ℕ) (xs : List Ptr)
        → HasChildren s dir xs
        → has file xs ≡ false
        → length xs < fuel
        → (s' : Vfs) × (mount_file_on_dir fuel file dir s ≡ some s')
          × HasChildren s' dir (xs ++ (file ∷ []))
          × ((s'.vnodes file).parent ≡ dir)
          × ((d : Ptr) (ys : List Ptr)
              → d ≢ dir
              → HasChildren s d ys
              → ((a : Ptr) → has a ys ≡ true → has a xs ≡ false)
              → HasChildren s' d ys)
    mount_file_on_dir-HasChildren fuel xs h out lt = (
      mounted file dir xs s,
      mount_file_on_dir-mounted fuel xs h lt,
      mounted-HasChildren xs h out,
      parent_lem xs,
      λ d ys ne k apart. record {
        chain = rw (children_kept xs d ne) (
            Seg-frame (siblings s) (siblings (mounted file dir xs s)) (s.vnodes d).children ys null
              (λ a i. siblings_kept xs a h (apart a i)) k.chain);
        distinct = k.distinct;
        no_null = k.no_null;
      },
    )
