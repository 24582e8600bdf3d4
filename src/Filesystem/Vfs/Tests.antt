-- ===== src/Filesystem/Vfs/Tests.antt =====
-- A directory with two children gets a third, and the tree at some addresses.
use kernel_study.Base.{◌≡◌, ◌≢◌, refl, true, false, List, [], ◌∷◌, some, arith, ◌==◌, if◌then◌else◌}
use kernel_study.Scheduler.{Ptr, null}
use kernel_study.Scheduler.Ring.{has}
use kernel_study.Filesystem.Vfs.{Vnode, Vfs, mount_file_on_dir}
use kernel_study.Filesystem.Vfs.Mount.{HasChildren, mount_file_on_dir-HasChildren}

abbrev empty_vnode : Vnode
empty_vnode = record { name = 0; parent = null; children = null; next_sibling = null; ops = null }

-- The directory 1 with the children 2 and 3.
abbrev two_children : Vfs
two_children = record {
  vnodes = λ a.
      if a == 1
      then record empty_vnode { children = 2 }
      else if a == 2
      then record empty_vnode { parent = 1; next_sibling = 3 }
      else record empty_vnode { parent = 1 };
  global_vfs_root = 1;
  global_tty = null;
}

two_children-HasChildren : HasChildren two_children 1 (2 ∷ 3 ∷ [])
two_children-HasChildren = record {
  chain = (refl, (refl, refl));
  distinct = (refl, (refl, tt));
  no_null = refl;
}

mount_file_on_dir-HasChildren_example :
    (s' : Vfs) × (mount_file_on_dir 3 4 1 two_children ≡ some s')
    × HasChildren s' 1 (2 ∷ 3 ∷ 4 ∷ [])
    × ((s'.vnodes 4).parent ≡ 1)
    × ((d : Ptr) (ys : List Ptr)
        → d ≢ 1
        → HasChildren two_children d ys
        → ((a : Ptr) → has a ys ≡ true → has a (2 ∷ 3 ∷ []) ≡ false)
        → HasChildren s' d ys)
mount_file_on_dir-HasChildren_example =
    mount_file_on_dir-HasChildren 4 1 two_children (λ e. omega (arith, e)) refl 3 (2 ∷ 3 ∷ [])
      two_children-HasChildren refl (omega arith)
