-- ===== src/Filesystem/Vfs.antt =====
-- The tree of vnodes of kernel/filesystem/fs.c, and `open_file`. Vnodes are known by their addresses, and names and
-- tables of operations by theirs; what `kmalloc` returns is an argument.
pub mod Mount
pub mod Tree
mod Tests
use kernel_study.Base.{ℕ, zero, suc, Bool, ◌==◌, if◌then◌else◌, Option, none, some, update, u8}
use kernel_study.Scheduler.{Ptr, null}
use mathlib.Core.Option

pub record Vnode : Type 0 where
  pub name : Ptr
  pub parent : Ptr
  pub children : Ptr
  pub next_sibling : Ptr
  pub ops : Ptr

pub record Vfs : Type 0 where
  pub vnodes : Ptr → Vnode
  pub global_vfs_root : Ptr
  pub global_tty : Ptr

unfoldable pub set_vnode : Ptr → Vnode → Vfs → Vfs
set_vnode vnode v s = record s { vnodes = update s.vnodes vnode v }

unfoldable pub create_vnode : (vnode name : Ptr) → Vfs → Vfs
create_vnode vnode name =
    set_vnode vnode
      (record { name = name; parent = null; children = null; next_sibling = null; ops = null })

-- The loop that looks for the last sibling; `none` is a loop that is still running.
unfoldable pub last_sibling : (Ptr → Vnode) → (fuel : ℕ) → (tmp : Ptr) → Option Ptr
last_sibling vnodes zero tmp = none
last_sibling vnodes (suc fuel) tmp =
    let rest = last_sibling vnodes fuel (vnodes tmp).next_sibling in
    if (vnodes tmp).next_sibling == null then some tmp else rest

unfoldable pub set_parent : (file dir : Ptr) → Vfs → Vfs
set_parent file dir s = set_vnode file (record (s.vnodes file) { parent = dir }) s

unfoldable pub set_children : (dir file : Ptr) → Vfs → Vfs
set_children dir file s = set_vnode dir (record (s.vnodes dir) { children = file }) s

unfoldable pub set_sibling : (tmp file : Ptr) → Vfs → Vfs
set_sibling tmp file s = set_vnode tmp (record (s.vnodes tmp) { next_sibling = file }) s

unfoldable pub mount_file_on_dir : (fuel : ℕ) → (file dir : Ptr) → Vfs → Option Vfs
mount_file_on_dir fuel file dir s =
    let t = set_parent file dir s in
    let children = (t.vnodes dir).children in
    if children == null
    then some (set_children dir file t)
    else Option.map (λ (tmp : Ptr). set_sibling tmp file t) (last_sibling t.vnodes fuel children)

-- `init_vfs`, with the addresses of its names and of what `tty_ops` returns.
unfoldable pub init_vfs :
    (fuel : ℕ)
    → (root_dir dev_dir tty : Ptr) → (root_name dev_name tty_name tty_ops : Ptr) → Vfs
    → Option Vfs
init_vfs fuel root_dir dev_dir tty root_name dev_name tty_name tty_ops s =
    let rooted = record (create_vnode root_dir root_name s) { global_vfs_root = root_dir } in
    let created = create_vnode tty tty_name (create_vnode dev_dir dev_name rooted) in
    let named = record created { global_tty = tty } in
    let opened = set_vnode tty (record (named.vnodes tty) { ops = tty_ops }) named in
    Option.bind (mount_file_on_dir fuel tty dev_dir opened)
      (mount_file_on_dir fuel dev_dir root_dir)

-- `file_t`
pub record OpenFile : Type 0 where
  pub name : Ptr
  pub ops : Ptr
  pub flags : ℕ

unfoldable pub open_file : (vnode : Vnode) → (flags : ℕ) → OpenFile
open_file vnode flags = record { name = vnode.name; ops = vnode.ops; flags = u8 flags }
