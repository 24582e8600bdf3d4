-- ===== src/Memory/User.antt =====
-- The memory of user tasks: kernel/syscall/mmap.c and kernel/syscall/munmap.c. A task's page directory
-- is the physical page `cr3`.
pub mod Round
pub mod Zero
mod Tests
use kernel_study.Base.{
  ℕ, zero, suc, ◌+◌, ◌-◌, ◌*◌, ◌/◌, ◌%◌, ◌^◌, Bool, true, false, ◌==◌, leb, if◌then◌else◌, bit_and,
  bit_or, u16, u32, sub32, update, Option, none, some, List, [], ◌∷◌,
}
use kernel_study.Memory.Align.{
  page_size, page_mask, page_present, page_writable, page_user, pde_index, pte_index,
  pages_required,
}
use kernel_study.Memory.Pmm.{pmm_free}
use kernel_study.Memory.Paging.{
  Paging, map_tmp_page, unmap_tmp_page, tmp_word, tmp_get, tmp_set, alloc_cleared, alloc_zeroed,
}

-- The flags of what a task may use.
abbrev pub user_flags : ℕ
user_flags = bit_or (bit_or page_present page_writable) page_user

-- `tmp = map_tmp_page(addr)`, one word of it, `unmap_tmp_page()`.
unfoldable pub read_word : (addr i : ℕ) → Paging → ℕ × Paging
read_word addr i s = let t = map_tmp_page addr s in (tmp_get i t, unmap_tmp_page t)

unfoldable pub write_word : (addr i v : ℕ) → Paging → Paging
write_word addr i v s = unmap_tmp_page (tmp_set i v (map_tmp_page addr s))

-- A new cleared page becomes entry `pt_idx` of the page table that `pt_addr` names.
unfoldable pub fill_entry : (pt_addr pt_idx : ℕ) → Paging → Paging
fill_entry pt_addr pt_idx s =
    let (page, t) = alloc_zeroed s in
    write_word pt_addr pt_idx (bit_or (bit_and page page_mask) user_flags) t

-- One round of the inner loop of `sys_mmap`: whether it mapped a page. An entry that is in use leaves the
-- page table at `tmp_map_addr`.
unfoldable pub user_page : (cr3 pte_idx pt_idx : ℕ) → Paging → Bool × Paging
user_page cr3 pte_idx pt_idx s =
    let (pt_addr, t) = read_word cr3 pte_idx s in
    let (table, u) = alloc_zeroed t in
    let new_addr = bit_or (bit_and table page_mask) user_flags in
    let opened = map_tmp_page pt_addr t in
    if pt_addr == 0
    then (true, fill_entry new_addr pt_idx (write_word cr3 pte_idx new_addr u))
    else if tmp_get pt_idx opened == 0
    then (true, fill_entry pt_addr pt_idx (unmap_tmp_page opened))
    else (false, opened)

-- The variables of `sys_mmap`; `returned` once it has returned `first_addr`.
pub record Walk : Type 0 where
  pub mapped_pages : ℕ
  pub first_addr : ℕ
  pub returned : Bool
  pub paging : Paging

unfoldable pub mmap_round : (total_pages cr3 pte_idx pt_idx : ℕ) → Walk → Walk
mmap_round total_pages cr3 pte_idx pt_idx w =
    let (mapped, s) = user_page cr3 pte_idx pt_idx w.paging in
    let first =
      if w.mapped_pages == 0
      then bit_or (u32 (pte_idx * 2 ^ 22)) (u32 (pt_idx * 2 ^ 12))
      else w.first_addr in
    let mapped_pages = u32 (w.mapped_pages + 1) in
    if w.returned
    then w
    else if mapped
    then record {
      mapped_pages = mapped_pages;
      first_addr = first;
      returned = mapped_pages == total_pages;
      paging = s;
    }
    else record w { paging = s }

-- The inner loop, with `rounds` rounds to go from `pt_idx` on.
unfoldable pub mmap_entries : (total_pages cr3 pte_idx pt_idx rounds : ℕ) → Walk → Walk
mmap_entries total_pages cr3 pte_idx pt_idx zero w = w
mmap_entries total_pages cr3 pte_idx pt_idx (suc rounds) w =
    mmap_entries total_pages cr3 pte_idx (pt_idx + 1) rounds
      (mmap_round total_pages cr3 pte_idx pt_idx w)

-- The outer loop, with `rounds` rounds to go from `pte_idx` on.
unfoldable pub mmap_tables : (total_pages cr3 pte_idx pt_idx rounds : ℕ) → Walk → Walk
mmap_tables total_pages cr3 pte_idx pt_idx zero w = w
mmap_tables total_pages cr3 pte_idx pt_idx (suc rounds) w =
    mmap_tables total_pages cr3 (pte_idx + 1) 0 rounds
      (mmap_entries total_pages cr3 pte_idx pt_idx (1024 - pt_idx) w)

abbrev pub pages_of : ℕ → ℕ
pages_of len = if len % page_size == 0 then len / page_size else len / page_size + 1

-- `none` is -1. The argument `addr` is not used.
unfoldable pub sys_mmap : (cr3 len : ℕ) → Paging → Option ℕ × Paging
sys_mmap cr3 len s =
    let start : Walk = record { mapped_pages = 0; first_addr = 0; returned = false; paging = s } in
    let w = mmap_tables (pages_of len) cr3 0 1 1024 start in
    (if w.returned then some w.first_addr else none, w.paging)

-- One round of the inner loop of `sys_munmap`, and nothing once it has left the loop.
unfoldable pub munmap_round : (total_pages pt_addr j : ℕ) → ℕ × Paging → ℕ × Paging
munmap_round total_pages pt_addr j (current_pages, s) =
    let opened = map_tmp_page pt_addr s in
    let phys_addr = tmp_get j opened in
    let closed = unmap_tmp_page (tmp_set j 0 opened) in
    if leb total_pages current_pages
    then (current_pages, s)
    else (current_pages + 1, record closed { pmm = pmm_free phys_addr 1 closed.pmm })

unfoldable pub munmap_entries : (total_pages pt_addr j rounds : ℕ) → ℕ × Paging → ℕ × Paging
munmap_entries total_pages pt_addr j zero p = p
munmap_entries total_pages pt_addr j (suc rounds) p =
    munmap_entries total_pages pt_addr (j + 1) rounds (munmap_round total_pages pt_addr j p)

unfoldable pub munmap_tables : (total_pages cr3 pte_index i rounds : ℕ) → ℕ × Paging → ℕ × Paging
munmap_tables total_pages cr3 pte_index i zero p = p
munmap_tables total_pages cr3 pte_index i (suc rounds) p =
    let (pt_addr, s) = read_word cr3 i p.1 in
    munmap_tables total_pages cr3 pte_index (i + 1) rounds
      (munmap_entries total_pages pt_addr pte_index (1024 - pte_index) (p.0, s))

-- The result is always 0.
unfoldable pub sys_munmap : (cr3 addr len : ℕ) → Paging → Paging
sys_munmap cr3 addr len s =
    (munmap_tables (pages_required len) cr3 (pte_index addr) (pde_index addr)
      (1024 - pde_index addr) (0, s)).1
