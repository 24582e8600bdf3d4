-- ===== src/Memory/Paging.antt =====
-- The page tables of kernel/memory.c: the temporary mapping through which the kernel reaches a
-- physical page, and `mmap` and `unmmap` of pages of the kernel heap. Physical memory is a store of
-- 32-bit words by address; `invlpg` keeps the processor's view the one of the tables.
pub mod Frames
pub mod Tmp
pub mod Alloc
pub mod Table
pub mod Kernel
pub mod Remove
pub mod RoundTrip
mod Tests
use kernel_study.Base.{
  ℕ, zero, suc, ◌+◌, ◌-◌, ◌*◌, ◌/◌, ◌%◌, ◌^◌, Bool, ◌==◌, if◌then◌else◌, bit_and, bit_or, u32,
  sub32, update,
}
use kernel_study.Memory.Align.{
  page_size, page_mask, page_present, page_writable, pde_index, pte_index,
}
use kernel_study.Memory.Kheap.{kheap_start, free_virt_area_idx}
use kernel_study.Memory.Pmm.{Pmm, pmm_alloc, pmm_free}

pub record Paging : Type 0 where
  pub pmm : Pmm
  pub phys : ℕ → ℕ
  pub kernel_page_directory : ℕ → ℕ
  pub tmp_map_addr : ℕ
  pub kheap_pages : ℕ → ℕ

-- The physical address of the page table entry of `tmp_map_addr`: the kernel sees the table
-- `KERNEL_BASE` above it.
abbrev pub tmp_slot : Paging → ℕ
tmp_slot s =
    bit_and (s.kernel_page_directory (pde_index s.tmp_map_addr)) page_mask
    + 4 * pte_index s.tmp_map_addr

unfoldable pub map_tmp_page : ℕ → Paging → Paging
map_tmp_page phys_addr s = record s {
  phys =
      update s.phys (tmp_slot s)
        (bit_or (bit_and phys_addr page_mask) (bit_or page_present page_writable));
}

unfoldable pub unmap_tmp_page : Paging → Paging
unmap_tmp_page s = record s { phys = update s.phys (tmp_slot s) 0 }

-- Where word `i` behind `tmp_map_addr` is in physical memory.
abbrev pub tmp_word : ℕ → Paging → ℕ
tmp_word i s = bit_and (s.phys (tmp_slot s)) page_mask + 4 * i

unfoldable pub tmp_get : ℕ → Paging → ℕ
tmp_get i s = s.phys (tmp_word i s)

unfoldable pub tmp_set : ℕ → ℕ → Paging → Paging
tmp_set i v s = record s { phys = update s.phys (tmp_word i s) v }

-- The loops that clear a page, with `rounds` rounds to go from `i` on.
unfoldable pub zero_from : (i rounds : ℕ) → Paging → Paging
zero_from i zero s = s
zero_from i (suc rounds) s = zero_from (i + 1) rounds (tmp_set i 0 s)

-- `pmm_alloc(1)` and the loop that clears the new page, which stays at `tmp_map_addr`.
unfoldable pub alloc_cleared : Paging → ℕ × Paging
alloc_cleared s =
    let (addr, pmm) = pmm_alloc 1 s.pmm in
    (addr, zero_from 0 1024 (map_tmp_page addr (record s { pmm = pmm })))

unfoldable pub alloc_zeroed : Paging → ℕ × Paging
alloc_zeroed s = let (addr, t) = alloc_cleared s in (addr, unmap_tmp_page t)

-- The kernel's page directory gets a page table for `base_addr` if it has none.
unfoldable pub need_table : (base_addr flags : ℕ) → Paging → Paging
need_table base_addr flags s =
    let (table, t) = alloc_zeroed s in
    if s.kernel_page_directory (pde_index base_addr) == 0
    then record t {
      kernel_page_directory =
          update t.kernel_page_directory (pde_index base_addr)
            (bit_or (bit_and table page_mask) flags);
    }
    else s

-- The page table entry of `base_addr` becomes `entry`.
unfoldable pub set_entry : (base_addr entry : ℕ) → Paging → Paging
set_entry base_addr entry s = unmap_tmp_page (
    tmp_set (pte_index base_addr) entry
      (map_tmp_page (s.kernel_page_directory (pde_index base_addr)) s))

-- One round of the loop of `mmap`, for the heap page `free_virt_area_tmp`.
unfoldable pub mmap_page : (flags free_virt_area_tmp : ℕ) → Paging → Paging
mmap_page flags free_virt_area_tmp s =
    let (page, t) = alloc_zeroed s in
    let base_addr = u32 (kheap_start + free_virt_area_tmp * page_size) in
    let mapped =
      set_entry base_addr (bit_or (bit_and page page_mask) flags) (need_table base_addr flags t) in
    record mapped { kheap_pages = update mapped.kheap_pages free_virt_area_tmp 1 }

unfoldable pub mmap_from : (flags free_virt_area_tmp rounds : ℕ) → Paging → Paging
mmap_from flags free_virt_area_tmp zero s = s
mmap_from flags free_virt_area_tmp (suc rounds) s =
    mmap_from flags (u32 (free_virt_area_tmp + 1)) rounds (mmap_page flags free_virt_area_tmp s)

unfoldable pub mmap : (npages flags : ℕ) → Paging → ℕ × Paging
mmap npages flags s =
    let start = free_virt_area_idx s.kheap_pages npages in
    (u32 (kheap_start + start * page_size), mmap_from flags start npages s)

-- One round of the loop of `unmmap`.
unfoldable pub unmmap_page : (virt_addr : ℕ) → Paging → Paging
unmmap_page virt_addr s =
    let page_idx = sub32 virt_addr kheap_start / page_size in
    let t = map_tmp_page (s.kernel_page_directory (pde_index virt_addr)) s in
    let phys_addr = bit_and (tmp_get (pte_index virt_addr) t) page_mask in
    let freed = tmp_set (pte_index virt_addr) 0 (record t { pmm = pmm_free phys_addr 1 t.pmm }) in
    unmap_tmp_page (record freed { kheap_pages = update freed.kheap_pages page_idx 0 })

unfoldable pub unmmap : (virt_addr npages : ℕ) → Paging → Paging
unmmap virt_addr zero s = s
unmmap virt_addr (suc npages) s =
    unmmap (u32 (virt_addr + page_size)) npages (unmmap_page virt_addr s)
