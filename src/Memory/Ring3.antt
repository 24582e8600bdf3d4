-- ===== src/Memory/Ring3.antt =====
-- The address space of a user task: `mmap_ring3` of kernel/memory.c. The bytes of the program are an
-- argument, as is where the boot loader put them.
pub mod Open
pub mod Bytes
pub mod Steps
pub mod Built
mod Tests
use mathlib.Core.Option
use kernel_study.Base.{
  ℕ, zero, suc, ◌+◌, ◌-◌, ◌*◌, ◌/◌, ◌%◌, ◌^◌, Bool, ◌==◌, ◌||◌, if◌then◌else◌, bit_and, bit_or, u8,
  u16, u32, sub32, update, Option, none, some,
}
use kernel_study.Memory.Align.{page_mask, page_present, pde_index, pte_index}
use kernel_study.Memory.Paging.{Paging, unmap_tmp_page, tmp_set, alloc_cleared, alloc_zeroed}
use kernel_study.Memory.User.{user_flags}

-- A word of memory with another byte `k`.
unfoldable pub set_byte : (word k v : ℕ) → ℕ
set_byte word k v = word - word / 256 ^ k % 256 * 256 ^ k + u8 v * 256 ^ k

-- Where the page table entry of `virt_addr` is.
abbrev pub slot_of : (virt_addr : ℕ) → Paging → ℕ
slot_of virt_addr s =
    bit_and (s.kernel_page_directory (pde_index virt_addr)) page_mask + 4 * pte_index virt_addr

-- A byte is stored at a virtual address; `none` is a page fault, at which the kernel halts.
unfoldable pub store_byte : (virt_addr v : ℕ) → Paging → Option Paging
store_byte virt_addr v s =
    let entry = s.phys (slot_of virt_addr s) in
    let word = bit_and entry page_mask + virt_addr % 4096 / 4 * 4 in
    if bit_and (s.kernel_page_directory (pde_index virt_addr)) page_present == 0
      || bit_and entry page_present == 0
    then none
    else some (record s { phys = update s.phys word (set_byte (s.phys word) (virt_addr % 4) v) })

-- The loop that copies the program, with `rounds` rounds to go from `i` on.
unfoldable pub copy_code : (user_code : ℕ → ℕ) → (i rounds : ℕ) → Paging → Option Paging
copy_code user_code i zero s = some s
copy_code user_code i (suc rounds) s =
    Option.bind (store_byte (u32 (s.tmp_map_addr + i)) (user_code i) s)
      (copy_code user_code (i + 1) rounds)

-- The page for the program.
unfoldable pub code_page : (user_code : ℕ → ℕ) → (limit : ℕ) → Paging → Option (ℕ × Paging)
code_page user_code limit s =
    let (page, t) = alloc_cleared s in
    Option.map (λ (u : Paging). (page, unmap_tmp_page u)) (copy_code user_code 0 limit t)

-- An entry for a page that the task may use.
abbrev pub user_entry : ℕ → ℕ
user_entry addr = bit_or (bit_and addr page_mask) user_flags

-- The page table.
unfoldable pub user_table : (page1 page2 : ℕ) → Paging → ℕ × Paging
user_table page1 page2 s =
    let (table, t) = alloc_cleared s in
    (table, unmap_tmp_page (tmp_set 2 (user_entry page2) (tmp_set 1 (user_entry page1) t)))

-- The loop that copies the entries of the kernel.
unfoldable pub copy_kernel : (i rounds : ℕ) → Paging → Paging
copy_kernel i zero s = s
copy_kernel i (suc rounds) s = copy_kernel (i + 1) rounds (tmp_set i (s.kernel_page_directory i) s)

-- The page directory.
unfoldable pub user_directory : (table : ℕ) → Paging → ℕ × Paging
user_directory table s =
    let (directory, t) = alloc_cleared s in
    (directory, unmap_tmp_page (copy_kernel 768 256 (tmp_set 0 (user_entry table) t)))

-- `mmap_ring3` once the program is in its page.
unfoldable pub with_code : ℕ × Paging → ℕ × Paging
with_code (page1, s) =
    let (page2, t) = alloc_zeroed s in
    let (table, u) = user_table page1 page2 t in user_directory table u

unfoldable pub mmap_ring3 :
    (user_code : ℕ → ℕ) → (mod_start mod_end : ℕ) → Paging → Option (ℕ × Paging)
mmap_ring3 user_code mod_start mod_end s =
    Option.map with_code (code_page user_code (u16 (sub32 mod_end mod_start)) s)
