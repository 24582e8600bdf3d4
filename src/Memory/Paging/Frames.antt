-- ===== src/Memory/Paging/Frames.antt =====
-- What the page tables are for: the walk that the processor makes, and what the kernel keeps true of them.
use kernel_study.Base.{
  ℕ, ◌+◌, ◌*◌, ◌/◌, ◌%◌, ◌^◌, ◌<◌, ◌≡◌, ◌≢◌, Option, none, some, ◌==◌, if◌then◌else◌, refl, arith,
  ap, ◌∙◌,
}
use kernel_study.Memory.Align.{pde_index, pte_index, bit_and-page_mask, indices_of_address}
use kernel_study.Memory.Bitmap.{bit_get}
use kernel_study.Memory.Pmm.Alloc.{IsPmm}
use kernel_study.Memory.Paging.{Paging, tmp_slot}

-- Where the entry of `virt_addr` is in physical memory, if its page table is there.
abbrev pub entry_addr : Paging → ℕ → ℕ
entry_addr s virt_addr =
    s.kernel_page_directory (pde_index virt_addr) / 4096 * 4096 + 4 * pte_index virt_addr

-- The page table entry that an access to `virt_addr` finds.
abbrev pub walk : Paging → ℕ → Option ℕ
walk s virt_addr =
    if s.kernel_page_directory (pde_index virt_addr) == 0
    then none
    else if s.phys (entry_addr s virt_addr) == 0
    then none
    else some (s.phys (entry_addr s virt_addr))

-- Page tables are pages in use, no two of them are the same page, and `tmp_map_addr` has one.
pub record IsPaging (s : Paging) : Type 0 where
  pub pmm : IsPmm s.pmm
  pub words : (d : ℕ) → s.kernel_page_directory d < 2 ^ 32
  pub used :
      (d : ℕ)
      → d < 1024
      → s.kernel_page_directory d ≢ 0
      → bit_get s.pmm.bitmap (s.kernel_page_directory d / 4096) ≡ 1
  pub apart :
      (d e : ℕ)
      → d < 1024
      → e < 1024
      → s.kernel_page_directory d ≢ 0
      → s.kernel_page_directory e ≢ 0
      → s.kernel_page_directory d / 4096 ≡ s.kernel_page_directory e / 4096
      → d ≡ e
  pub tmp_word : s.tmp_map_addr < 2 ^ 32
  pub tmp_table : s.kernel_page_directory (pde_index s.tmp_map_addr) ≢ 0

-- Two virtual addresses in one page.
abbrev pub SamePage : ℕ → ℕ → Type 0
SamePage v w = v / 4096 ≡ w / 4096

module _ (s : Paging) (v : IsPaging s) where
  pub tmp_slot-entry_addr : tmp_slot s ≡ entry_addr s s.tmp_map_addr
  tmp_slot-entry_addr = rw (bit_and-page_mask _ (v.words (pde_index s.tmp_map_addr))) refl

  -- The entries of different pages are different words.
  pub entries_apart :
      (a b : ℕ)
      → a < 2 ^ 32
      → b < 2 ^ 32
      → ¬ SamePage a b
      → s.kernel_page_directory (pde_index a) ≢ 0
      → s.kernel_page_directory (pde_index b) ≢ 0
      → entry_addr s a ≢ entry_addr s b
  entries_apart a b wa wb other ta tb e =
      let ia = indices_of_address a wa in
      let ib = indices_of_address b wb in
      let table : s.kernel_page_directory (pde_index a) / 4096
          ≡ s.kernel_page_directory (pde_index b) / 4096 =
        omega (arith, e, ia.1, ib.1) in
      let pte : pte_index a ≡ pte_index b = omega (arith, e, ia.1, ib.1) in
      let pde = v.apart (pde_index a) (pde_index b) ia.0 ib.0 ta tb table in
      other (omega (arith, pde, pte, ia.2, ib.2))

  pub entry_not_slot :
      (a : ℕ)
      → a < 2 ^ 32
      → ¬ SamePage a s.tmp_map_addr
      → s.kernel_page_directory (pde_index a) ≢ 0
      → entry_addr s a ≢ tmp_slot s
  entry_not_slot a w other t e =
      entries_apart a s.tmp_map_addr w v.tmp_word other t v.tmp_table (e ∙ tmp_slot-entry_addr)

  -- A page that is free holds no page table.
  pub table_not_free :
      (a page : ℕ)
      → a < 2 ^ 32
      → s.kernel_page_directory (pde_index a) ≢ 0
      → bit_get s.pmm.bitmap page ≡ 0
      → s.kernel_page_directory (pde_index a) / 4096 ≢ page
  table_not_free a page w t free e =
      let used = v.used (pde_index a) (indices_of_address a w).0 t in
      let same = ap (bit_get s.pmm.bitmap) e in ground (arith, used, same, free)

pub entry_addr-page :
    (s : Paging) (a : ℕ)
    → a < 2 ^ 32
    → (entry_addr s a / 4096 ≡ s.kernel_page_directory (pde_index a) / 4096)
      × (entry_addr s a % 4 ≡ 0)
entry_addr-page s a w = let i = indices_of_address a w in (omega (arith, i.1), omega (arith, i.1))
