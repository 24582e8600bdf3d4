-- ===== src/Memory/Paging/Tests.antt =====
-- A kernel with two page tables, in pages 2 and 3 of 64.
use kernel_study.Base.{
  ℕ, zero, suc, ◌+◌, ◌*◌, ◌/◌, ◌^◌, ◌<◌, ◌≡◌, ◌≢◌, refl, none, some, ◌==◌, if◌then◌else◌, inl, inr,
  Bool-cases, arith, scan, update,
}
use kernel_study.Memory.Align.{pde_index, pte_index}
use kernel_study.Memory.Bitmap.{Bytes, bit_get, bit_set}
use kernel_study.Memory.Pmm.{pmm_alloc, set_used_bitmaps}
use kernel_study.Memory.Pmm.Alloc.{FreeAt}
use kernel_study.Memory.Paging.{Paging, mmap_page, unmmap_page}
use kernel_study.Memory.Paging.Frames.{walk, IsPaging, SamePage}
use kernel_study.Memory.Paging.Alloc.{NotTable, page, taken}
use kernel_study.Memory.Paging.Kernel.{Mapped, mmap_page-Mapped}
use kernel_study.Memory.Paging.Remove.{Unmapped, unmmap_page-Unmapped}
use kernel_study.Memory.Paging.RoundTrip.{unmmap_page-mmap_page}

abbrev bitmap_4 : Bytes
bitmap_4 i = if i == 0 then 0x0F else 0

-- `tmp_map_addr` is the last page of the first table; the second table is the heap's.
abbrev kernel_4 : Paging
kernel_4 = record {
  pmm = record { bitmap = bitmap_4; bitmap_size = 64 };
  phys = λ a. 0;
  kernel_page_directory = λ d. if d == 768 then 0x2003 else if d == 769 then 0x3003 else 0;
  tmp_map_addr = 0xC03FF000;
  kheap_pages = λ i. 0;
}

used_4 :
    (d : ℕ)
    → kernel_4.kernel_page_directory d ≢ 0
    → bit_get bitmap_4 (kernel_4.kernel_page_directory d / 4096) ≡ 1
unfolding bit_get
used_4 d ne = elim (Bool-cases (d == 768)) [
  | inl a ↦ rw a refl
  | inr a ↦ elim (Bool-cases (d == 769)) [
    | inl b ↦ rw (a, b) refl
    | inr b ↦ absurd (ne (rw (a, b) refl))
  ]
]

kernel_4-IsPaging : IsPaging kernel_4
unfolding bit_get pde_index
kernel_4-IsPaging = record {
  pmm = record { bytes = λ i. ground arith; small = omega arith };
  words = λ d. ground arith;
  used = λ d lt ne. used_4 d ne;
  apart = λ d e ld le nd ne same. ground (arith, nd, ne, same);
  tmp_word = omega arith;
  tmp_table = λ e. omega (arith, e);
}

bit_4 : (k : ℕ) → k < 1 → bit_get bitmap_4 (4 + k) ≡ 0
unfolding bit_get
bit_4 zero lt = refl
bit_4 (suc k) lt = omega (arith, lt)

free_4 : FreeAt kernel_4.pmm 1 4
free_4 = record { inside = omega arith; free = bit_4 }

abbrev after_4 : Paging
after_4 = taken kernel_4 kernel_4-IsPaging 4 free_4

bit_5 : (k : ℕ) → k < 1 → bit_get after_4.pmm.bitmap (5 + k) ≡ 0
unfolding bit_get bit_set set_used_bitmaps pmm_alloc scan update
bit_5 zero lt = refl
bit_5 (suc k) lt = omega (arith, lt)

after_4-size : after_4.pmm.bitmap_size ≡ 64
unfolding pmm_alloc
after_4-size = refl

free_5 : FreeAt after_4.pmm 1 5
free_5 = record { inside = omega (arith, after_4-size); free = bit_5 }

base_table : kernel_4.kernel_page_directory (pde_index 0xC0400000) ≢ 0
unfolding pde_index
base_table e = omega (arith, e)

mmap_page-Mapped_example :
    Mapped kernel_4 (mmap_page 3 0 kernel_4) 0xC0400000 (page kernel_4 kernel_4-IsPaging 4 free_4) 3
    × ((mmap_page 3 0 kernel_4).kheap_pages 0 ≡ 1)
mmap_page-Mapped_example =
    mmap_page-Mapped kernel_4 kernel_4-IsPaging 3 0 (omega arith) (ground arith) 4 free_4 5 free_5
      (λ e. omega (arith, e))

unmmap_page-mmap_page_example :
    let s' = unmmap_page 0xC0400000 (mmap_page 3 0 kernel_4) in
    IsPaging s'
    × (walk s' 0xC0400000 ≡ none)
    × ((a : ℕ)
        → a < 2 ^ 32
        → ¬ SamePage a 0xC0400000
        → ¬ SamePage a 0xC03FF000
        → walk s' a ≡ walk kernel_4 a)
    × ((j : ℕ) → bit_get s'.pmm.bitmap j ≡ bit_get bitmap_4 j)
    × (s'.kheap_pages 0 ≡ 0)
unmmap_page-mmap_page_example =
    unmmap_page-mmap_page kernel_4 kernel_4-IsPaging 3 0 (omega arith) (ground arith) (omega arith)
      4 free_4 5 free_5 base_table (λ e. omega (arith, e))

-- The heap's first page is page 4.
abbrev kernel_5 : Paging
kernel_5 = record kernel_4 {
  pmm = record { bitmap = λ i. if i == 0 then 0x1F else 0; bitmap_size = 64 };
  phys = λ a. if a == 0x3000 then 0x4003 else 0;
  kheap_pages = λ i. if i == 0 then 1 else 0;
}

used_5 :
    (d : ℕ)
    → kernel_5.kernel_page_directory d ≢ 0
    → bit_get kernel_5.pmm.bitmap (kernel_5.kernel_page_directory d / 4096) ≡ 1
unfolding bit_get
used_5 d ne = elim (Bool-cases (d == 768)) [
  | inl a ↦ rw a refl
  | inr a ↦ elim (Bool-cases (d == 769)) [
    | inl b ↦ rw (a, b) refl
    | inr b ↦ absurd (ne (rw (a, b) refl))
  ]
]

kernel_5-IsPaging : IsPaging kernel_5
kernel_5-IsPaging = record {
  pmm = record { bytes = λ i. ground arith; small = omega arith };
  words = kernel_4-IsPaging.words;
  used = λ d lt ne. used_5 d ne;
  apart = kernel_4-IsPaging.apart;
  tmp_word = omega arith;
  tmp_table = kernel_4-IsPaging.tmp_table;
}

there_5 : walk kernel_5 0xC0400000 ≡ some (4 * 4096 + 3)
unfolding pde_index pte_index
there_5 = refl

page_4-NotTable : NotTable kernel_5 4
page_4-NotTable d lt ne = ground arith

unmmap_page-Unmapped_example :
    Unmapped kernel_5 (unmmap_page 0xC0400000 kernel_5) 0xC0400000 4
    × ((unmmap_page 0xC0400000 kernel_5).kheap_pages 0 ≡ 0)
unmmap_page-Unmapped_example =
    unmmap_page-Unmapped kernel_5 kernel_5-IsPaging 0xC0400000 4 3 (omega arith) (omega arith)
      (omega arith) there_5 page_4-NotTable (λ e. omega (arith, e))
