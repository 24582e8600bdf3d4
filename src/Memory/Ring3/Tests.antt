-- ===== src/Memory/Ring3/Tests.antt =====
-- A task whose program has five bytes, in a kernel with one page table, in page 2 of 64.
use kernel_study.Base.{
  ℕ, ◌+◌, ◌*◌, ◌/◌, ◌≤◌, ◌≡◌, ◌≢◌, refl, some, ◌==◌, if◌then◌else◌, arith, scan, update, u16, sub32,
  Bool-cases, inl, inr, bit_and, ap, ◌∙◌,
}
use kernel_study.Memory.Align.{pde_index, page_present}
use kernel_study.Memory.Bitmap.{Bytes, bit_get, bit_set}
use kernel_study.Memory.Pmm.{Pmm, pmm_alloc, set_used_bitmaps}
use kernel_study.Memory.Pmm.Alloc.{FreeAt}
use kernel_study.Memory.Paging.{Paging}
use kernel_study.Memory.Paging.Frames.{IsPaging}
use kernel_study.Memory.Ring3.{mmap_ring3}
use kernel_study.Memory.Ring3.Steps.{took}
use kernel_study.Memory.Ring3.Built.{Pages, UserSpace, mmap_ring3-UserSpace}

abbrev first_three : Bytes
first_three i = if i == 0 then 0x07 else 0

abbrev small_kernel : Paging
small_kernel = record {
  pmm = record { bitmap = first_three; bitmap_size = 64 };
  phys = λ a. 0;
  kernel_page_directory = λ d. if d == 768 then 0x2003 else 0;
  tmp_map_addr = 0xC03FF000;
  kheap_pages = λ i. 0;
}

small_kernel_used :
    (d : ℕ)
    → small_kernel.kernel_page_directory d ≢ 0
    → bit_get first_three (small_kernel.kernel_page_directory d / 4096) ≡ 1
unfolding bit_get
small_kernel_used d ne = elim (Bool-cases (d == 768)) [
  | inl a ↦ rw a refl
  | inr a ↦ absurd (ne (rw a refl))
]

small_kernel-IsPaging : IsPaging small_kernel
unfolding bit_get pde_index
small_kernel-IsPaging = record {
  pmm = record { bytes = λ i. ground arith; small = omega arith };
  words = λ d. ground arith;
  used = λ d lt ne. small_kernel_used d ne;
  apart = λ d e ld le nd ne same. ground (arith, nd, ne);
  tmp_word = omega arith;
  tmp_table = λ e. omega (arith, e);
}

kernel_table : bit_and (small_kernel.kernel_page_directory (pde_index 0xC03FF000)) page_present ≡ 1
unfolding pde_index
kernel_table = refl

free_one : (q : Pmm) (t : ℕ) → t + 1 ≤ q.bitmap_size → bit_get q.bitmap t ≡ 0 → FreeAt q 1 t
free_one q t inside free = record {
  inside = inside;
  free = λ k lt. let e : t + k ≡ t = omega (arith, lt) in ap (bit_get q.bitmap) e ∙ free;
}

free_3 : FreeAt small_kernel.pmm 1 3
unfolding bit_get
free_3 = free_one small_kernel.pmm 3 (omega arith) refl

sizes :
    ((took small_kernel).pmm.bitmap_size ≡ 64)
    × ((took (took small_kernel)).pmm.bitmap_size ≡ 64)
    × ((took (took (took small_kernel))).pmm.bitmap_size ≡ 64)
unfolding pmm_alloc
sizes = (refl, refl, refl)

free_4 : FreeAt (took small_kernel).pmm 1 4
unfolding bit_get bit_set set_used_bitmaps pmm_alloc scan update
free_4 = free_one (took small_kernel).pmm 4 (omega (arith, sizes.0)) refl

free_5 : FreeAt (took (took small_kernel)).pmm 1 5
unfolding bit_get bit_set set_used_bitmaps pmm_alloc scan update
free_5 = free_one (took (took small_kernel)).pmm 5 (omega (arith, sizes.1)) refl

free_6 : FreeAt (took (took (took small_kernel))).pmm 1 6
unfolding bit_get bit_set set_used_bitmaps pmm_alloc scan update
free_6 = free_one (took (took (took small_kernel))).pmm 6 (omega (arith, sizes.2)) refl

mmap_ring3-UserSpace_example :
    (q : Pages) × (s' : Paging) × (mmap_ring3 (λ i. 0x90) 0x200 0x205 small_kernel
      ≡ some (q.directory * 4096, s'))
    × UserSpace small_kernel (λ i. 0x90) (u16 (sub32 0x205 0x200)) q s'
mmap_ring3-UserSpace_example =
    mmap_ring3-UserSpace small_kernel small_kernel-IsPaging refl kernel_table (λ i. 0x90) 0x200
      0x205 (omega arith) 3 4 5 6 free_3 free_4 free_5 free_6
