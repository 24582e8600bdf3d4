-- ===== src/Memory/Pmm/Tests.antt =====
-- Runs of the page allocator on small bitmaps, and of the bit macros under it.
use kernel_study.Base.{ℕ, zero, suc, ◌+◌, ◌-◌, ◌*◌, ◌<◌, ◌≡◌, refl, arith, ◌==◌, if◌then◌else◌, u32}
use kernel_study.Memory.Align.{page_size}
use kernel_study.Memory.Bitmap.{Bytes, bit_get}
use kernel_study.Memory.Pmm.{Pmm, pmm_alloc}
use kernel_study.Memory.Pmm.Ranges.{in_range}
use kernel_study.Memory.Pmm.Alloc.{IsPmm, FreeAt, Allocated, pmm_alloc-Allocated, pmm_alloc_full}

-- Sixteen pages, of which 2, 3, 5, 6 and 7 are free.
abbrev some_bitmap : Bytes
some_bitmap i = if i == 0 then 0x13 else 0xFF

abbrev some_pmm : Pmm
some_pmm = record { bitmap = some_bitmap; bitmap_size = 16 }

some_pmm-IsPmm : IsPmm some_pmm
some_pmm-IsPmm = record { bytes = λ i. ground arith; small = omega arith }

free_two : (k : ℕ) → k < 2 → bit_get some_bitmap (2 + k) ≡ 0
unfolding bit_get
free_two zero h = refl
free_two (suc zero) h = refl
free_two (suc (suc k)) h = omega (arith, h)

two_at_2 : FreeAt some_pmm 2 2
two_at_2 = record { inside = omega arith; free = free_two }

pmm_alloc-Allocated_example : Allocated some_pmm 2 (pmm_alloc 2 some_pmm)
pmm_alloc-Allocated_example =
    pmm_alloc-Allocated 2 some_pmm some_pmm-IsPmm (omega arith) (omega arith) 2 two_at_2

-- Two pages, the second one used: no room for two.
abbrev full_pmm : Pmm
full_pmm = record { bitmap = λ i. 0xFE; bitmap_size = 2 }

full_pmm-IsPmm : IsPmm full_pmm
full_pmm-IsPmm = record { bytes = λ i. omega arith; small = omega arith }

no_two : (t : ℕ) → ¬ FreeAt full_pmm 2 t
unfolding bit_get
no_two zero f = let used : 1 ≡ 0 = f.free 1 (omega arith) in omega (arith, used)
no_two (suc t) f = omega (arith, f.inside)

pmm_alloc_full_example :
    ((pmm_alloc 2 full_pmm).0 ≡ u32 ((2 + 1 - 2) * page_size))
    × ((j : ℕ)
        → bit_get (pmm_alloc 2 full_pmm).1.bitmap j
          ≡ (if in_range (2 + 1 - 2) 2 j then 1 else bit_get (λ i. 0xFE) j))
pmm_alloc_full_example =
    pmm_alloc_full 2 full_pmm full_pmm-IsPmm (omega arith) (omega arith) (omega arith) no_two
