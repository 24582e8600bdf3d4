-- ===== src/Memory/Pmm.antt =====
-- The physical page allocator of kernel/memory.c: `pmm_alloc`, `pmm_free` and the loops by which
-- they write the page bitmap. Bit `i` of the bitmap is 1 while the page at `i * PAGE_SIZE` is used.
pub mod Ranges
pub mod Alloc
mod Tests
use kernel_study.Base.{
  ℕ, zero, suc, ◌+◌, ◌-◌, ◌*◌, ◌/◌, ◌%◌, ◌^◌, Bool, ◌==◌, u32, u64, sub32, sub64, scan,
}
use kernel_study.Memory.Align.{page_size}
use kernel_study.Memory.Bitmap.{Bytes, bit_set, bit_clear, bit_get}

abbrev pub bitmap_free : ℕ
bitmap_free = 0

-- The file's `bitmap` and `bitmap_size`. The bytes go on past the bitmap, as memory does.
pub record Pmm : Type 0 where
  pub bitmap : Bytes
  pub bitmap_size : ℕ

-- `set_used_bitmaps`, also the second loop of `pmm_alloc`: `n` rounds of `BIT_SET` from `i` on.
unfoldable pub set_used_bitmaps : Bytes → ℕ → ℕ → Bytes
set_used_bitmaps bitmap i zero = bitmap
set_used_bitmaps bitmap i (suc n) = set_used_bitmaps (bit_set bitmap i) (u64 (i + 1)) n

-- The loop of `pmm_free`: `n` rounds of `BIT_CLEAR` from `i` on.
unfoldable pub clear_bitmaps : Bytes → ℕ → ℕ → Bytes
clear_bitmaps bitmap i zero = bitmap
clear_bitmaps bitmap i (suc n) = clear_bitmaps (bit_clear bitmap i) (u64 (i + 1)) n

abbrev pub is_free : Bytes → ℕ → Bool
is_free bitmap i = bit_get bitmap i == bitmap_free

-- `pmm_alloc`: the address that it returns, and the allocator afterwards. The second loop runs from
-- `start` as long as `j <= i`.
unfoldable pub pmm_alloc : ℕ → Pmm → ℕ × Pmm
pmm_alloc npages s =
    let i = scan (is_free s.bitmap) npages s.bitmap_size 0 0 in
    let start = sub64 i (sub32 npages 1) in
    (
      u32 (u64 (start * page_size)),
      record s { bitmap = set_used_bitmaps s.bitmap start (i + 1 - start) },
    )

-- `pmm_free`
unfoldable pub pmm_free : ℕ → ℕ → Pmm → Pmm
pmm_free addr npages s = record s { bitmap = clear_bitmaps s.bitmap (addr / page_size) npages }
