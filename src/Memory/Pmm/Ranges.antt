-- ===== src/Memory/Pmm/Ranges.antt =====
-- What the loops over the page bitmap do to each bit.
use kernel_study.Base.{
  ℕ, zero, suc, ◌+◌, ◌^◌, ◌<◌, ◌≡◌, Bool, ◌&&◌, arith, ltb, leb, if◌then◌else◌, u64, ◌∙◌,
}
use kernel_study.Memory.Bitmap.{
  Bytes, IsBytes, bit_set, bit_clear, bit_get, bit_set-IsBytes, bit_clear-IsBytes, bit_get-bit_set,
  bit_get-bit_clear,
}
use kernel_study.Memory.Pmm.{set_used_bitmaps, clear_bitmaps}

-- `j` is one of the `n` pages from `s` on.
abbrev pub in_range : ℕ → ℕ → ℕ → Bool
in_range s n j = leb s j && ltb j (s + n)

pub set_used_bitmaps-IsBytes :
    (arr : Bytes) (s n : ℕ) → IsBytes arr → IsBytes (set_used_bitmaps arr s n)
unfolding set_used_bitmaps
set_used_bitmaps-IsBytes arr s zero h = h
set_used_bitmaps-IsBytes arr s (suc n) h =
    set_used_bitmaps-IsBytes (bit_set arr s) (u64 (s + 1)) n (bit_set-IsBytes arr s h)

pub clear_bitmaps-IsBytes : (arr : Bytes) (s n : ℕ) → IsBytes arr → IsBytes (clear_bitmaps arr s n)
unfolding clear_bitmaps
clear_bitmaps-IsBytes arr s zero h = h
clear_bitmaps-IsBytes arr s (suc n) h =
    clear_bitmaps-IsBytes (bit_clear arr s) (u64 (s + 1)) n (bit_clear-IsBytes arr s h)

-- The loop sets the bits of its range and no other.
pub bit_get-set_used_bitmaps :
    (arr : Bytes) (s n j : ℕ)
    → IsBytes arr
    → s + n < 2 ^ 64
    → bit_get (set_used_bitmaps arr s n) j ≡ (if in_range s n j then 1 else bit_get arr j)
unfolding set_used_bitmaps
bit_get-set_used_bitmaps arr s zero j h w = ground arith
bit_get-set_used_bitmaps arr s (suc n) j h w =
    let e : u64 (s + 1) ≡ s + 1 = omega arith in
    rw e (
      bit_get-set_used_bitmaps (bit_set arr s) (s + 1) n j (bit_set-IsBytes arr s h) (omega arith)
      ∙ ground (arith, bit_get-bit_set arr s j h))

-- The loop clears the bits of its range and no other.
pub bit_get-clear_bitmaps :
    (arr : Bytes) (s n j : ℕ)
    → IsBytes arr
    → s + n < 2 ^ 64
    → bit_get (clear_bitmaps arr s n) j ≡ (if in_range s n j then 0 else bit_get arr j)
unfolding clear_bitmaps
bit_get-clear_bitmaps arr s zero j h w = ground arith
bit_get-clear_bitmaps arr s (suc n) j h w =
    let e : u64 (s + 1) ≡ s + 1 = omega arith in
    rw e (
      bit_get-clear_bitmaps (bit_clear arr s) (s + 1) n j (bit_clear-IsBytes arr s h) (omega arith)
      ∙ ground (arith, bit_get-bit_clear arr s j h))
