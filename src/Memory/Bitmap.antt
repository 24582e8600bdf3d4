-- ===== src/Memory/Bitmap.antt =====
-- The bit macros of kernel/include/memory.h over an array of bytes: the representation of the page
-- bitmap of kernel/memory.c, and the laws that let its clients read it as one number per page.
use kernel_study.Base.{
  ℕ, ◌-◌, ◌/◌, ◌%◌, ◌^◌, ◌<◌, bit_and, bit_or, ◌≡◌, refl, Bool, true, arith, ◌==◌, ==_iff,
  if◌then◌else◌, each, each_at, u8, update,
}

-- The bytes from the address of an array on.
abbrev pub Bytes : Type 0
Bytes = ℕ → ℕ

-- `BIT_SET(arr, i)`
unfoldable pub bit_set : Bytes → ℕ → Bytes
bit_set arr i = update arr (i / 8) (u8 (bit_or (arr (i / 8)) (2 ^ (i % 8))))

-- `BIT_CLEAR(arr, i)`. The complement is taken at 32 bits.
unfoldable pub bit_clear : Bytes → ℕ → Bytes
bit_clear arr i = update arr (i / 8) (u8 (bit_and (arr (i / 8)) (2 ^ 32 - 1 - 2 ^ (i % 8))))

-- `BIT_GET(arr, i)`
unfoldable pub bit_get : Bytes → ℕ → ℕ
bit_get arr i = bit_and (arr (i / 8) / 2 ^ (i % 8)) 1

abbrev pub IsBytes : Bytes → Type 0
IsBytes arr = (i : ℕ) → arr i < 256

-- The three macros inside one byte.
abbrev set_law : ℕ → ℕ → ℕ → Bool
set_law b k l =
    bit_and (u8 (bit_or b (2 ^ k)) / 2 ^ l) 1 == (if k == l then 1 else bit_and (b / 2 ^ l) 1)

abbrev clear_law : ℕ → ℕ → ℕ → Bool
clear_law b k l =
    bit_and (u8 (bit_and b (2 ^ 32 - 1 - 2 ^ k)) / 2 ^ l) 1
    == (if k == l then 0 else bit_and (b / 2 ^ l) 1)

abbrev table : (ℕ → ℕ → ℕ → Bool) → Bool
table law = each (λ b. each (λ k. each (law b k) 8) 8) 256

table_sound :
    (law : ℕ → ℕ → ℕ → Bool) (b k l : ℕ)
    → table law ≡ true
    → b < 256
    → k < 8
    → l < 8
    → law b k l ≡ true
table_sound law b k l h hb hk hl =
    each_at (law b k) 8
      (each_at (λ k. each (law b k) 8) 8 (each_at (λ b. each (λ k. each (law b k) 8) 8) 256 h b hb)
        k hk)
      l hl

set_table : table set_law ≡ true
unfolding each
set_table = refl

clear_table : table clear_law ≡ true
unfolding each
clear_table = refl

pub bit_set-IsBytes : (arr : Bytes) (i : ℕ) → IsBytes arr → IsBytes (bit_set arr i)
unfolding bit_set update
bit_set-IsBytes arr i h j = ground (arith, h j)

pub bit_clear-IsBytes : (arr : Bytes) (i : ℕ) → IsBytes arr → IsBytes (bit_clear arr i)
unfolding bit_clear update
bit_clear-IsBytes arr i h j = ground (arith, h j)

-- Reading a bit after `BIT_SET`: the written bit is 1 and every other bit is as it was.
pub bit_get-bit_set :
    (arr : Bytes) (i j : ℕ)
    → IsBytes arr
    → bit_get (bit_set arr i) j ≡ (if i == j then 1 else bit_get arr j)
unfolding bit_get bit_set update
bit_get-bit_set arr i j h = ground (
  arith,
  (==_iff _ _).0 (
      table_sound set_law (arr (i / 8)) (i % 8) (j % 8) set_table (h (i / 8)) (omega arith)
        (omega arith)),
)

-- Reading a bit after `BIT_CLEAR`: the written bit is 0 and every other bit is as it was.
pub bit_get-bit_clear :
    (arr : Bytes) (i j : ℕ)
    → IsBytes arr
    → bit_get (bit_clear arr i) j ≡ (if i == j then 0 else bit_get arr j)
unfolding bit_get bit_clear update
bit_get-bit_clear arr i j h = ground (
  arith,
  (==_iff _ _).0 (
      table_sound clear_law (arr (i / 8)) (i % 8) (j % 8) clear_table (h (i / 8)) (omega arith)
        (omega arith)),
)
