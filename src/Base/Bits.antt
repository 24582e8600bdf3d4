-- ===== src/Base/Bits.antt =====
-- `&` and `|` on binary fields, as arithmetic at every width.
use Prim.Native.Nat.{
  ℕ, zero, suc, ◌+◌, ◌-◌, ◌*◌, ◌/◌, ◌%◌, ◌^◌, ◌≤◌, ◌<◌, min, max, digits, bit_and, bit_or,
  bit_and-bitwise, bit_or-bitwise,
}
use mathlib.Core.Path.{◌≡◌, refl, ap, sym, ◌∙◌}
use native.Mathlib.Nat.{pow-suc}
use native.Mathlib.Omega.{arith}

-- Any two counts of digits that cover the first number give the same result.
module _ (rest : ℕ → ℕ) (op : ℕ → ℕ → ℕ) where
  same_digits :
      (a b : ℕ) (n : ℕ) → a ≤ n → (m : ℕ) → a ≤ m → digits rest op m a b ≡ digits rest op n a b
  same_digits zero b zero p zero q = refl
  same_digits zero b zero p (suc m) q = refl
  same_digits zero b (suc n) p zero q = refl
  same_digits zero b (suc n) p (suc m) q = refl
  same_digits (suc a) b zero p m q = absurd (omega arith)
  same_digits (suc a) b (suc n) p zero q = absurd (omega arith)
  same_digits (suc a) b (suc n) p (suc m) q =
      ap (λ (d : ℕ). d * 2 + op (suc a % 2) (b % 2))
        (same_digits (suc a / 2) (b / 2) n (omega arith) m (omega arith))

  lowest_digit :
      (a b : ℕ)
      → digits rest op (suc a) (suc a) b
        ≡ digits rest op (suc a / 2) (suc a / 2) (b / 2) * 2 + op (suc a % 2) (b % 2)
  lowest_digit a b =
      ap (λ (d : ℕ). d * 2 + op (suc a % 2) (b % 2))
        (same_digits (suc a / 2) (b / 2) (suc a / 2) (omega arith) a (omega arith))

and_digit : (a b : ℕ) → bit_and a b ≡ bit_and (a / 2) (b / 2) * 2 + min (a % 2) (b % 2)
and_digit zero b = rw (bit_and-bitwise, bit_and-bitwise) (omega arith)
and_digit (suc a) b =
    bit_and-bitwise (suc a) b
    ∙ lowest_digit (λ _. 0) min a b
    ∙ ap (λ (d : ℕ). d * 2 + min (suc a % 2) (b % 2)) (sym (bit_and-bitwise (suc a / 2) (b / 2)))

or_digit : (a b : ℕ) → bit_or a b ≡ bit_or (a / 2) (b / 2) * 2 + max (a % 2) (b % 2)
or_digit zero b = rw (bit_or-bitwise, bit_or-bitwise) (omega arith)
or_digit (suc a) b =
    bit_or-bitwise (suc a) b
    ∙ lowest_digit (λ c. c) max a b
    ∙ ap (λ (d : ℕ). d * 2 + max (suc a % 2) (b % 2)) (sym (bit_or-bitwise (suc a / 2) (b / 2)))

-- Halving a number whose low part has `suc k` digits.
module _ (k q r : ℕ) where
  half_field : (q * 2 ^ suc k + r) / 2 ≡ q * 2 ^ k + r / 2
  half_field = omega (arith, pow-suc 2 k, ap (λ (t : ℕ). q * t) (pow-suc 2 k))

  odd_field : (q * 2 ^ suc k + r) % 2 ≡ r % 2
  odd_field = omega (arith, pow-suc 2 k, ap (λ (t : ℕ). q * t) (pow-suc 2 k))

-- `&` and `|` act on the high part and on the low `k` digits apart.
pub bit_and_fields :
    (k q r m l : ℕ)
    → r < 2 ^ k
    → l < 2 ^ k
    → bit_and (q * 2 ^ k + r) (m * 2 ^ k + l) ≡ bit_and q m * 2 ^ k + bit_and r l
bit_and_fields zero q r m l hr hl =
    let er : r ≡ 0 = omega arith in
    let el : l ≡ 0 = omega arith in
    let e1 : q * 2 ^ 0 + 0 ≡ q = omega arith in
    let e2 : m * 2 ^ 0 + 0 ≡ m = omega arith in rw (er, el, e1, e2) (omega arith)
bit_and_fields (suc k) q r m l hr hl =
    let ih =
      bit_and_fields k q (r / 2) m (l / 2) (omega (arith, pow-suc 2 k))
        (omega (arith, pow-suc 2 k)) in
    rw (and_digit, half_field, half_field, odd_field, odd_field, ih)
      (omega (arith, and_digit r l, ap (λ (t : ℕ). bit_and q m * t) (pow-suc 2 k)))

pub bit_or_fields :
    (k q r m l : ℕ)
    → r < 2 ^ k
    → l < 2 ^ k
    → bit_or (q * 2 ^ k + r) (m * 2 ^ k + l) ≡ bit_or q m * 2 ^ k + bit_or r l
bit_or_fields zero q r m l hr hl =
    let er : r ≡ 0 = omega arith in
    let el : l ≡ 0 = omega arith in
    let e1 : q * 2 ^ 0 + 0 ≡ q = omega arith in
    let e2 : m * 2 ^ 0 + 0 ≡ m = omega arith in rw (er, el, e1, e2) (omega arith)
bit_or_fields (suc k) q r m l hr hl =
    let ih =
      bit_or_fields k q (r / 2) m (l / 2) (omega (arith, pow-suc 2 k))
        (omega (arith, pow-suc 2 k)) in
    rw (or_digit, half_field, half_field, odd_field, odd_field, ih)
      (omega (arith, or_digit r l, ap (λ (t : ℕ). bit_or q m * t) (pow-suc 2 k)))

pub bit_and_ones : (k a : ℕ) → a < 2 ^ k → bit_and a (2 ^ k - 1) ≡ a
bit_and_ones zero a h = let e : a ≡ 0 = omega arith in rw e
bit_and_ones (suc k) a h =
    let e : (2 ^ suc k - 1) / 2 ≡ 2 ^ k - 1 = omega (arith, pow-suc 2 k) in
    rw (and_digit, e, bit_and_ones k (a / 2) (omega (arith, pow-suc 2 k)))
      (omega (arith, pow-suc 2 k))

-- A second operand of zeros.
zero_laws : (a bound : ℕ) → a < bound → (bit_and a 0 ≡ 0) × (bit_or a 0 ≡ a)
zero_laws a zero h = absurd (omega (arith, h))
zero_laws zero (suc bound) h = (bit_and-bitwise 0 0, bit_or-bitwise 0 0)
zero_laws (suc a) (suc bound) h =
    let half = zero_laws (suc a / 2) bound (omega (arith, h)) in
    (omega (arith, and_digit (suc a) 0, half.0), omega (arith, or_digit (suc a) 0, half.1))

pub bit_and-zero : (a : ℕ) → bit_and a 0 ≡ 0
bit_and-zero a = (zero_laws a (suc a) (omega arith)).0

pub bit_or-zero : (a : ℕ) → bit_or a 0 ≡ a
bit_or-zero a = (zero_laws a (suc a) (omega arith)).1

pub zero-bit_or : (a : ℕ) → bit_or 0 a ≡ a
zero-bit_or a = bit_or-bitwise 0 a

pub zero-bit_and : (a : ℕ) → bit_and 0 a ≡ 0
zero-bit_and a = bit_and-bitwise 0 a

-- `x & mask` for a mask of `k` low ones.
pub bit_and_low : (k a : ℕ) → 0 < 2 ^ k → bit_and a (2 ^ k - 1) ≡ a % 2 ^ k
bit_and_low k a pos =
    let e : a / 2 ^ k * 2 ^ k + a % 2 ^ k ≡ a = grind arith in
    let f : 0 * 2 ^ k + (2 ^ k - 1) ≡ 2 ^ k - 1 = omega arith in
    let low : a % 2 ^ k < 2 ^ k = grind arith in
    let split = bit_and_fields k (a / 2 ^ k) (a % 2 ^ k) 0 (2 ^ k - 1) low (omega arith) in
    let split' = rw (e, f, bit_and-zero, bit_and_ones k (a % 2 ^ k) low) at split in
    omega (arith, split')

-- `x | y` for a multiple of `2 ^ k` and a number of `k` digits.
pub bit_or_low : (k q r : ℕ) → r < 2 ^ k → bit_or (q * 2 ^ k) r ≡ q * 2 ^ k + r
bit_or_low k q r h =
    let pos : 0 < 2 ^ k = omega arith in
    let split = bit_or_fields k q 0 0 r pos h in
    let e : q * 2 ^ k + 0 ≡ q * 2 ^ k = omega arith in
    let f : 0 * 2 ^ k + r ≡ r = omega arith in
    let split' = rw (e, f, bit_or-zero, zero-bit_or) at split in split'
