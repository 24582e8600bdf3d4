-- ===== src/Filesystem/Octal.antt =====
-- The value that `tar_parse_octal` gives to a field.
use kernel_study.Base.{
  ℕ, zero, suc, ◌+◌, ◌-◌, ◌*◌, ◌^◌, ◌<◌, ◌≤◌, ◌≡◌, ◌≢◌, refl, ◌⊎◌, bit_or, u64, arith, true, ◌∙◌,
  each, each_at, leb,
}
use kernel_study.Base.Bits.{bit_or_low}
use kernel_study.Filesystem.{skip_spaces, octal_from, tar_parse_octal}
use native.Mathlib.Nat.{pow-suc}

-- The value of the `n` digits from `i` on, the first one the highest, behind those of `value`.
abbrev pub octal_value : (ℕ → ℕ) → (i n value : ℕ) → ℕ
octal_value field i zero value = value
octal_value field i (suc n) value = octal_value field (i + 1) n (value * 8 + (field i - b'0'))

-- A field of `s` spaces, then `n` digits, then a space or a 0, unless the digits fill it. At most 21
-- digits fit 64 bits.
pub record IsField (field : ℕ → ℕ) (size s n : ℕ) : Type 0 where
  pub spaces : (k : ℕ) → k < s → field k ≡ 32
  pub low : (k : ℕ) → k < n → b'0' ≤ field (s + k)
  pub high : (k : ℕ) → k < n → field (s + k) ≤ b'7'
  pub some_digit : 0 < n
  pub inside : s + n ≤ size
  pub ends : (s + n ≡ size) ⊎ ((field (s + n) ≡ 0) ⊎ (field (s + n) ≡ 32))
  pub short : n ≤ 21

skip_spaces_lem :
    (field : ℕ → ℕ) (i s rounds : ℕ)
    → ((k : ℕ) → k < s → field (i + k) ≡ 32)
    → field (i + s) ≢ 32
    → s < rounds
    → skip_spaces field i rounds ≡ i + s
unfolding skip_spaces
skip_spaces_lem field i s zero spaces stop h = absurd (omega (arith, h))
skip_spaces_lem field i zero (suc rounds) spaces stop h =
    let e : i + 0 ≡ i = omega arith in let f : field i ≢ 32 = rw e at stop in ground (arith, f)
skip_spaces_lem field i (suc s) (suc rounds) spaces stop h =
    let e : i + 1 + s ≡ i + suc s = omega arith in
    let here : field (i + 0) ≡ 32 = spaces 0 (omega arith) in
    let z : i + 0 ≡ i = omega arith in
    let here' : field i ≡ 32 = rw z at here in
    let ih =
      skip_spaces_lem field (i + 1) s rounds
        (λ k p.
          let g : i + 1 + k ≡ i + suc k = omega arith in rw g (spaces (suc k) (omega (arith, p))))
        (rw e stop) (omega (arith, h)) in
    ground (arith, here', ih)

digit_step :
    (value c : ℕ)
    → value * 8 + 7 < 2 ^ 64
    → b'0' ≤ c
    → c ≤ b'7'
    → bit_or (u64 (value * 2 ^ 3)) (c - b'0') ≡ value * 8 + (c - b'0')
digit_step value c small low high =
    let e : u64 (value * 2 ^ 3) ≡ value * 2 ^ 3 = omega (arith, small) in
    rw e (bit_or_low 3 value (c - b'0') (omega (arith, low, high)) ∙ omega arith)

pow_table : each (λ m. leb (8 ^ m) (2 ^ 63)) 22 ≡ true
unfolding each
pow_table = refl

octal_pow : (m : ℕ) → m < 22 → 8 ^ m ≤ 2 ^ 63
octal_pow m h = let t = each_at (λ m. leb (8 ^ m) (2 ^ 63)) 22 pow_table m h in ground (arith, t)

-- The loop with `m` digits behind it at most.
octal_from_lem :
    (field : ℕ → ℕ) (i n rounds value m : ℕ)
    → ((k : ℕ) → k < n → b'0' ≤ field (i + k))
    → ((k : ℕ) → k < n → field (i + k) ≤ b'7')
    → n ≤ rounds
    → (n ≡ rounds) ⊎ ((field (i + n) ≡ 0) ⊎ (field (i + n) ≡ 32))
    → m + n ≤ 21
    → value < 8 ^ m
    → octal_from field i rounds value ≡ octal_value field i n value
unfolding octal_from
octal_from_lem field i zero zero value m low high h ends short small = refl
octal_from_lem field i zero (suc rounds) value m low high h ends short small =
    let e : i + 0 ≡ i = omega arith in
    let ends' : (0 ≡ suc rounds) ⊎ ((field i ≡ 0) ⊎ (field i ≡ 32)) = rw e at ends in
    ground (arith, ends')
octal_from_lem field i (suc n) zero value m low high h ends short small = absurd (omega (arith, h))
octal_from_lem field i (suc n) (suc rounds) value m low high h ends short small =
    let z : i + 0 ≡ i = omega arith in
    let at_low : b'0' ≤ field i = rw z at (low 0 (omega arith)) in
    let at_high : field i ≤ b'7' = rw z at (high 0 (omega arith)) in
    let shift : (k : ℕ) → field (i + 1 + k) ≡ field (i + suc k) =
      λ k. let g : i + 1 + k ≡ i + suc k = omega arith in rw g refl in
    let bound : value * 8 + 7 < 2 ^ 64 =
      omega (arith, pow-suc 8 m, octal_pow (suc m) (omega (arith, short)), small) in
    let step = digit_step value (field i) bound at_low at_high in
    let ih =
      octal_from_lem field (i + 1) n rounds (value * 8 + (field i - b'0')) (suc m)
        (λ k p. omega (arith, low (suc k) (omega (arith, p)), shift k))
        (λ k p. omega (arith, high (suc k) (omega (arith, p)), shift k)) (omega (arith, h))
        (ground (arith, ends, shift n)) (omega (arith, short))
        (omega (arith, pow-suc 8 m, small, at_low, at_high)) in
    rw step (ground (arith, ih, at_low, at_high))

-- `tar_parse_octal` gives a well-formed field the value of its octal digits.
pub tar_parse_octal_lem :
    (field : ℕ → ℕ) (size s n : ℕ)
    → IsField field size s n
    → tar_parse_octal field size ≡ octal_value field s n 0
unfolding tar_parse_octal
tar_parse_octal_lem field size s n v =
    let z : s + 0 ≡ s = omega arith in
    let first : b'0' ≤ field s = rw z at (v.low 0 v.some_digit) in
    let skip : skip_spaces field 0 size ≡ 0 + s =
      skip_spaces_lem field 0 s size (λ k p. let g : 0 + k ≡ k = omega arith in rw g (v.spaces k p))
        (let g : 0 + s ≡ s = omega arith in rw g (omega (arith, first)))
        (omega (arith, v.some_digit, v.inside)) in
    let skip' : skip_spaces field 0 size ≡ s = omega (arith, skip) in
    rw skip' (
      octal_from_lem field s n (size - s) 0 0 v.low v.high (omega (arith, v.inside))
        (ground (arith, v.ends)) (omega (arith, v.short)) (omega arith))
