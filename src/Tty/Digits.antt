-- ===== src/Tty/Digits.antt =====
-- The numbers that kernel/tty.c puts on the terminal, read back.
use kernel_study.Base.{
  ℕ, zero, suc, ◌+◌, ◌-◌, ◌*◌, ◌/◌, ◌%◌, ◌^◌, ◌<◌, ◌≤◌, ◌≡◌, refl, List, [], ◌∷◌, some, arith, ◌==◌,
  ltb, if◌then◌else◌, bit_and, length, ap, ◌∙◌, Bool-cases, false, ◌⊎◌, inl, inr,
}
use kernel_study.Base.Bits.{bit_and_low}
use native.Mathlib.Nat.{pow-suc}
use kernel_study.Tty.{decimal_loop, decimal, hex_digit, hex_loop, hexadecimal}

-- The value of decimal characters, the first one the highest.
abbrev pub read_decimal : ℕ → List ℕ → ℕ
read_decimal acc [] = acc
read_decimal acc (c ∷ cs) = read_decimal (acc * 10 + (c - b'0')) cs

abbrev pub AreDigits : List ℕ → Type 0
AreDigits [] = Unit {0}
AreDigits (c ∷ cs) = (b'0' ≤ c) × (c ≤ b'9') × AreDigits cs

abbrev pub leading : List ℕ → ℕ
leading [] = 0
leading (c ∷ cs) = c

-- The decimal digits of a number, without a zero in front.
abbrev pub IsDecimal : ℕ → List ℕ → Type 0
IsDecimal n out =
    AreDigits out
    × (read_decimal 0 out ≡ n)
    × (((n ≡ 0) × (out ≡ b'0' ∷ [])) ⊎ (b'0' < leading out))

-- The result of the loop at `value` with `buffer` behind it.
pub record Printed (k value : ℕ) (buffer out : List ℕ) : Type 0 where
  pub reads : read_decimal 0 out ≡ read_decimal value buffer
  pub digits : AreDigits out
  pub short : length out ≤ length buffer + k
  pub leads : ((value ≡ 0) × (out ≡ buffer)) ⊎ (b'0' < leading out)

pub decimal_loop-Printed :
    (k fuel value : ℕ) (buffer : List ℕ)
    → value < 10 ^ k
    → k < fuel
    → AreDigits buffer
    → (out : List ℕ) × (decimal_loop fuel value buffer ≡ some out) × Printed k value buffer out
unfolding decimal_loop
decimal_loop-Printed k zero value buffer small h d = absurd (omega arith)
decimal_loop-Printed zero (suc fuel) value buffer small h d =
    let e : value ≡ 0 = omega arith in
    rw e (
      buffer,
      refl,
      record { reads = refl; digits = d; short = omega arith; leads = inl (refl, refl) },
    )
decimal_loop-Printed (suc k) (suc fuel) value buffer small h d = elim (Bool-cases (value == 0)) [
  | inl done ↦
      let e : value ≡ 0 = ground arith in
      rw e (
        buffer,
        refl,
        record { reads = refl; digits = d; short = omega arith; leads = inl (refl, refl) },
      )
  | inr more ↦
      let rest =
        decimal_loop-Printed k fuel (value / 10) ((b'0' + value % 10) ∷ buffer)
          (tenth k value small) (omega arith) (omega arith, omega arith, d) in
      let back : value / 10 * 10 + (b'0' + value % 10 - b'0') ≡ value = omega arith in
      (
        rest.0,
        rw more rest.1,
        record {
          reads = rest.2.reads ∙ ap (λ (v : ℕ). read_decimal v buffer) back;
          digits = rest.2.digits;
          short = omega (arith, rest.2.short);
          leads = inr (elim rest.2.leads [
            | inl h ↦ rw h.1 (omega (arith, h.0, positive value more))
            | inr h ↦ h
          ]);
        },
      )
]
  where
    positive : (value : ℕ) → (value == 0) ≡ false → 0 < value
    positive value more = ground arith

    tenth : (k value : ℕ) → value < 10 ^ suc k → value / 10 < 10 ^ k
    tenth k value small = omega (arith, pow-suc 10 k)

-- `terminal_writeuint` ends for every 32-bit value, puts one to ten decimal digits, so that its
-- buffer of eleven characters is large enough; they read back as the value and start with a zero
-- only for 0.
pub decimal_lem :
    (value : ℕ)
    → value < 2 ^ 32
    → (out : List ℕ) × (decimal value ≡ some out) × IsDecimal value out × (length out ≤ 10)
unfolding decimal
decimal_lem value h = elim (Bool-cases (value == 0)) [
  | inl none_left ↦
      let e : value ≡ 0 = ground arith in
      (
        b'0' ∷ [],
        rw none_left refl,
        ((omega arith, omega arith, tt), ground arith, inl (e, refl)),
        omega arith,
      )
  | inr some_left ↦
      let run = decimal_loop-Printed 10 11 value [] (omega arith) (omega arith) tt in
      (
        run.0,
        rw some_left run.1,
        (
          run.2.digits,
          run.2.reads,
          elim run.2.leads [ inl z ↦ absurd (ground (arith, z.0)) | inr z ↦ inr z ],
        ),
        omega (arith, run.2.short),
      )
]

-- The value of one hexadecimal character.
pub read_hex_digit : ℕ → ℕ
read_hex_digit c = if ltb c b'A' then c - b'0' else c - b'A' + 10

abbrev pub read_hex : ℕ → List ℕ → ℕ
read_hex acc [] = acc
read_hex acc (c ∷ cs) = read_hex (acc * 16 + read_hex_digit c) cs

read_hex_digit-hex_digit : (d : ℕ) → d < 16 → read_hex_digit (hex_digit d) ≡ d
unfolding hex_digit read_hex_digit
read_hex_digit-hex_digit d h = ground arith

pub nibble : (v : ℕ) → read_hex_digit (hex_digit (bit_and v 15)) ≡ v % 16
nibble v = rw (bit_and_low 4 v (omega arith)) (read_hex_digit-hex_digit (v % 16) (omega arith))

-- `terminal_writehex` puts `0x` and eight digits, which read back as the value.
pub hexadecimal_lem :
    (value : ℕ)
    → value < 2 ^ 32
    → (out : List ℕ) × (hexadecimal value ≡ b'0' ∷ b'x' ∷ out)
      × (length out ≡ 8)
      × (read_hex 0 out ≡ value)
unfolding hexadecimal hex_loop
hexadecimal_lem value h = (hex_loop 8 value, refl, refl, simp nibble (omega arith))
