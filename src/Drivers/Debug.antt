-- ===== src/Drivers/Debug.antt =====
-- The characters that the `debug_` functions of kernel/include/misc.h write to port 0xE9.
use mathlib.Core.Option
use kernel_study.Base.{
  ℕ, zero, suc, ◌+◌, ◌-◌, ◌*◌, ◌/◌, ◌%◌, ◌^◌, ◌<◌, ◌≤◌, ◌≡◌, refl, List, [], ◌∷◌, Option, none,
  some, arith, ◌==◌, leb, if◌then◌else◌, length, ◌∙◌, Bool-cases, inl, inr, u32,
}
use kernel_study.Tty.{decimal_loop, hex_loop}
use kernel_study.Tty.Digits.{read_decimal, AreDigits, decimal_loop-Printed, read_hex, nibble}

-- `debug_write` of the string at `str`; `none` is a loop that is still running.
unfoldable pub debug_write : (fuel : ℕ) → (mem : ℕ → ℕ) → (str : ℕ) → Option (List ℕ)
debug_write zero mem str = none
debug_write (suc fuel) mem str =
    let rest = Option.map (λ (cs : List ℕ). mem str ∷ cs) (debug_write fuel mem (u32 (str + 1))) in
    if mem str == 0 then some [] else rest

-- The first loop of `debug_int`: `buffer` has the last character first.
unfoldable pub magnitude_loop : (fuel magnitude : ℕ) → (buffer : List ℕ) → Option (List ℕ)
magnitude_loop zero magnitude buffer = none
magnitude_loop (suc fuel) magnitude buffer =
    let longer = (b'0' + magnitude % 10) ∷ buffer in
    let rest = magnitude_loop fuel (magnitude / 10) longer in
    if magnitude / 10 == 0 then some longer else rest

-- `debug_int` of a 32-bit word, which is negative from 2 ^ 31 on.
unfoldable pub debug_int : (value : ℕ) → Option (List ℕ)
debug_int value =
    if leb (2 ^ 31) value
    then Option.map (λ (cs : List ℕ). b'-' ∷ cs)
        (magnitude_loop 10 (u32 (2 ^ 32 - (value + 1) + 1)) [])
    else magnitude_loop 10 value []

-- The loops of `debug_hex32` and `debug_hex64` are the one of `terminal_writehex`.
unfoldable pub debug_hex32 : (value : ℕ) → List ℕ
debug_hex32 value = b'0' ∷ b'x' ∷ hex_loop 8 value

unfoldable pub debug_hex64 : (value : ℕ) → List ℕ
debug_hex64 value = b'0' ∷ b'x' ∷ hex_loop 16 value

-- The loop that tests after the division is the loop of `terminal_writeuint`, one digit on.
magnitude_loop-decimal_loop :
    (fuel magnitude : ℕ) (buffer : List ℕ)
    → magnitude_loop fuel magnitude buffer
      ≡ decimal_loop fuel (magnitude / 10) ((b'0' + magnitude % 10) ∷ buffer)
unfolding magnitude_loop decimal_loop
magnitude_loop-decimal_loop zero magnitude buffer = refl
magnitude_loop-decimal_loop (suc fuel) magnitude buffer =
    rw (magnitude_loop-decimal_loop fuel (magnitude / 10) ((b'0' + magnitude % 10) ∷ buffer)) refl

magnitude_loop_lem :
    (magnitude : ℕ)
    → magnitude < 2 ^ 32
    → (out : List ℕ) × (magnitude_loop 10 magnitude [] ≡ some out)
      × (read_decimal 0 out ≡ magnitude)
      × AreDigits out
      × (length out ≤ 10)
magnitude_loop_lem magnitude h =
    let run =
      decimal_loop-Printed 9 10 (magnitude / 10) ((b'0' + magnitude % 10) ∷ []) (omega (arith, h))
        (omega arith) (omega arith, omega arith, tt) in
    let back : magnitude / 10 * 10 + (b'0' + magnitude % 10 - b'0') ≡ magnitude = omega arith in
    (
      run.0,
      magnitude_loop-decimal_loop 10 magnitude [] ∙ run.1,
      run.2.reads ∙ back,
      run.2.digits,
      omega (arith, run.2.short),
    )

-- `debug_int` ends for every 32-bit word and writes the number's magnitude in at most ten decimal digits, as many as its
-- buffer holds, behind a minus sign if the word is negative.
pub debug_int_lem :
    (value : ℕ)
    → value < 2 ^ 32
    → (out : List ℕ) × (debug_int value
        ≡ (if leb (2 ^ 31) value then some (b'-' ∷ out) else some out))
      × (read_decimal 0 out ≡ (if leb (2 ^ 31) value then 2 ^ 32 - value else value))
      × AreDigits out
      × (length out ≤ 10)
unfolding debug_int
debug_int_lem value h = elim (Bool-cases (leb (2 ^ 31) value)) [
  | inl negative ↦
      let m : u32 (2 ^ 32 - (value + 1) + 1) ≡ 2 ^ 32 - value = ground (arith, negative, h) in
      let run = magnitude_loop_lem (2 ^ 32 - value) (ground (arith, negative, h)) in
      (run.0, rw (negative, m, run.1) refl, rw negative run.2, run.3, run.4)
  | inr positive ↦
      let run = magnitude_loop_lem value h in
      (run.0, rw positive run.1, rw positive run.2, run.3, run.4)
]

-- `debug_hex64` writes `0x` and sixteen digits, which read back as the value.
pub debug_hex64_lem :
    (value : ℕ)
    → value < 2 ^ 64
    → (out : List ℕ) × (debug_hex64 value ≡ b'0' ∷ b'x' ∷ out)
      × (length out ≡ 16)
      × (read_hex 0 out ≡ value)
unfolding debug_hex64 hex_loop
debug_hex64_lem value h = (hex_loop 16 value, refl, refl, simp nibble (omega arith))
