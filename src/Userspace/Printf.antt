-- ===== src/Userspace/Printf.antt =====
-- `printf` of userspace/libc/stdio/printf.c: what it writes to the standard output. A string is the list of
-- its characters, without the terminator; an `int` is its 32 bits.
pub mod Pieces
mod Tests
use mathlib.Core.Option
use kernel_study.Base.{
  ℕ, zero, suc, ◌+◌, ◌-◌, ◌*◌, ◌/◌, ◌^◌, Bool, ◌||◌, Option, none, some, List, [], ◌∷◌, ◌++◌, ◌==◌,
  leb, ltb, if◌then◌else◌, bit_and,
}
use kernel_study.Tty.{decimal_loop, hex_digit}

-- What a caller passes behind the format.
pub data Arg : Type 0 where
  int : ℕ → Arg
  str : List ℕ → Arg

-- `%i`: the loop is the one of `terminal_writeuint`, with its buffer of eleven characters; a negative number
-- does not enter it.
unfoldable pub print_int : ℕ → Option (List ℕ)
print_int n =
    let digits = decimal_loop 11 n [] in
    if n == 0 then some (b'0' ∷ []) else if leb (2 ^ 31) n then some [] else digits

-- `hex_digits_lower[digit]`
unfoldable pub hex_digit_lower : ℕ → ℕ
hex_digit_lower d = if ltb d 10 then b'0' + d else b'a' + (d - 10)

-- The loop of `%x` and `%X`, with `rounds` digits to go: the shift is `4 * (rounds - 1)`.
unfoldable pub print_nibbles : (ℕ → ℕ) → (rounds n : ℕ) → List ℕ
print_nibbles digit zero n = []
print_nibbles digit (suc rounds) n =
    digit (bit_and (n / 2 ^ (4 * rounds)) 0xF) ∷ print_nibbles digit rounds n

-- The cases of the switch. An argument of the wrong type has no result.
unfoldable pub conversion : (directive : ℕ) → Arg → Option (List ℕ)
conversion directive (int n) =
    if directive == b'i'
    then print_int n
    else if directive == b'x'
    then some (b'0' ∷ b'x' ∷ print_nibbles hex_digit_lower 8 n)
    else if directive == b'X'
    then some (b'0' ∷ b'x' ∷ print_nibbles hex_digit 8 n)
    else none
conversion directive (str t) = if directive == b's' then some t else none

unfoldable pub is_directive : ℕ → Bool
is_directive c = (c == b'i') || ((c == b'x') || ((c == b'X') || (c == b's')))

-- The next argument, converted.
unfoldable pub next_conversion : (directive : ℕ) → List Arg → Option (List ℕ)
next_conversion directive [] = none
next_conversion directive (a ∷ args) = conversion directive a

abbrev pub next_args : List Arg → List Arg
next_args [] = []
next_args (a ∷ args) = args

-- One output behind another.
abbrev pub then_write : Option (List ℕ) → Option (List ℕ) → Option (List ℕ)
then_write none rest = none
then_write (some out) none = none
then_write (some out) (some rest) = some (out ++ rest)

-- The loop of `printf`. A `%` that no directive follows is dropped.
unfoldable pub printf : List ℕ → List Arg → Option (List ℕ)
printf [] args = some []
printf (c ∷ []) args = some (if c == b'%' then [] else c ∷ [])
printf (c ∷ d ∷ s) args =
    let plain = printf (d ∷ s) args in
    let skipped = printf s (next_args args) in
    if c == b'%'
    then (if is_directive d then then_write (next_conversion d args) skipped else plain)
    else then_write (some (c ∷ [])) plain
