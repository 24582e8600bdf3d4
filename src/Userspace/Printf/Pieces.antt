-- ===== src/Userspace/Printf/Pieces.antt =====
-- A format as a list of pieces, and what the output of `printf` has to be, in words of its own.
use kernel_study.Base.{
  ◌⊎◌, inl, inr, ℕ, zero, suc, ◌+◌, ◌-◌, ◌*◌, ◌/◌, ◌%◌, ◌^◌, ◌<◌, ◌≤◌, ◌≡◌, ◌≢◌, refl, true, false,
  some, List, [], ◌∷◌, ◌++◌, ◌==◌, leb, ltb, if◌then◌else◌, bit_and, arith, Bool-cases, ap, ◌∙◌,
  length,
}
use kernel_study.Base.Bits.{bit_and_low}
use kernel_study.Tty.{decimal, hex_digit}
use kernel_study.Tty.Digits.{IsDecimal, decimal_lem}
use kernel_study.Userspace.Printf.{
  Arg, int, str, print_int, hex_digit_lower, print_nibbles, conversion, is_directive,
  next_conversion, then_write, printf,
}

-- A character that stands for itself, a number in decimal or in hexadecimal digits of either case, or a
-- string.
pub data Piece : Type 0 where
  text : ℕ → Piece
  number : ℕ → Piece
  hex_lower : ℕ → Piece
  hex_upper : ℕ → Piece
  string : List ℕ → Piece

-- The format that a programmer writes for the pieces, and the arguments behind it.
abbrev pub format_of : List Piece → List ℕ
format_of [] = []
format_of (text c ∷ ps) = c ∷ format_of ps
format_of (number n ∷ ps) = b'%' ∷ b'i' ∷ format_of ps
format_of (hex_lower n ∷ ps) = b'%' ∷ b'x' ∷ format_of ps
format_of (hex_upper n ∷ ps) = b'%' ∷ b'X' ∷ format_of ps
format_of (string t ∷ ps) = b'%' ∷ b's' ∷ format_of ps

abbrev pub args_of : List Piece → List Arg
args_of [] = []
args_of (text c ∷ ps) = args_of ps
args_of (number n ∷ ps) = int n ∷ args_of ps
args_of (hex_lower n ∷ ps) = int n ∷ args_of ps
args_of (hex_upper n ∷ ps) = int n ∷ args_of ps
args_of (string t ∷ ps) = str t ∷ args_of ps

-- No text is a `%`, and the numbers have 32 bits.
abbrev pub Fits : Piece → Type 0
Fits (text c) = c ≢ b'%'
Fits (number n) = n < 2 ^ 32
Fits (hex_lower n) = n < 2 ^ 32
Fits (hex_upper n) = n < 2 ^ 32
Fits (string t) = Unit {0}

abbrev pub AllFit : List Piece → Type 0
AllFit [] = Unit {0}
AllFit (p ∷ ps) = Fits p × AllFit ps

-- Hexadecimal characters, with the letters from `letter` on, and their value.
abbrev pub AreHex : (letter : ℕ) → List ℕ → Type 0
AreHex letter [] = Unit {0}
AreHex letter (c ∷ cs) =
    (((b'0' ≤ c) × (c ≤ b'9')) ⊎ ((letter ≤ c) × (c ≤ letter + 5))) × AreHex letter cs

abbrev pub hex_value : (letter c : ℕ) → ℕ
hex_value letter c = if ltb b'9' c then c - letter + 10 else c - b'0'

abbrev pub read_hex : (letter acc : ℕ) → List ℕ → ℕ
read_hex letter acc [] = acc
read_hex letter acc (c ∷ cs) = read_hex letter (acc * 16 + hex_value letter c) cs

-- `0x` and eight digits.
abbrev pub IsHex : (letter n : ℕ) → List ℕ → Type 0
IsHex letter n out =
    (digits : List ℕ) × (out ≡ b'0' ∷ b'x' ∷ digits)
    × (length digits ≡ 8)
    × AreHex letter digits
    × (read_hex letter 0 digits ≡ n)

-- A negative number leaves nothing.
abbrev pub IsSigned : ℕ → List ℕ → Type 0
IsSigned n out = ((2 ^ 31 ≤ n) × (out ≡ [])) ⊎ ((n < 2 ^ 31) × IsDecimal n out)

abbrev pub IsPrinted : Piece → List ℕ → Type 0
IsPrinted (text c) out = out ≡ c ∷ []
IsPrinted (number n) out = IsSigned n out
IsPrinted (hex_lower n) out = IsHex b'a' n out
IsPrinted (hex_upper n) out = IsHex b'A' n out
IsPrinted (string t) out = out ≡ t

-- The outputs of the pieces, one behind another.
abbrev pub IsOutput : List Piece → List ℕ → Type 0
IsOutput [] out = out ≡ []
IsOutput (p ∷ ps) out =
    (one : List ℕ) × (others : List ℕ) × (out ≡ one ++ others)
    × IsPrinted p one
    × IsOutput ps others

same_decimal : (n : ℕ) → leb (2 ^ 31) n ≡ false → print_int n ≡ decimal n
unfolding print_int decimal
same_decimal n small = rw small refl

-- `%i` ends for every argument of 32 bits. A number from 0 on is written in decimal digits that read back as
-- the number, a single `0` for 0 and without a zero in front otherwise; of a negative number nothing is
-- written.
pub print_int_lem :
    (n : ℕ) → n < 2 ^ 32 → (out : List ℕ) × (conversion b'i' (int n) ≡ some out) × IsSigned n out
unfolding conversion print_int
print_int_lem n h = elim (Bool-cases (leb (2 ^ 31) n)) [
  | inl negative ↦
      let some_number : (n == 0) ≡ false = ground (arith, negative) in
      ([], rw (some_number, negative) refl, inl (ground (arith, negative), refl))
  | inr small ↦
      let d = decimal_lem n h in (d.0, same_decimal n small ∙ d.1, inr (ground (arith, small), d.2))
]

-- A table of sixteen digits.
abbrev AreDigitsOf : (letter : ℕ) → (ℕ → ℕ) → Type 0
AreDigitsOf letter digit =
    (d : ℕ)
    → d < 16
    → (hex_value letter (digit d) ≡ d)
      × (((b'0' ≤ digit d) × (digit d ≤ b'9')) ⊎ ((letter ≤ digit d) × (digit d ≤ letter + 5)))

lower_digits : AreDigitsOf b'a' hex_digit_lower
unfolding hex_digit_lower
lower_digits d h = elim (Bool-cases (ltb d 10)) [
  | inl small ↦ (ground arith, inl (ground arith, ground arith))
  | inr large ↦ (ground arith, inr (ground arith, ground arith))
]

upper_digits : AreDigitsOf b'A' hex_digit
unfolding hex_digit
upper_digits d h = elim (Bool-cases (ltb d 10)) [
  | inl small ↦ (ground arith, inl (ground arith, ground arith))
  | inr large ↦ (ground arith, inr (ground arith, ground arith))
]

module _ (letter : ℕ) (digit : ℕ → ℕ) (table : AreDigitsOf letter digit) where
  nibble : (v : ℕ) → hex_value letter (digit (bit_and v 15)) ≡ v % 16
  nibble v = rw (bit_and_low 4 v (omega arith)) (table (v % 16) (omega arith)).0

  print_nibbles-AreHex :
      (rounds n : ℕ)
      → AreHex letter (print_nibbles digit rounds n)
        × (length (print_nibbles digit rounds n) ≡ rounds)
  unfolding print_nibbles
  print_nibbles-AreHex zero n = (tt, refl)
  print_nibbles-AreHex (suc rounds) n =
      let rest = print_nibbles-AreHex rounds n in
      let low = bit_and_low 4 (n / 2 ^ (4 * rounds)) (omega arith) in
      ((rw low (table (n / 2 ^ (4 * rounds) % 16) (omega arith)).1, rest.0), omega (arith, rest.1))

  read_nibbles : (n : ℕ) → n < 2 ^ 32 → read_hex letter 0 (print_nibbles digit 8 n) ≡ n
  unfolding print_nibbles
  read_nibbles n h = simp nibble (omega arith)

  nibbles-IsHex : (n : ℕ) → n < 2 ^ 32 → IsHex letter n (b'0' ∷ b'x' ∷ print_nibbles digit 8 n)
  nibbles-IsHex n h =
      let digits = print_nibbles-AreHex 8 n in
      (print_nibbles digit 8 n, refl, digits.1, digits.0, read_nibbles n h)

-- A character that is no `%` is written before the rest.
printf-text :
    (c : ℕ) (s : List ℕ) (args : List Arg)
    → c ≢ b'%'
    → printf (c ∷ s) args ≡ then_write (some (c ∷ [])) (printf s args)
unfolding printf
printf-text c [] args ne = let e : (c == b'%') ≡ false = ground (arith, ne) in rw e refl
printf-text c (d ∷ s) args ne = let e : (c == b'%') ≡ false = ground (arith, ne) in rw e refl

-- A directive writes its argument before the rest.
printf-directive :
    (d : ℕ) (a : Arg) (out : List ℕ) (s : List ℕ) (args : List Arg)
    → is_directive d ≡ true
    → conversion d a ≡ some out
    → printf (b'%' ∷ d ∷ s) (a ∷ args) ≡ then_write (some out) (printf s args)
unfolding printf next_conversion
printf-directive d a out s args e f = rw (e, f) refl

-- Each piece is written as it has to be.
printf-piece :
    (p : Piece) (ps : List Piece)
    → Fits p
    → (one : List ℕ) × (printf (format_of (p ∷ ps)) (args_of (p ∷ ps))
        ≡ then_write (some one) (printf (format_of ps) (args_of ps)))
      × IsPrinted p one
unfolding conversion is_directive
printf-piece (text c) ps ne = (c ∷ [], printf-text c (format_of ps) (args_of ps) ne, refl)
printf-piece (number n) ps h =
    let d = print_int_lem n h in
    (d.0, printf-directive b'i' (int n) d.0 (format_of ps) (args_of ps) refl d.1, d.2)
printf-piece (hex_lower n) ps h =
    let out = b'0' ∷ b'x' ∷ print_nibbles hex_digit_lower 8 n in
    (
      out,
      printf-directive b'x' (int n) out (format_of ps) (args_of ps) refl refl,
      nibbles-IsHex b'a' hex_digit_lower lower_digits n h,
    )
printf-piece (hex_upper n) ps h =
    let out = b'0' ∷ b'x' ∷ print_nibbles hex_digit 8 n in
    (
      out,
      printf-directive b'X' (int n) out (format_of ps) (args_of ps) refl refl,
      nibbles-IsHex b'A' hex_digit upper_digits n h,
    )
printf-piece (string t) ps h =
    (t, printf-directive b's' (str t) t (format_of ps) (args_of ps) refl refl, refl)

-- `printf` of a format made of characters other than `%` and of the directives `%i`, `%x`, `%X` and `%s`, with a
-- 32-bit number or a string behind it for each directive, ends and writes, in the order of the format,
-- each character as it is, for `%i` the decimal digits of a number from 0 on and nothing for a negative one,
-- for `%x` and `%X` the characters `0x` and eight hexadecimal digits, in lower or upper case, that read back
-- as the number, and for `%s` the string.
pub printf-format_of :
    (ps : List Piece)
    → AllFit ps
    → (out : List ℕ) × (printf (format_of ps) (args_of ps) ≡ some out) × IsOutput ps out
unfolding printf
printf-format_of [] w = ([], refl, refl)
printf-format_of (p ∷ ps) w =
    let one = printf-piece p ps w.0 in
    let rest = printf-format_of ps w.1 in
    (
      one.0 ++ rest.0,
      one.1 ∙ ap (then_write (some one.0)) rest.1,
      (one.0, rest.0, refl, one.2, rest.2),
    )
