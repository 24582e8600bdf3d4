-- ===== src/Userspace/Printf/Tests.antt =====
-- `printf("n=%i %x%s", 42, 0xBEEF, "!")` and `%i` of -1.
use kernel_study.Base.{ℕ, ◌≡◌, some, List, [], ◌∷◌, arith}
use kernel_study.Userspace.Printf.{int, str, conversion, printf}
use kernel_study.Userspace.Printf.Pieces.{
  Piece, text, number, hex_lower, string, IsSigned, IsOutput, printf-format_of, print_int_lem,
}

abbrev some_pieces : List Piece
some_pieces = text b'n' ∷ number 42 ∷ text b' ' ∷ hex_lower 0xBEEF ∷ string (b'!' ∷ []) ∷ []

printf-format_of_example :
    (out : List ℕ) × (printf
        (b'n' ∷ b'%' ∷ b'i' ∷ b' ' ∷ b'%' ∷ b'x' ∷ b'%' ∷ b's' ∷ [])
        (int 42 ∷ int 0xBEEF ∷ str (b'!' ∷ []) ∷ [])
      ≡ some out)
    × IsOutput some_pieces out
printf-format_of_example =
    printf-format_of some_pieces
      (ground arith, (omega arith, (ground arith, (omega arith, (tt, tt)))))

print_int_lem_example :
    (out : List ℕ) × (conversion b'i' (int 0xFFFFFFFF) ≡ some out) × IsSigned 0xFFFFFFFF out
print_int_lem_example = print_int_lem 0xFFFFFFFF (omega arith)
