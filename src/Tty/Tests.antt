-- ===== src/Tty/Tests.antt =====
-- Runs of the terminal's input and output.
use kernel_study.Base.{ℕ, ◌+◌, inr, ◌≡◌, refl, false, [], ◌∷◌, some, arith}
use kernel_study.Tty.{
  Stdin, newline, store_char, stdin_buffer_has_line, tty_read, decimal, decimal_loop,
}
use kernel_study.Tty.Input.{
  pending, IsBuffer, tty_read-take, tty_read-store_char, has_line_after_wrap,
}

-- A buffer that holds the letters from `a` on, read up to `head` and written up to `tail`.
abbrev letters : ℕ → ℕ → Stdin
letters head tail = record { buffer = λ i. b'a' + i; head = head; tail = tail }

-- Read to the last index, with two characters at the front again.
wrapped-IsBuffer : IsBuffer (letters 4096 2)
wrapped-IsBuffer = record { order = inr (refl, omega arith); within = omega arith }

tty_read-take_example :
    let (out, b') = tty_read 1 (letters 4096 2) in
    (out ≡ b'a' ∷ []) × (pending b' ≡ b'b' ∷ []) × IsBuffer b'
tty_read-take_example = tty_read-take 1 (letters 4096 2) wrapped-IsBuffer

tty_read-store_char_example :
    (tty_read 3 (store_char newline (letters 4096 2))).0 ≡ b'a' ∷ b'b' ∷ newline ∷ []
tty_read-store_char_example =
    tty_read-store_char newline (letters 4096 2) wrapped-IsBuffer
      (inr (refl, λ e. omega (arith, e)))

has_line_after_wrap_example :
    (pending (store_char newline (letters 4096 4096)) ≡ newline ∷ [])
    × (stdin_buffer_has_line (store_char newline (letters 4096 4096)) ≡ false)
has_line_after_wrap_example = has_line_after_wrap newline (letters 4096 4096) refl refl

-- The number 0 and a number with a zero inside.
decimal_runs : (decimal 0 ≡ some (b'0' ∷ [])) × (decimal 305 ≡ some (b'3' ∷ b'0' ∷ b'5' ∷ []))
unfolding decimal decimal_loop
decimal_runs = (refl, refl)
