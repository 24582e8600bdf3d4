-- ===== src/Tty/Screen.antt =====
-- Where `terminal_putchar` of kernel/tty.c puts the cursor.
use kernel_study.Base.{ℕ, ◌+◌, ◌*◌, ◌%◌, ◌^◌, ◌<◌, ◌≤◌, ◌≡◌, ◌≢◌, List, [], ◌∷◌, arith, length}
use kernel_study.Tty.{Cursor, vga_width, vga_height, newline, terminal_putchar, terminal_write}

-- The cursor is on the screen.
pub record OnScreen (t : Cursor) : Type 0 where
  pub row : t.row < vga_height
  pub column : t.column < vga_width

-- A character other than a newline keeps the cursor on the screen: it moves to the next cell in
-- reading order, and from the last cell to the first.
pub terminal_putchar-OnScreen :
    (c : ℕ) (t : Cursor)
    → OnScreen t
    → c ≢ newline
    → let t' = (terminal_putchar c t).0 in
      OnScreen t'
      × (t'.row * vga_width + t'.column
          ≡ (t.row * vga_width + t.column + 1) % (vga_height * vga_width))
unfolding terminal_putchar
terminal_putchar-OnScreen c t v ne = ground (arith, v.row, v.column)

-- The column stays on the screen whatever is written.
terminal_putchar-column :
    (c : ℕ) (t : Cursor) → t.column < vga_width → (terminal_putchar c t).0.column < vga_width
unfolding terminal_putchar
terminal_putchar-column c t h = ground arith

row_below :
    (c : ℕ) (t : Cursor)
    → vga_height ≤ t.row
    → t.row + 1 < 2 ^ 32
    → (t.row ≤ (terminal_putchar c t).0.row) × ((terminal_putchar c t).0.row ≤ t.row + 1)
unfolding terminal_putchar
row_below c t low word = ground arith

-- A newline does not wrap the row, and only the row that has just become the height is taken back
-- to the top: below the screen no text brings the cursor back.
pub terminal_write_below :
    (cs : List ℕ) (t : Cursor)
    → vga_height ≤ t.row
    → t.row + length cs < 2 ^ 32
    → t.row ≤ (terminal_write cs t).0.row
unfolding terminal_write
terminal_write_below [] t low word = omega arith
terminal_write_below (c ∷ cs) t low word =
    let one = row_below c t low (omega arith) in
    let rest =
      terminal_write_below cs (terminal_putchar c t).0 (omega (arith, one)) (omega (arith, one)) in
    omega (arith, one, rest)
