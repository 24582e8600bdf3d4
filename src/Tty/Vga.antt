-- ===== src/Tty/Vga.antt =====
-- The text screen of kernel/tty.c: `terminal_initialize` and the functions that write one cell of it.
use kernel_study.Base.{
  ℕ, zero, suc, ◌+◌, ◌*◌, ◌^◌, ◌≡◌, refl, false, ◌&&◌, leb, ltb, if◌then◌else◌, bit_or, u8, u16,
  u32, update, arith, ◌∙◌,
}
use kernel_study.Tty.{Cursor, vga_width, vga_height}

abbrev pub vga_color_black : ℕ
vga_color_black = 0

abbrev pub vga_color_light_grey : ℕ
vga_color_light_grey = 7

unfoldable pub vga_entry_color : (fg bg : ℕ) → ℕ
vga_entry_color fg bg = u8 (bit_or fg (bg * 2 ^ 4))

unfoldable pub vga_entry : (uc color : ℕ) → ℕ
vga_entry uc color = u16 (bit_or (u8 uc) (color * 2 ^ 8))

pub record Vga : Type 0 where
  pub cursor : Cursor
  pub terminal_color : ℕ
  pub terminal_buffer : ℕ → ℕ

unfoldable pub terminal_setcolor : (color : ℕ) → Vga → Vga
terminal_setcolor color s = record s { terminal_color = u8 color }

unfoldable pub terminal_putentryat : (c color x y : ℕ) → Vga → Vga
terminal_putentryat c color x y s = record s {
  terminal_buffer = update s.terminal_buffer (u32 (y * vga_width + x)) (vga_entry c color);
}

-- The inner loop of `terminal_initialize`, with `rounds` columns to go from `x` on.
unfoldable pub blank_columns : (color y x rounds : ℕ) → (ℕ → ℕ) → ℕ → ℕ
blank_columns color y x zero buffer = buffer
blank_columns color y x (suc rounds) buffer =
    blank_columns color y (x + 1) rounds (update buffer (y * vga_width + x) (vga_entry 32 color))

-- The outer loop, with `rounds` rows to go from `y` on.
unfoldable pub blank_rows : (color y rounds : ℕ) → (ℕ → ℕ) → ℕ → ℕ
blank_rows color y zero buffer = buffer
blank_rows color y (suc rounds) buffer =
    blank_rows color (y + 1) rounds (blank_columns color y 0 vga_width buffer)

unfoldable pub terminal_initialize : Vga → Vga
terminal_initialize s =
    let color = vga_entry_color vga_color_light_grey vga_color_black in
    record {
      cursor = record { row = 0; column = 0 };
      terminal_color = color;
      terminal_buffer = blank_rows color 0 vga_height s.terminal_buffer;
    }

blank_columns_lem :
    (color y x rounds : ℕ) (buffer : ℕ → ℕ) (i : ℕ)
    → blank_columns color y x rounds buffer i
      ≡ (if leb (y * 80 + x) i && ltb i (y * 80 + x + rounds) then vga_entry 32 color else buffer i)
unfolding blank_columns update
blank_columns_lem color y x zero buffer i =
    let out : (leb (y * 80 + x) i && ltb i (y * 80 + x + 0)) ≡ false = ground arith in rw out refl
blank_columns_lem color y x (suc rounds) buffer i =
    blank_columns_lem color y (x + 1) rounds _ i ∙ ground arith

blank_rows_lem :
    (color y rounds : ℕ) (buffer : ℕ → ℕ) (i : ℕ)
    → blank_rows color y rounds buffer i
      ≡ (if leb (y * 80) i && ltb i ((y + rounds) * 80) then vga_entry 32 color else buffer i)
unfolding blank_rows
blank_rows_lem color y zero buffer i =
    let out : (leb (y * 80) i && ltb i ((y + 0) * 80)) ≡ false = ground arith in rw out refl
blank_rows_lem color y (suc rounds) buffer i =
    blank_rows_lem color (y + 1) rounds _ i
    ∙ ground (arith, blank_columns_lem color y 0 80 buffer i)

-- `terminal_initialize` fills the 2000 cells of the screen with spaces, light grey on black, and no word behind them, and
-- takes the cursor to the first cell.
pub terminal_initialize_blank :
    (s : Vga)
    → ((i : ℕ)
        → (terminal_initialize s).terminal_buffer i
          ≡ (if ltb i 2000 then 0x0720 else s.terminal_buffer i))
      × ((terminal_initialize s).cursor ≡ record { row = 0; column = 0 })
unfolding terminal_initialize vga_entry vga_entry_color
terminal_initialize_blank s = (λ i. blank_rows_lem 7 0 25 s.terminal_buffer i ∙ ground arith, refl)
