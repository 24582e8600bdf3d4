-- ===== src/Graphics.antt =====
-- Drawing on the frame buffer: kernel/graphics/framebuffer.c and kernel/graphics/font.c.
pub mod Video
use kernel_study.Base.{
  ℕ, zero, suc, ◌+◌, ◌-◌, ◌*◌, ◌/◌, ◌%◌, ◌^◌, ◌≡◌, arith, bit_and, List, [], ◌∷◌, ◌++◌, Option,
  none, some, ◌&&◌, ◌||◌, ◌==◌, leb, ltb, if◌then◌else◌, u32, update,
}

abbrev pub framebuffer_addr : ℕ
framebuffer_addr = 0xE0000000

-- `framebuffer_width`, `framebuffer_height` and `framebuffer_pitch`.
pub record Framebuffer : Type 0 where
  pub width : ℕ
  pub height : ℕ
  pub pitch : ℕ

-- `&row[x]`
unfoldable pub pixel_addr : Framebuffer → (x y : ℕ) → ℕ
pixel_addr fb x y = u32 (u32 (framebuffer_addr + u32 (y * fb.pitch)) + 4 * x)

-- `put_pixel`, on the words of memory. The comparisons with 0 are of unsigned numbers.
unfoldable pub put_pixel : Framebuffer → (x y color : ℕ) → (ℕ → ℕ) → ℕ → ℕ
put_pixel fb x y color mem =
    if (leb fb.width x && ltb x 0) || (leb fb.height y && ltb y 0)
    then mem
    else update mem (pixel_addr fb x y) color

-- No coordinates are turned away: `put_pixel` writes the word wherever it lies.
pub put_pixel_lem :
    (fb : Framebuffer) (x y color : ℕ) (mem : ℕ → ℕ)
    → put_pixel fb x y color mem ≡ update mem (pixel_addr fb x y) color
unfolding put_pixel
put_pixel_lem fb x y color mem = ground arith

-- `struct psf2`, the fields that `put_char` reads, and the bytes of the font from its start on.
pub record Psf2 : Type 0 where
  pub headersize : ℕ
  pub charsize : ℕ
  pub height : ℕ
  pub width : ℕ
  pub bytes : ℕ → ℕ

-- A call of `put_pixel`.
pub record Pixel : Type 0 where
  pub x : ℕ
  pub y : ℕ
  pub color : ℕ

-- The bit of a glyph at the line `i` and the column `j`.
unfoldable pub glyph_bit : Psf2 → (char_code i j : ℕ) → ℕ
glyph_bit font char_code i j =
    let glyph = font.headersize + char_code * font.charsize in
    let bytes_per_line = (font.width + 7) / 8 in
    bit_and (font.bytes (glyph + (i * bytes_per_line + j / 8)) / 2 ^ (7 - j % 8)) 1

-- The inner loop of `put_char`, with `rounds` columns to go from `j` on.
unfoldable pub columns_from : Psf2 → (char_code color x y i j rounds : ℕ) → List Pixel
columns_from font char_code color x y i j zero = []
columns_from font char_code color x y i j (suc rounds) =
    let rest = columns_from font char_code color (u32 (x + 1)) y i (j + 1) rounds in
    if glyph_bit font char_code i j == 0
    then rest
    else record { x = x; y = y; color = color } ∷ rest

-- The outer loop, with `rounds` lines to go from `i` on.
unfoldable pub lines_from : Psf2 → (char_code color x y i rounds : ℕ) → List Pixel
lines_from font char_code color x y i zero = []
lines_from font char_code color x y i (suc rounds) =
    columns_from font char_code color x y i 0 font.width
    ++ lines_from font char_code color x (u32 (y + 1)) (i + 1) rounds

-- `put_char`: the pixels in the order in which they are put. The counters are bytes, so that a loop
-- to 256 or more never ends, which `none` stands for.
unfoldable pub put_char : Psf2 → (x y color char_code : ℕ) → Option (List Pixel)
put_char font x y color char_code =
    if leb 256 font.height || (ltb 0 font.height && leb 256 font.width)
    then none
    else some (lines_from font char_code color x y 0 font.height)
