-- ===== src/Tty.antt =====
-- kernel/tty.c: the terminal's cursor, its numbers, and the buffer of typed characters.
pub mod Input
pub mod Digits
pub mod Screen
pub mod Vga
mod Tests
use kernel_study.Base.{
  ℕ, zero, suc, ◌+◌, ◌-◌, ◌*◌, ◌/◌, ◌%◌, ◌^◌, Bool, true, false, not, ◌&&◌, ◌||◌, Option, none,
  some, List, [], ◌∷◌, ◌++◌, ◌==◌, ltb, leb, if◌then◌else◌, bit_and, bit_or, update, u32,
}

abbrev pub vga_width : ℕ
vga_width = 80

abbrev pub vga_height : ℕ
vga_height = 25

abbrev pub stdin_buffer_size : ℕ
stdin_buffer_size = 4096

abbrev pub echo_flag : ℕ
echo_flag = 2

abbrev pub newline : ℕ
newline = 10

-- `terminal_row` and `terminal_column`.
pub record Cursor : Type 0 where
  pub row : ℕ
  pub column : ℕ

-- A call of `put_char`.
pub record Draw : Type 0 where
  pub x : ℕ
  pub y : ℕ
  pub color : ℕ
  pub char : ℕ

-- `terminal_putchar`: the cursor afterwards, and what is drawn.
unfoldable pub terminal_putchar : ℕ → Cursor → Cursor × List Draw
terminal_putchar c t =
    if c == newline then (record t { row = u32 (t.row + 1); column = 0 }, []) else (
      (if t.column + 1 == vga_width
          then record {
            row = if u32 (t.row + 1) == vga_height then 0 else u32 (t.row + 1);
            column = 0;
          }
          else record t { column = t.column + 1 }),
      record { x = t.column * 11; y = t.row * 20; color = 0xAAAAAA; char = c } ∷ [],
    )

-- `terminal_write`
unfoldable pub terminal_write : List ℕ → Cursor → Cursor × List Draw
terminal_write [] t = (t, [])
terminal_write (c ∷ cs) t =
    let (t', drawn) = terminal_putchar c t in
    let (t'', more) = terminal_write cs t' in (t'', drawn ++ more)

-- The loop of `terminal_writeuint` that fills `buffer`, the last character first. `none` is a loop
-- still running.
unfoldable pub decimal_loop : ℕ → ℕ → List ℕ → Option (List ℕ)
decimal_loop zero value buffer = none
decimal_loop (suc fuel) value buffer =
    let rest = decimal_loop fuel (value / 10) ((b'0' + value % 10) ∷ buffer) in
    if value == 0 then some buffer else rest

-- The characters that `terminal_writeuint` puts. A 32-bit value takes ten rounds at most, and one
-- more ends the loop.
unfoldable pub decimal : ℕ → Option (List ℕ)
decimal value =
    let digits = decimal_loop 11 value [] in if value == 0 then some (b'0' ∷ []) else digits

-- `hex_digits[digit]`
unfoldable pub hex_digit : ℕ → ℕ
hex_digit d = if ltb d 10 then b'0' + d else b'A' + (d - 10)

-- The loop of `terminal_writehex`, with `rounds` digits to go: the shift is `4 * (rounds - 1)`.
unfoldable pub hex_loop : ℕ → ℕ → List ℕ
hex_loop zero value = []
hex_loop (suc rounds) value =
    hex_digit (bit_and (value / 2 ^ (4 * rounds)) 0xF) ∷ hex_loop rounds value

-- The characters that `terminal_writehex` puts.
unfoldable pub hexadecimal : ℕ → List ℕ
hexadecimal value = b'0' ∷ b'x' ∷ hex_loop 8 value

-- `stdin_buffer` with `buffer_head` and `buffer_tail`.
pub record Stdin : Type 0 where
  pub buffer : ℕ → ℕ
  pub head : ℕ
  pub tail : ℕ

-- The part of `write_tty_buffer` that stores the character `c` while a task waits.
unfoldable pub store_char : ℕ → Stdin → Stdin
store_char c b =
    let b1 =
      if ltb b.tail stdin_buffer_size
      then record b { buffer = update b.buffer b.tail c; tail = b.tail + 1 }
      else b in
    if leb stdin_buffer_size b1.tail && (b1.head == b1.tail)
    then record b1 { buffer = update b1.buffer 0 c; tail = 1 }
    else b1

-- The terminal device: its cursor, its input and its `flags`.
pub record Tty : Type 0 where
  pub cursor : Cursor
  pub stdin : Stdin
  pub flags : ℕ

-- What a typed character does: the device afterwards, what is drawn, and whether
-- `wake_stdin_task` is called.
pub record Typed : Type 0 where
  pub tty : Tty
  pub drawn : List Draw
  pub wakes : Bool

-- `write_tty_buffer`. `awaiting` says that `awaiting_stdin` is not `NULL`.
unfoldable pub write_tty_buffer : (awaiting : Bool) → ℕ → Tty → Typed
write_tty_buffer awaiting c t =
    let (cursor, drawn) =
      if bit_and t.flags echo_flag == 0 then (t.cursor, []) else terminal_write (c ∷ []) t.cursor in
    let echoed = record t { cursor = cursor } in
    if awaiting
    then record {
      tty = record echoed { stdin = store_char c t.stdin };
      drawn = drawn;
      wakes = c == newline;
    }
    else record { tty = echoed; drawn = drawn; wakes = false }

-- The loop of `stdin_buffer_has_line` with `rounds` rounds to go from `i` on.
unfoldable pub has_line_from : (ℕ → ℕ) → ℕ → ℕ → Bool
has_line_from buffer i zero = false
has_line_from buffer i (suc rounds) =
    let rest = has_line_from buffer (i + 1) rounds in if buffer i == newline then true else rest

-- `stdin_buffer_has_line`, whose 1 is `true` and whose -1 is `false`.
unfoldable pub stdin_buffer_has_line : Stdin → Bool
stdin_buffer_has_line b = has_line_from b.buffer b.head (b.tail - b.head)

-- `tty_read`: the bytes that go to the caller's buffer, and the input afterwards.
unfoldable pub tty_read : ℕ → Stdin → List ℕ × Stdin
tty_read zero b = ([], b)
tty_read (suc len) b =
    let head = if leb stdin_buffer_size b.head then 0 else b.head in
    let (out, b') = tty_read len (record b { head = head + 1 }) in
    if b.head == b.tail then ([], b) else (b.buffer head ∷ out, b')

-- `tty_ioctl` on `flags`; any other request changes nothing.
unfoldable pub tty_ioctl : ℕ → ℕ → Tty → Tty
tty_ioctl request arg t =
    if request == 1
    then record t { flags = bit_or t.flags arg }
    else (if request == 2 then record t { flags = bit_and t.flags (2 ^ 32 - 1 - arg) } else t)
