-- ===== src/Drivers.antt =====
-- The drivers that talk to a device through ports: kernel/pic.c, kernel/filesystem/disk.c and
-- drivers/keyboard.c. A driver is the list of its port operations in order. What the disk answers is
-- not in it: the waiting loops stand as operations of their own.
pub mod Disk
pub mod Keyboard
pub mod Debug
pub mod Identify
mod Tests
use kernel_study.Base.{
  ℕ, zero, suc, ◌+◌, ◌*◌, ◌/◌, ◌%◌, ◌^◌, bit_and, bit_or, u8, List, [], ◌∷◌, ◌++◌, Option, none,
  some, Bool, true, false, ◌==◌, leb, ltb, if◌then◌else◌, get_or,
}

-- One port operation. `read_word` stores a word at an index of the caller's buffer, `write_word` puts
-- the word at that index.
pub data PortOp : Type 0 where
  outb : (port value : ℕ) → PortOp
  io_wait wait_bsy wait_drq : PortOp
  read_word write_word : (index : ℕ) → PortOp

-- `pic_init`
unfoldable pub pic_init : (offset1 offset2 : ℕ) → List PortOp
pic_init offset1 offset2 =
    outb 0x20 0x11
    ∷ io_wait
    ∷ outb 0xA0 0x11
    ∷ io_wait
    ∷ outb 0x21 (u8 offset1)
    ∷ io_wait
    ∷ outb 0xA1 (u8 offset2)
    ∷ io_wait
    ∷ outb 0x21 4
    ∷ io_wait
    ∷ outb 0xA1 2
    ∷ io_wait
    ∷ outb 0x21 0x01
    ∷ io_wait
    ∷ outb 0xA1 0x01
    ∷ io_wait
    ∷ outb 0x21 0xFC
    ∷ outb 0xA1 0xFF
    ∷ []

-- `pic_send_eoi`
unfoldable pub pic_send_eoi : ℕ → List PortOp
pic_send_eoi irq = (if leb 8 irq then outb 0xA0 0x20 ∷ [] else []) ++ (outb 0x20 0x20 ∷ [])

-- The registers of the disk.
abbrev pub sector_count_register : ℕ
sector_count_register = 0x1F2

abbrev pub lba_lo : ℕ
lba_lo = 0x1F3

abbrev pub lba_mid : ℕ
lba_mid = 0x1F4

abbrev pub lba_hi : ℕ
lba_hi = 0x1F5

abbrev pub drive_register : ℕ
drive_register = 0x1F6

abbrev pub status_command_register : ℕ
status_command_register = 0x1F7

-- The start that `disk_read` and `disk_write` have in common, up to the command.
unfoldable pub disk_command : (lba sectors command : ℕ) → List PortOp
disk_command lba sectors command =
    wait_bsy
    ∷ outb drive_register (u8 (bit_or 0xE0 (bit_and (lba / 2 ^ 24) 0x0F)))
    ∷ outb sector_count_register (u8 sectors)
    ∷ outb lba_lo (u8 lba)
    ∷ outb lba_mid (u8 (lba / 2 ^ 8))
    ∷ outb lba_hi (u8 (lba / 2 ^ 16))
    ∷ outb status_command_register command
    ∷ wait_bsy
    ∷ wait_drq
    ∷ []

-- The inner loop over the words of a sector, with `rounds` rounds to go from `j` on.
unfoldable pub words_from : (ℕ → PortOp) → (i j rounds : ℕ) → List PortOp
words_from op i j zero = []
words_from op i j (suc rounds) = op (i * 256 + j) ∷ words_from op i (j + 1) rounds

-- The outer loop over the sectors.
unfoldable pub sectors_from : (ℕ → PortOp) → (i rounds : ℕ) → List PortOp
sectors_from op i zero = []
sectors_from op i (suc rounds) =
    wait_bsy ∷ wait_drq ∷ (words_from op i 0 256 ++ sectors_from op (i + 1) rounds)

-- `disk_read`
unfoldable pub disk_read : (lba sectors : ℕ) → List PortOp
disk_read lba sectors = disk_command lba sectors 0x20 ++ sectors_from read_word 0 sectors

-- `disk_write`
unfoldable pub disk_write : (lba sectors : ℕ) → List PortOp
disk_write lba sectors =
    disk_command lba sectors 0x30
    ++ (sectors_from write_word 0 sectors ++ (outb status_command_register 0xE7 ∷ wait_bsy ∷ []))

-- `scancodes`: 0 stands for a `NULL` entry.
abbrev pub scancodes : List ℕ
scancodes =
    0 ∷ 0 ∷ 0 ∷ 0 ∷ 0 ∷ 0 ∷ 0 ∷ 0 ∷ 0 ∷ 0 ∷ 0 ∷ 0 ∷ 0 ∷ 0 ∷ 0 ∷ 0 ∷ b'q' ∷ b'w' ∷ b'e' ∷ b'r' ∷ b't'
    ∷ b'y' ∷ b'u' ∷ b'i' ∷ b'o' ∷ b'p' ∷ 0 ∷ 0 ∷ 10 ∷ 0 ∷ b'a' ∷ b's' ∷ b'd' ∷ b'f' ∷ b'g' ∷ b'h'
    ∷ b'j' ∷ b'k' ∷ b'l' ∷ 0 ∷ 0 ∷ 0 ∷ 0 ∷ 0 ∷ b'z' ∷ b'x' ∷ b'c' ∷ b'v' ∷ b'b' ∷ b'n' ∷ b'm' ∷ b','
    ∷ 0 ∷ 0 ∷ 0 ∷ 0 ∷ 0 ∷ 32 ∷ []

-- What a scancode leads to: nothing, a new user task, a character for the terminal, or a read
-- through `NULL` or behind the table.
pub data Key : Type 0 where
  released starts_task : Key
  typed : ℕ → Key
  bad_read : Key

-- `keyboard_interrupt_handler`, up to the calls of `enqueue_task` and `write_tty_buffer`.
unfoldable pub keyboard_interrupt_handler : ℕ → Key
keyboard_interrupt_handler scancode =
    let c = get_or scancodes scancode 0 in
    if bit_and scancode 0x80 == 0
    then (if c == 0 then bad_read else (if c == b't' then starts_task else typed c))
    else released
