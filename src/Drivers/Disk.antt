-- ===== src/Drivers/Disk.antt =====
-- The commands that kernel/filesystem/disk.c gives to the disk.
use kernel_study.Base.{
  ℕ, zero, suc, ◌+◌, ◌*◌, ◌/◌, ◌%◌, ◌^◌, ◌<◌, ◌≡◌, refl, bit_and, bit_or, u8, List, [], ◌∷◌, ◌++◌,
  arith, ◌==◌, ==_iff, each, each_at, if◌then◌else◌, ap, ◌∙◌, true,
}
use kernel_study.Base.Bits.{bit_and_low}
use kernel_study.Drivers.{
  PortOp, outb, io_wait, wait_bsy, wait_drq, read_word, write_word, disk_command, words_from,
  sectors_from, disk_read, drive_register, lba_lo, lba_mid, lba_hi,
}

-- The last byte written to a port.
abbrev pub last_out : ℕ → List PortOp → ℕ → ℕ
last_out port [] before = before
last_out port (outb p v ∷ ops) before = last_out port ops (if p == port then v else before)
last_out port (_ ∷ ops) before = last_out port ops before

-- The buffer indices of the words that are read, in order.
abbrev pub words_read : List PortOp → List ℕ
words_read [] = []
words_read (read_word i ∷ ops) = i ∷ words_read ops
words_read (_ ∷ ops) = words_read ops

-- The `n` numbers from `i` on.
abbrev pub upto : ℕ → ℕ → List ℕ
upto i zero = []
upto i (suc n) = i ∷ upto (i + 1) n

drive_table : each (λ h. u8 (bit_or 0xE0 h) == 0xE0 + h) 16 ≡ true
unfolding each
drive_table = refl

-- The four address registers hold the 28 bits of the block's number, under the drive's bits, when
-- the command is given.
pub disk_command-lba :
    (lba sectors command : ℕ)
    → lba < 2 ^ 28
    → let ops = disk_command lba sectors command in
      let drive = last_out drive_register ops 0 in
      (drive / 2 ^ 4 ≡ 0xE)
      × (drive % 2 ^ 4 * 2 ^ 24
            + last_out lba_hi ops 0 * 2 ^ 16
            + last_out lba_mid ops 0 * 2 ^ 8
            + last_out lba_lo ops 0
          ≡ lba)
unfolding disk_command
disk_command-lba lba sectors command h =
    let low = bit_and_low 4 (lba / 2 ^ 24) (omega arith) in
    let high = bit_and (lba / 2 ^ 24) 0x0F in
    let drive : u8 (bit_or 0xE0 high) ≡ 0xE0 + high =
      (==_iff _ _).0
        (each_at (λ h. u8 (bit_or 0xE0 h) == 0xE0 + h) 16 drive_table high (omega (arith, low))) in
    (omega (arith, drive, low), omega (arith, drive, low, h))

words_read-append : (xs ys : List PortOp) → words_read (xs ++ ys) ≡ words_read xs ++ words_read ys
words_read-append [] ys = refl
words_read-append (outb p v ∷ xs) ys = words_read-append xs ys
words_read-append (io_wait ∷ xs) ys = words_read-append xs ys
words_read-append (wait_bsy ∷ xs) ys = words_read-append xs ys
words_read-append (wait_drq ∷ xs) ys = words_read-append xs ys
words_read-append (read_word i ∷ xs) ys = ap (λ (zs : List ℕ). i ∷ zs) (words_read-append xs ys)
words_read-append (write_word i ∷ xs) ys = words_read-append xs ys

upto-append : (i n m : ℕ) → upto i n ++ upto (i + n) m ≡ upto i (n + m)
upto-append i zero m =
    let a : i + 0 ≡ i = omega arith in let b : 0 + m ≡ m = omega arith in rw (a, b) refl
upto-append i (suc n) m =
    let a : i + suc n ≡ i + 1 + n = omega arith in
    let b : suc n + m ≡ suc (n + m) = omega arith in
    rw (a, b) (ap (λ (zs : List ℕ). i ∷ zs) (upto-append (i + 1) n m))

words_read-words_from :
    (i j rounds : ℕ) → words_read (words_from read_word i j rounds) ≡ upto (i * 256 + j) rounds
unfolding words_from
words_read-words_from i j zero = refl
words_read-words_from i j (suc rounds) =
    let e : i * 256 + j + 1 ≡ i * 256 + (j + 1) = omega arith in
    ap (λ (zs : List ℕ). (i * 256 + j) ∷ zs) (words_read-words_from i (j + 1) rounds ∙ rw e refl)

words_read-sectors_from :
    (i rounds : ℕ) → words_read (sectors_from read_word i rounds) ≡ upto (i * 256) (rounds * 256)
unfolding sectors_from
words_read-sectors_from i zero = refl
words_read-sectors_from i (suc rounds) =
    let e : (i + 1) * 256 ≡ i * 256 + 256 = omega arith in
    let f : suc rounds * 256 ≡ 256 + rounds * 256 = omega arith in
    let g : i * 256 + 0 ≡ i * 256 = omega arith in
    words_read-append (words_from read_word i 0 256) (sectors_from read_word (i + 1) rounds)
    ∙ rw (words_read-words_from i 0 256, words_read-sectors_from (i + 1) rounds, e, f, g)
        (upto-append (i * 256) 256 (rounds * 256))

-- `disk_read` fills the buffer from its start on without a gap: 256 words for each sector.
pub disk_read-words_read :
    (lba sectors : ℕ) → words_read (disk_read lba sectors) ≡ upto 0 (sectors * 256)
unfolding disk_read disk_command
disk_read-words_read lba sectors = words_read-sectors_from 0 sectors
