-- ===== src/Filesystem.antt =====
-- The file system's bitmap of inodes (`alloc_inode_num` of kernel/filesystem/fs.c) and the numbers in
-- the headers of the boot module's archive (`tar_parse_octal` of kernel/include/misc.h).
pub mod Inodes
pub mod Octal
pub mod Blocks
pub mod Vfs
mod Tests
use mathlib.Core.Option
use kernel_study.Base.{
  ℕ, zero, suc, ◌+◌, ◌-◌, ◌*◌, ◌/◌, ◌%◌, ◌^◌, bit_and, bit_or, u8, u16, u64, Option, none, some,
  Bool, ◌==◌, ltb, ◌||◌, if◌then◌else◌, update,
}

-- The inner loop of `alloc_inode_num` over the bits of a byte, with `rounds` rounds to go from `j`
-- on: the first bit that is 0.
unfoldable pub free_bit_from : (byte j rounds : ℕ) → Option ℕ
free_bit_from byte j zero = none
free_bit_from byte j (suc rounds) =
    if bit_and (byte / 2 ^ j) 1 == 0 then some j else free_bit_from byte (j + 1) rounds

-- The byte `i` and what was found in it, or else what the later bytes give.
abbrev pub found_or : ℕ → Option ℕ → Option (ℕ × ℕ) → Option (ℕ × ℕ)
found_or i (some j) rest = some (i, j)
found_or i none rest = rest

-- The outer loop over the bytes of the bitmap: the byte and the bit.
unfoldable pub free_inode_from : (ℕ → ℕ) → (i rounds : ℕ) → Option (ℕ × ℕ)
free_inode_from inode_bmap i zero = none
free_inode_from inode_bmap i (suc rounds) =
    found_or i (free_bit_from (inode_bmap i) 0 8) (free_inode_from inode_bmap (i + 1) rounds)

-- `alloc_inode_num` on the bitmap that the disk holds: the number, and the bitmap that is written
-- back; `none` is -1.
unfoldable pub alloc_inode_num : (ℕ → ℕ) → Option (ℕ × (ℕ → ℕ))
alloc_inode_num inode_bmap =
    Option.map (λ (i, j). (i * 8 + j, update inode_bmap i (u8 (bit_or (inode_bmap i) (2 ^ j)))))
      (free_inode_from inode_bmap 0 4096)

-- The loop of `tar_parse_octal` over the leading spaces, with `rounds` characters left of the field.
unfoldable pub skip_spaces : (ℕ → ℕ) → (i rounds : ℕ) → ℕ
skip_spaces field i zero = i
skip_spaces field i (suc rounds) =
    let rest = skip_spaces field (i + 1) rounds in if field i == 32 then rest else i

-- The loop over the digits, which ends at any other character.
unfoldable pub octal_from : (ℕ → ℕ) → (i rounds value : ℕ) → ℕ
octal_from field i zero value = value
octal_from field i (suc rounds) value =
    let c = field i in
    let rest = octal_from field (i + 1) rounds (bit_or (u64 (value * 2 ^ 3)) (c - b'0')) in
    if (c == 0 || c == 32) || (ltb c b'0' || ltb b'7' c) then value else rest

-- `tar_parse_octal`
unfoldable pub tar_parse_octal : (ℕ → ℕ) → (length : ℕ) → ℕ
tar_parse_octal field length =
    let i = skip_spaces field 0 length in octal_from field i (length - i) 0
