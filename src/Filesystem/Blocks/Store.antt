-- ===== src/Filesystem/Blocks/Store.antt =====
-- What the file system needs of the disk, and a disk of bytes that has it.
use kernel_study.Base.{
  ℕ, ◌+◌, ◌-◌, ◌*◌, ◌<◌, ◌≤◌, ◌^◌, arith, ◌≡◌, refl, ◌&&◌, leb, ltb, if◌then◌else◌,
}

-- A disk of `size` sectors, that has at least the sectors of the file system and no more than the 28 bits of a
-- sector number that the controller is sent can name. A byte of the disk is at 512 times its sector. A
-- transfer of fewer than 256 sectors within the disk moves the bytes from `lba` on, in order, and a write
-- changes no other byte. Nothing is said of any other transfer.
pub record IsDisk {D : Type 0} (disk_read : (lba sectors : ℕ) → D → ℕ → ℕ)
    (disk_write : (lba sectors : ℕ) → (ℕ → ℕ) → D → D) (byte_at : D → ℕ → ℕ) : Type 0 where
  pub size : ℕ
  pub large : 32833 ≤ size
  pub addressable : size ≤ 2 ^ 28
  pub read :
      (lba sectors : ℕ) (d : D) (i : ℕ)
      → i < 512 * sectors
      → sectors < 256
      → lba + sectors ≤ size
      → disk_read lba sectors d i ≡ byte_at d (512 * lba + i)
  pub written :
      (lba sectors : ℕ) (buffer : ℕ → ℕ) (d : D) (a : ℕ)
      → sectors < 256
      → lba + sectors ≤ size
      → byte_at (disk_write lba sectors buffer d) a ≡ (
          if leb (512 * lba) a && ltb a (512 * lba + 512 * sectors)
          then buffer (a - 512 * lba)
          else byte_at d a)

abbrev pub byte_read : (lba sectors : ℕ) → (ℕ → ℕ) → ℕ → ℕ
byte_read lba sectors d i = d (512 * lba + i)

abbrev pub byte_write : (lba sectors : ℕ) → (ℕ → ℕ) → (ℕ → ℕ) → ℕ → ℕ
byte_write lba sectors buffer d a =
    if leb (512 * lba) a && ltb a (512 * lba + 512 * sectors) then buffer (a - 512 * lba) else d a

abbrev pub byte_disk : IsDisk byte_read byte_write (λ d. d)
byte_disk = record {
  size = 2 ^ 28;
  large = omega arith;
  addressable = omega arith;
  read = λ lba n d i h few fits. refl;
  written = λ lba n buffer d a few fits. refl;
}
