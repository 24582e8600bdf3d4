-- ===== src/Filesystem/Blocks/Tests.antt =====
-- A disk of bytes on which a file of 600 bytes is written.
use kernel_study.Base.{
  ℕ, ◌+◌, ◌*◌, ◌%◌, ◌<◌, ◌≤◌, ◌≡◌, ◌≢◌, arith, leb, ltb, ◌==◌, false, ◌&&◌, if◌then◌else◌, ◌⊎◌,
  some, none,
}
use kernel_study.Memory.Bitmap.{bit_get}
use kernel_study.Filesystem.Blocks.{
  Inode, init_fs, alloc_inode, write_inode, read_inode, write_inode_data, read_inode_data,
  write_loops,
}
use kernel_study.Filesystem.Blocks.Store.{byte_read, byte_write, byte_disk}
use kernel_study.Filesystem.Blocks.Layout.{IsInode, SameInode}
use kernel_study.Filesystem.Blocks.Records.{read_inode-write_inode}
use kernel_study.Filesystem.Blocks.Data.{free_below}
use kernel_study.Filesystem.Blocks.Written.{IsStored, write_inode_data-IsStored}
use kernel_study.Filesystem.Blocks.Files.{read_back, stored}
use kernel_study.Filesystem.Blocks.Fresh.{init_fs-byte_at, init_fs-free, alloc_inode_first}

-- A disk that is full of 7, formatted.
abbrev fresh : ℕ → ℕ
fresh = init_fs byte_read byte_write (λ a. 7)

abbrev file : Inode
file = record { type = 1; size = 600; sectors = 2; sector = λ i. 0 }

abbrev content : ℕ → ℕ
content i = (i + 3) % 256

file-IsInode : IsInode file
file-IsInode = record {
  type = omega arith;
  size = omega arith;
  sectors = omega arith;
  sector = λ i h. omega arith;
}

fresh-bytes : (i : ℕ) → byte_read 17 8 fresh i < 256
fresh-bytes i = ground (arith, init_fs-byte_at byte_disk (λ a. 7) (512 * 17 + i))

fresh-enough : 2 ≤ free_below (byte_read 17 8 fresh) 32768
fresh-enough = omega (arith, init_fs-free byte_disk (λ a. 7))

read_back_example :
    read_inode_data byte_read byte_write
      (read_inode byte_read byte_write 5 (stored byte_disk 0 file content 600 5 fresh))
      (λ k. 0)
      (stored byte_disk 0 file content 600 5 fresh)
      590
    ≡ (if ltb 590 600 then content 590 else 0)
read_back_example =
    read_back byte_disk 0 file content 600 5 fresh (λ k. 0) 590 fresh-bytes file-IsInode
      (omega arith) fresh-enough (omega arith) (omega arith)

write_inode_data-IsStored_example :
    IsStored byte_read
      (λ (d : ℕ → ℕ). d)
      file
      content
      600
      fresh
      (write_inode_data byte_read byte_write file content 600 fresh)
      (write_loops byte_read byte_write file content 600 fresh).sectors_count
write_inode_data-IsStored_example =
    write_inode_data-IsStored byte_disk file content 600 fresh fresh-bytes

read_inode-write_inode_example :
    SameInode
      (read_inode byte_read byte_write 12
        (write_inode byte_read byte_write 0 file 12 (λ a. a % 251)))
      (if 12 == 12 then file else read_inode byte_read byte_write 12 (λ a. a % 251))
read_inode-write_inode_example =
    read_inode-write_inode byte_read byte_write (λ d. d) byte_disk 0 file 12 12 (λ a. a % 251)
      (omega arith) (omega arith) file-IsInode

-- The first two inodes are taken.
abbrev two_used : ℕ → ℕ
two_used a = if a == 512 * 9 then 3 else 0

alloc_inode_first_example :
    ((alloc_inode byte_read byte_write two_used ≡ (none, two_used))
      × ((k : ℕ) → k < 32768 → bit_get (byte_read 9 8 two_used) k ≢ 0))
    ⊎ ((n : ℕ) × (d' : ℕ → ℕ) × (alloc_inode byte_read byte_write two_used ≡ (some n, d'))
        × (n < 32768)
        × (bit_get (byte_read 9 8 two_used) n ≡ 0)
        × ((k : ℕ) → k < n → bit_get (byte_read 9 8 two_used) k ≢ 0)
        × ((k : ℕ)
            → k < 32768
            → bit_get (byte_read 9 8 d') k
              ≡ (if n == k then 1 else bit_get (byte_read 9 8 two_used) k))
        × ((a : ℕ) → (leb (512 * 9) a && ltb a (512 * 17)) ≡ false → d' a ≡ two_used a))
alloc_inode_first_example = alloc_inode_first byte_disk two_used (λ i. ground arith)
