-- ===== src/Filesystem/Blocks.antt =====
-- What kernel/filesystem/fs.c keeps on the disk: the bitmaps of inodes and of data sectors, the inodes
-- and the data. `D` is the state of the disk; `disk_read` and `disk_write` move whole sectors and are
-- arguments. A buffer is a function of the index. What `kmalloc` returns for a buffer is taken to be
-- apart from all else.
pub mod Store
pub mod Layout
pub mod Records
pub mod Data
pub mod Written
pub mod Files
pub mod Fresh
mod Tests
use mathlib.Core.Option
use kernel_study.Base.{
  ℕ, zero, suc, ◌+◌, ◌-◌, ◌*◌, ◌/◌, ◌%◌, ◌^◌, Bool, ◌&&◌, ◌==◌, leb, ltb, if◌then◌else◌, bit_and,
  bit_or, u8, u16, u32, Option, none, some, update,
}
use kernel_study.Filesystem.{alloc_inode_num}

abbrev pub iblock_offset : ℕ
iblock_offset = 25

abbrev pub data_offset : ℕ
data_offset = 65

-- `inode_t`. The array `sector` has 14 entries; an index past it is memory behind the inode.
pub record Inode : Type 0 where
  pub type : ℕ
  pub size : ℕ
  pub sectors : ℕ
  pub sector : ℕ → ℕ

-- `sizeof(inode_t)`
abbrev pub inode_size : ℕ
inode_size = 64

-- The bytes of an inode in memory; `padding` is what the bytes between the fields hold.
unfoldable pub inode_bytes : (padding : ℕ) → Inode → ℕ → ℕ
inode_bytes padding inode k =
    if k == 0
    then inode.type
    else if k == 2
    then inode.size % 256
    else if k == 3
    then inode.size / 256
    else if k == 4
    then inode.sectors % 256
    else if k == 5
    then inode.sectors / 256
    else if leb 8 k
    then inode.sector ((k - 8) / 4) / 256 ^ ((k - 8) % 4) % 256
    else padding

-- The inode that 64 bytes in memory are.
unfoldable pub inode_of_bytes : (ℕ → ℕ) → Inode
inode_of_bytes b = record {
  type = b 0;
  size = b 2 + 256 * b 3;
  sectors = b 4 + 256 * b 5;
  sector =
      λ i. b (8 + 4 * i) + 256 * b (9 + 4 * i) + 65536 * b (10 + 4 * i) + 16777216 * b (11 + 4 * i);
}

-- `kmemcpy(&to[start], from, size)` between buffers that are apart.
unfoldable pub copy_bytes : (start size : ℕ) → (from to : ℕ → ℕ) → ℕ → ℕ
copy_bytes start size from to k =
    if leb start k && ltb k (start + size) then from (k - start) else to k

-- The variables of the loops of `write_inode_data`.
pub record Writing (D : Type 0) : Type 0 where
  pub data_bmap : ℕ → ℕ
  pub sectors_count : ℕ
  pub sector : ℕ → ℕ
  pub disk : D

module _ {D : Type 0} (disk_read : (lba sectors : ℕ) → D → ℕ → ℕ)
    (disk_write : (lba sectors : ℕ) → (ℕ → ℕ) → D → D) where
  unfoldable pub init_ibmap : D → D
  init_ibmap d = disk_write 9 8 (λ i. 0) d

  unfoldable pub init_dbmap : D → D
  init_dbmap d = disk_write 17 8 (λ i. 0) d

  unfoldable pub init_iblock : D → D
  init_iblock d = disk_write iblock_offset 40 (λ i. 0) d

  -- What `init_fs` does to the disk once `init_disk` has found it.
  unfoldable pub init_fs : D → D
  init_fs d = init_iblock (init_dbmap (init_ibmap d))

  abbrev pub store_bitmap : Option (ℕ × (ℕ → ℕ)) → D → Option ℕ × D
  store_bitmap none d = (none, d)
  store_bitmap (some (n, bmap)) d = (some n, disk_write 9 8 bmap d)

  -- `alloc_inode_num` with its transfers.
  unfoldable pub alloc_inode : D → Option ℕ × D
  alloc_inode d = store_bitmap (alloc_inode_num (disk_read 9 8 d)) d

  unfoldable pub write_inode : (padding : ℕ) → Inode → (inode_num : ℕ) → D → D
  write_inode padding inode inode_num d =
      let inode_sector = inode_num / 8 in
      let inode_offset = inode_num % 8 in
      let sector_buffer = disk_read (iblock_offset + inode_sector) 1 d in
      disk_write (iblock_offset + inode_sector) 1
        (copy_bytes (inode_offset * inode_size) inode_size (inode_bytes padding inode)
          sector_buffer)
        d

  unfoldable pub read_inode : (inode_num : ℕ) → D → Inode
  read_inode inode_num d =
      let inode_sector = inode_num / 8 in
      let inode_offset = inode_num % 8 in
      let sector_buffer = disk_read (iblock_offset + inode_sector) 1 d in
      inode_of_bytes (λ k. sector_buffer (inode_offset * inode_size + k))

  -- One round, for bit `j` of byte `i`; nothing once all sectors are written.
  unfoldable pub write_round :
      (sectors : ℕ) → (data_buffer : ℕ → ℕ) → (i j : ℕ) → Writing D → Writing D
  write_round sectors data_buffer i j w =
      let bit = bit_and (w.data_bmap i / 2 ^ j) 1 in
      let sector_idx = i * 8 + j in
      if leb sectors w.sectors_count
      then w
      else if bit == 0
      then record {
        data_bmap = update w.data_bmap i (u8 (bit_or (w.data_bmap i) (2 ^ j)));
        sectors_count = w.sectors_count + 1;
        sector = update w.sector w.sectors_count sector_idx;
        disk =
            disk_write (data_offset + sector_idx) 1 (λ k. data_buffer (w.sectors_count * 512 + k))
              w.disk;
      }
      else w

  -- The inner loop, with `rounds` rounds to go from `j` on.
  unfoldable pub write_bits :
      (sectors : ℕ) → (data_buffer : ℕ → ℕ) → (i j rounds : ℕ) → Writing D → Writing D
  write_bits sectors data_buffer i j zero w = w
  write_bits sectors data_buffer i j (suc rounds) w =
      write_bits sectors data_buffer i (j + 1) rounds (write_round sectors data_buffer i j w)

  -- The outer loop, with `rounds` rounds to go from `i` on.
  unfoldable pub write_bytes :
      (sectors : ℕ) → (data_buffer : ℕ → ℕ) → (i rounds : ℕ) → Writing D → Writing D
  write_bytes sectors data_buffer i zero w = w
  write_bytes sectors data_buffer i (suc rounds) w =
      write_bytes sectors data_buffer (i + 1) rounds (write_bits sectors data_buffer i 0 8 w)

  -- The variables after both loops.
  unfoldable pub write_loops : Inode → (content : ℕ → ℕ) → (size : ℕ) → D → Writing D
  write_loops inode content size d =
      let data_buffer = copy_bytes 0 size content (λ k. 0) in
      let start : Writing D = record {
        data_bmap = disk_read 17 8 d;
        sectors_count = 0;
        sector = inode.sector;
        disk = d;
      } in
      write_bytes inode.sectors data_buffer 0 4096 start

  -- The inode with its sectors, and the disk.
  unfoldable pub write_inode_data : Inode → (content : ℕ → ℕ) → (size : ℕ) → D → Inode × D
  write_inode_data inode content size d =
      let w = write_loops inode content size d in
      (record inode { sector = w.sector }, disk_write 17 8 w.data_bmap w.disk)

  -- The loop of `read_inode_data`, with `rounds` sectors to go from `i` on.
  unfoldable pub read_sectors : (sector : ℕ → ℕ) → (i rounds : ℕ) → D → (ℕ → ℕ) → ℕ → ℕ
  read_sectors sector i zero d data_buffer = data_buffer
  read_sectors sector i (suc rounds) d data_buffer =
      read_sectors sector (i + 1) rounds d
        (copy_bytes (i * 512) 512 (disk_read (data_offset + sector i) 1 d) data_buffer)

  -- `data_buffer` is what `kmalloc` left in the buffer.
  unfoldable pub read_inode_data : Inode → (data_buffer : ℕ → ℕ) → D → ℕ → ℕ
  read_inode_data inode data_buffer d = read_sectors inode.sector 0 inode.sectors d data_buffer
