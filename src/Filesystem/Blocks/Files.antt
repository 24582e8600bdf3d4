-- ===== src/Filesystem/Blocks/Files.antt =====
-- A file on the disk: the inode and its data, written and read back.
use kernel_study.Base.{
  ℕ, zero, suc, ◌+◌, ◌-◌, ◌*◌, ◌/◌, ◌%◌, ◌<◌, ◌≤◌, ◌≡◌, refl, arith, ap, sym, ◌∙◌, leb, ltb, true,
  false, ◌&&◌, if◌then◌else◌, Bool-cases, inl, inr, dec_lt,
}
use kernel_study.Memory.Bitmap.{IsBytes}
use kernel_study.Filesystem.Blocks.{
  data_offset, Inode, copy_bytes, write_loops, write_inode_data, read_inode_data, read_sectors,
  read_inode, inode_size, iblock_offset,
}
use kernel_study.Filesystem.Blocks.Store.{IsDisk}
use kernel_study.Filesystem.Blocks.Layout.{SameInode, inode_of_bytes-same}
use kernel_study.Filesystem.Blocks.Data.{free_below, sector_at}
use kernel_study.Filesystem.Blocks.Written.{in_bitmap, write_inode_data-IsStored}
use kernel_study.Filesystem.Blocks.Layout.{IsInode}
use kernel_study.Filesystem.Blocks.{write_inode}
use kernel_study.Filesystem.Blocks.Records.{
  write_inode-byte_at, in_inode, read_inode-write_inode_same,
}

module _ {D : Type 0} {disk_read : (lba sectors : ℕ) → D → ℕ → ℕ}
    {disk_write : (lba sectors : ℕ) → (ℕ → ℕ) → D → D} {byte_at : D → ℕ → ℕ}
    (v : IsDisk disk_read disk_write byte_at) where
  -- The reading loop: each byte of the buffer comes from the sector at its index.
  read_sectors_lem :
      (sector : ℕ → ℕ) (i rounds : ℕ) (d : D) (data_buffer : ℕ → ℕ) (k : ℕ)
      → sector (k / 512) < 32768
      → read_sectors disk_read disk_write sector i rounds d data_buffer k ≡ (
          if leb (i * 512) k && ltb k ((i + rounds) * 512)
          then byte_at d (sector_at (sector (k / 512)) + k % 512)
          else data_buffer k)
  unfolding read_sectors copy_bytes
  read_sectors_lem sector i zero d data_buffer k there =
      let out : (leb (i * 512) k && ltb k ((i + 0) * 512)) ≡ false = ground arith in rw out refl
  read_sectors_lem sector i (suc rounds) d data_buffer k there =
      read_sectors_lem sector (i + 1) rounds d _ k there
      ∙ elim (Bool-cases (leb (i * 512) k && ltb k (i * 512 + 512))) [
        | inl here ↦
            let later : (leb ((i + 1) * 512) k && ltb k ((i + 1 + rounds) * 512)) ≡ false =
              ground (arith, here) in
            let all : (leb (i * 512) k && ltb k ((i + suc rounds) * 512)) ≡ true =
              ground (arith, here) in
            let low : k - i * 512 < 512 * 1 = ground (arith, here) in
            let q : k / 512 ≡ i = ground (arith, here) in
            let at : sector i < 32768 = omega (arith, there, ap sector q) in
            let r : k - i * 512 ≡ k % 512 = ground (arith, here) in
            rw (later, all, here)
              (v.read (data_offset + sector i) 1 d (k - i * 512) low (omega arith)
                  (omega (arith, v.large, at))
                ∙ rw (q, r) refl)
        | inr out ↦
            let same : (leb ((i + 1) * 512) k && ltb k ((i + 1 + rounds) * 512))
                ≡ (leb (i * 512) k && ltb k ((i + suc rounds) * 512)) =
              ground (arith, out) in
            rw (same, out) refl
      ]

  -- The bytes that are read back from an inode with `count` sectors.
  pub read_inode_data_lem :
      (inode : Inode) (data_buffer : ℕ → ℕ) (d : D) (k : ℕ)
      → k < 512 * inode.sectors
      → inode.sector (k / 512) < 32768
      → read_inode_data disk_read disk_write inode data_buffer d k
        ≡ byte_at d (sector_at (inode.sector (k / 512)) + k % 512)
  unfolding read_inode_data
  read_inode_data_lem inode data_buffer d k low there =
      let inside : (leb (0 * 512) k && ltb k ((0 + inode.sectors) * 512)) ≡ true =
        ground (arith, low) in
      read_sectors_lem inode.sector 0 inode.sectors d data_buffer k there ∙ rw inside refl

  -- On a disk that IsDisk describes, whose bitmap of data sectors is bytes and has as many free sectors as the inode asks
  -- for: the bytes that `read_inode_data` returns after `write_inode_data` are the content, with zeros behind its end.
  pub read_inode_data-write_inode_data :
      (inode : Inode) (content : ℕ → ℕ) (size : ℕ) (d : D) (data_buffer : ℕ → ℕ) (k : ℕ)
      → IsBytes (disk_read 17 8 d)
      → inode.sectors ≤ free_below (disk_read 17 8 d) 32768
      → k < 512 * inode.sectors
      → read_inode_data disk_read disk_write
          (write_inode_data disk_read disk_write inode content size d).0
          data_buffer
          (write_inode_data disk_read disk_write inode content size d).1
          k
        ≡ (if ltb k size then content k else 0)
  read_inode_data-write_inode_data inode content size d data_buffer k valid enough low =
      let s = write_inode_data-IsStored v inode content size d valid in
      let all : (write_loops disk_read disk_write inode content size d).sectors_count
          ≡ inode.sectors =
        elim s.enough [ inl e ↦ e | inr e ↦ omega (arith, s.few, e, enough) ] in
      let at : k / 512 * 512 + k % 512 ≡ k = omega arith in
      read_inode_data_lem _ data_buffer _ k (omega (arith, s.sectors, low))
        (s.in_range (k / 512) (omega (arith, all, low)))
      ∙ s.stored (k / 512) (k % 512) (omega (arith, all, low)) (omega arith)
      ∙ rw at refl

  -- Writing data leaves the first 320 inodes, which are the ones in front of the data, as they were.
  pub read_inode-write_inode_data :
      (inode : Inode) (content : ℕ → ℕ) (size : ℕ) (d : D) (m : ℕ)
      → IsBytes (disk_read 17 8 d)
      → m < 320
      → SameInode
          (read_inode disk_read disk_write m
            (write_inode_data disk_read disk_write inode content size d).1)
          (read_inode disk_read disk_write m d)
  unfolding read_inode
  read_inode-write_inode_data inode content size d m valid low =
      let s = write_inode_data-IsStored v inode content size d valid in
      inode_of_bytes-same _ _ (λ k h.
        let off : m % 8 * inode_size + k < 512 * 1 = omega (arith, h) in
        let a : ℕ = 512 * (iblock_offset + m / 8) + (m % 8 * inode_size + k) in
        let out : in_bitmap a ≡ false = ground (arith, off, low) in
        v.read (iblock_offset + m / 8) 1 _ (m % 8 * inode_size + k) off (omega arith)
          (omega (arith, v.large, low))
        ∙ s.other_bytes a out (λ j lt. ground (arith, off, low))
        ∙ sym (
            v.read (iblock_offset + m / 8) 1 d (m % 8 * inode_size + k) off (omega arith)
              (omega (arith, v.large, low))))

  -- The inode that `write_inode_data` returns fits its fields.
  written-IsInode :
      (inode : Inode) (content : ℕ → ℕ) (size : ℕ) (d : D)
      → IsBytes (disk_read 17 8 d)
      → IsInode inode
      → IsInode (write_inode_data disk_read disk_write inode content size d).0
  written-IsInode inode content size d valid i =
      let s = write_inode_data-IsStored v inode content size d valid in
      record {
        type = omega (arith, s.type, i.type);
        size = omega (arith, s.size_kept, i.size);
        sectors = omega (arith, s.sectors, i.sectors);
        sector = λ k h.
            elim (dec_lt k (write_loops disk_read disk_write inode content size d).sectors_count) [
              | yes lt ↦ omega (arith, s.in_range k lt)
              | no ge ↦ omega (arith, s.later k (omega (arith, ge)), i.sector k h)
            ];
      }

  -- Writing one of the first 320 inodes changes no byte of the data.
  data_byte :
      (padding : ℕ) (inode : Inode) (n : ℕ) (d : D) (s i : ℕ)
      → n < 320
      → byte_at (write_inode disk_read disk_write padding inode n d) (sector_at s + i)
        ≡ byte_at d (sector_at s + i)
  data_byte padding inode n d s i low =
      let out : in_inode n (sector_at s + i) ≡ false = ground (arith, low) in
      write_inode-byte_at disk_read disk_write byte_at v padding inode n d (sector_at s + i)
        (omega (arith, v.large, low))
      ∙ rw out refl

  -- A file: its data written, and then its inode.
  abbrev pub stored : (padding : ℕ) → Inode → (content : ℕ → ℕ) → (size n : ℕ) → D → D
  stored padding inode content size n d =
      let r = write_inode_data disk_read disk_write inode content size d in
      write_inode disk_read disk_write padding r.0 n r.1

  -- On a disk that IsDisk describes: a file with at most 14 sectors is written, its data by `write_inode_data` and then its inode under a number below 320
  -- by `write_inode`. If the fields fit their types, the bitmap of data sectors is bytes and has enough free sectors,
  -- then reading the inode and its data gives the content, with zeros behind its end.
  pub read_back :
      (padding : ℕ) (inode : Inode) (content : ℕ → ℕ) (size n : ℕ) (d : D) (data_buffer : ℕ → ℕ)
      (k : ℕ)
      → IsBytes (disk_read 17 8 d)
      → IsInode inode
      → inode.sectors ≤ 14
      → inode.sectors ≤ free_below (disk_read 17 8 d) 32768
      → n < 320
      → k < 512 * inode.sectors
      → read_inode_data disk_read disk_write
          (read_inode disk_read disk_write n (stored padding inode content size n d))
          data_buffer
          (stored padding inode content size n d)
          k
        ≡ (if ltb k size then content k else 0)
  read_back padding inode content size n d data_buffer k valid i few enough low inside =
      let r = write_inode_data disk_read disk_write inode content size d in
      let s = write_inode_data-IsStored v inode content size d valid in
      let same : SameInode
          (read_inode disk_read disk_write n (stored padding inode content size n d)) r.0 =
        read_inode-write_inode_same disk_read disk_write byte_at v padding r.0 n r.1
          (omega (arith, v.large, low)) (written-IsInode inode content size d valid i) in
      let all : (write_loops disk_read disk_write inode content size d).sectors_count
          ≡ inode.sectors =
        elim s.enough [ inl e ↦ e | inr e ↦ omega (arith, s.few, e, enough) ] in
      let there : r.0.sector (k / 512) < 32768 =
        s.in_range (k / 512) (omega (arith, all, inside)) in
      let at = same.sector (k / 512) (omega (arith, few, inside)) in
      read_inode_data_lem _ data_buffer _ k (omega (arith, same.sectors, s.sectors, inside))
        (omega (arith, there, at))
      ∙ ap (λ (x : ℕ). byte_at (stored padding inode content size n d) (sector_at x + k % 512)) at
      ∙ data_byte padding r.0 n r.1 (r.0.sector (k / 512)) (k % 512) low
      ∙ sym (read_inode_data_lem r.0 data_buffer r.1 k (omega (arith, s.sectors, inside)) there)
      ∙ read_inode_data-write_inode_data inode content size d data_buffer k valid enough inside
