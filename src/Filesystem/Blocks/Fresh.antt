-- ===== src/Filesystem/Blocks/Fresh.antt =====
-- What `init_fs` leaves on the disk.
use kernel_study.Base.{
  ℕ, ◌+◌, ◌-◌, ◌*◌, ◌/◌, ◌%◌, ◌^◌, ◌<◌, ◌≤◌, ◌≡◌, ◌≢◌, refl, arith, ◌∙◌, leb, ltb, ◌==◌, true,
  false, ◌&&◌, if◌then◌else◌, ◌⊎◌, inl, inr, dec_lt, some, none, bit_and,
}
use kernel_study.Memory.Bitmap.{Bytes, IsBytes, bit_get, bit_set, bit_get-bit_set}
use kernel_study.Filesystem.Blocks.{
  init_ibmap, init_dbmap, init_iblock, init_fs, alloc_inode, iblock_offset,
}
use kernel_study.Filesystem.Blocks.Store.{IsDisk}
use kernel_study.Filesystem.Blocks.Data.{free_below, free_below_all}
use kernel_study.Filesystem.Inodes.{alloc_inode_num_first}

module _ {D : Type 0} {disk_read : (lba sectors : ℕ) → D → ℕ → ℕ}
    {disk_write : (lba sectors : ℕ) → (ℕ → ℕ) → D → D} {byte_at : D → ℕ → ℕ}
    (v : IsDisk disk_read disk_write byte_at) where
  -- `init_fs` zeroes the sectors 9 to 64, which hold both bitmaps and the inodes, and no other byte.
  pub init_fs-byte_at :
      (d : D) (a : ℕ)
      → byte_at (init_fs disk_read disk_write d) a
        ≡ (if leb (512 * 9) a && ltb a (512 * 65) then 0 else byte_at d a)
  unfolding init_fs init_iblock init_dbmap init_ibmap
  init_fs-byte_at d a =
      let one = v.written 9 8 (λ i. 0) d a (omega arith) (omega (arith, v.large)) in
      let two =
        v.written 17 8 (λ i. 0) (init_ibmap disk_read disk_write d) a (omega arith)
          (omega (arith, v.large)) in
      let three =
        v.written iblock_offset 40 (λ i. 0)
          (init_dbmap disk_read disk_write (init_ibmap disk_read disk_write d)) a (omega arith)
          (omega (arith, v.large)) in
      ground (arith, one, two, three)

  bit_and_zero : (m : ℕ) → bit_and (0 / 2 ^ (m % 8)) 1 ≡ 0
  bit_and_zero m = let e : 0 / 2 ^ (m % 8) ≡ 0 = omega arith in rw e refl

  bit_zero : (bmap : Bytes) (m : ℕ) → bmap (m / 8) ≡ 0 → bit_get bmap m ≡ 0
  unfolding bit_get
  bit_zero bmap m e = rw e (bit_and_zero m)

  bitmap_zero :
      (lba : ℕ) (d : D) (m : ℕ)
      → 9 ≤ lba
      → lba ≤ 17
      → m < 32768
      → bit_get (disk_read lba 8 (init_fs disk_read disk_write d)) m ≡ 0
  bitmap_zero lba d m low high small = bit_zero _ m (
      v.read lba 8 (init_fs disk_read disk_write d) (m / 8) (omega (arith, small)) (omega arith)
        (omega (arith, high, v.large))
      ∙ init_fs-byte_at d (512 * lba + m / 8)
      ∙ ground (arith, low, high, small))

  -- After `init_fs` all 32768 data sectors are free.
  pub init_fs-free :
      (d : D) → free_below (disk_read 17 8 (init_fs disk_read disk_write d)) 32768 ≡ 32768
  init_fs-free d =
      free_below_all _ 32768 (λ m lt. bitmap_zero 17 d m (omega arith) (omega arith) lt)

  -- A bit of the bitmap of inodes after `bmap` is written there.
  stored_bit :
      (bmap : Bytes) (d : D) (m : ℕ)
      → m < 32768
      → bit_get (disk_read 9 8 (disk_write 9 8 bmap d)) m ≡ bit_get bmap m
  unfolding bit_get
  stored_bit bmap d m low =
      let small : m / 8 < 512 * 8 = omega (arith, low) in
      let inside : (leb (512 * 9) (512 * 9 + m / 8) && ltb (512 * 9 + m / 8) (512 * 9 + 512 * 8))
          ≡ true =
        ground (arith, small) in
      let index : 512 * 9 + m / 8 - 512 * 9 ≡ m / 8 = omega arith in
      rw
        (
          v.read 9 8 (disk_write 9 8 bmap d) (m / 8) small (omega arith) (omega (arith, v.large)),
          v.written 9 8 bmap d (512 * 9 + m / 8) (omega arith) (omega (arith, v.large)),
          inside,
          index,
        )
        refl

  -- On a disk that IsDisk describes, with a bitmap of inodes that is bytes: `alloc_inode_num` returns the lowest number
  -- whose bit is 0, and the disk then has that bit set, every other bit as it was, and every byte outside the bitmap as
  -- it was; if all 32768 bits are set it returns -1 and leaves the disk alone.
  pub alloc_inode_first :
      (d : D)
      → IsBytes (disk_read 9 8 d)
      → ((alloc_inode disk_read disk_write d ≡ (none, d))
          × ((k : ℕ) → k < 32768 → bit_get (disk_read 9 8 d) k ≢ 0))
        ⊎ ((n : ℕ) × (d' : D) × (alloc_inode disk_read disk_write d ≡ (some n, d'))
            × (n < 32768)
            × (bit_get (disk_read 9 8 d) n ≡ 0)
            × ((k : ℕ) → k < n → bit_get (disk_read 9 8 d) k ≢ 0)
            × ((k : ℕ)
                → k < 32768
                → bit_get (disk_read 9 8 d') k
                  ≡ (if n == k then 1 else bit_get (disk_read 9 8 d) k))
            × ((a : ℕ)
                → (leb (512 * 9) a && ltb a (512 * 17)) ≡ false
                → byte_at d' a ≡ byte_at d a))
  unfolding alloc_inode
  alloc_inode_first d valid = elim (alloc_inode_num_first (disk_read 9 8 d)) [
    | inl (e, all) ↦ inl (rw e refl, all)
    | inr (n, e, low, free, before) ↦ inr (
      n,
      disk_write 9 8 (bit_set (disk_read 9 8 d) n) d,
      rw e refl,
      low,
      free,
      before,
      λ k lt. stored_bit _ d k lt ∙ bit_get-bit_set (disk_read 9 8 d) n k valid,
      λ a out. v.written 9 8 _ d a (omega arith) (omega (arith, v.large)) ∙ rw out refl,
    )
  ]

  -- The first inode that is allocated after `init_fs` is 0.
  pub alloc_inode-init_fs :
      (d : D) → (alloc_inode disk_read disk_write (init_fs disk_read disk_write d)).0 ≡ some 0
  unfolding alloc_inode
  alloc_inode-init_fs d =
      elim (alloc_inode_num_first (disk_read 9 8 (init_fs disk_read disk_write d))) [
        | inl (e, all) ↦
            absurd
              (all 0 (omega arith) (bitmap_zero 9 d 0 (omega arith) (omega arith) (omega arith)))
        | inr (n, e, low, free, before) ↦ elim (dec_lt 0 n) [
          | yes lt ↦
              absurd (before 0 lt (bitmap_zero 9 d 0 (omega arith) (omega arith) (omega arith)))
          | no ge ↦ let z : n ≡ 0 = omega (arith, ge) in rw (e, z) refl
        ]
      ]
