-- ===== src/Filesystem/Blocks/Records.antt =====
-- `write_inode` and `read_inode`.
use mathlib.Core.Path.{subst}
use kernel_study.Base.{
  ℕ, ◌+◌, ◌-◌, ◌*◌, ◌/◌, ◌%◌, ◌<◌, ◌≤◌, ◌≡◌, ◌≢◌, refl, arith, ap, ◌∙◌, leb, ltb, ◌==◌, Bool, sym,
  ==_iff, Bool-cases, inl, inr, true, false, ◌&&◌, if◌then◌else◌,
}
use kernel_study.Filesystem.Blocks.{
  Inode, inode_bytes, inode_size, iblock_offset, copy_bytes, write_inode, read_inode,
}
use kernel_study.Filesystem.Blocks.Store.{IsDisk}
use kernel_study.Filesystem.Blocks.Layout.{
  IsInode, SameInode, inode_of_bytes-inode_bytes, inode_of_bytes-same,
}

-- The first byte of an inode on the disk.
abbrev inode_at : ℕ → ℕ
inode_at n = 512 * iblock_offset + inode_size * n

abbrev pub in_inode : (n a : ℕ) → Bool
in_inode n a = leb (inode_at n) a && ltb a (inode_at n + inode_size)

module _ {D : Type 0} (disk_read : (lba sectors : ℕ) → D → ℕ → ℕ)
    (disk_write : (lba sectors : ℕ) → (ℕ → ℕ) → D → D) (byte_at : D → ℕ → ℕ)
    (v : IsDisk disk_read disk_write byte_at) where
  -- The sector that holds inode `n`, and the inode in it.
  abbrev first : ℕ → ℕ
  first n = 512 * (iblock_offset + n / 8)

  abbrev in_sector : (n a : ℕ) → Bool
  in_sector n a = leb (first n) a && ltb a (first n + 512 * 1)

  -- One byte of the sector that is written back.
  new_byte :
      (padding : ℕ) (inode : Inode) (n : ℕ) (d : D) (a : ℕ)
      → in_sector n a ≡ true
      → iblock_offset + n / 8 + 1 ≤ v.size
      → copy_bytes
          (n % 8 * inode_size)
          inode_size
          (inode_bytes padding inode)
          (disk_read (iblock_offset + n / 8) 1 d)
          (a - first n)
        ≡ (if in_inode n a then inode_bytes padding inode (a - inode_at n) else byte_at d a)
  unfolding copy_bytes
  new_byte padding inode n d a inside room =
      let low : first n ≤ a = ground (arith, inside) in
      let high : a < first n + 512 = ground (arith, inside) in
      let old =
        v.read (iblock_offset + n / 8) 1 d (a - first n) (omega (arith, low, high)) (omega arith)
          room in
      let at : 512 * (iblock_offset + n / 8) + (a - first n) ≡ a = omega (arith, low) in
      let old' : disk_read (iblock_offset + n / 8) 1 d (a - first n) ≡ byte_at d a =
        old ∙ ap (byte_at d) at in
      let same : (leb (n % 8 * inode_size) (a - first n)
            && ltb (a - first n) (n % 8 * inode_size + inode_size))
          ≡ in_inode n a =
        ground (arith, low, high) in
      let index : a - first n - n % 8 * inode_size ≡ a - inode_at n = omega arith in
      rw (same, index, old') refl

  -- The disk after `write_inode`, byte by byte.
  pub write_inode-byte_at :
      (padding : ℕ) (inode : Inode) (n : ℕ) (d : D) (a : ℕ)
      → iblock_offset + n / 8 + 1 ≤ v.size
      → byte_at (write_inode disk_read disk_write padding inode n d) a
        ≡ (if in_inode n a then inode_bytes padding inode (a - inode_at n) else byte_at d a)
  unfolding write_inode
  write_inode-byte_at padding inode n d a room =
      v.written (iblock_offset + n / 8) 1 _ d a (omega arith) room
      ∙ elim (Bool-cases (in_sector n a)) [
        | inl inside ↦ rw inside (new_byte padding inode n d a inside room)
        | inr out ↦
            let no_inode : in_inode n a ≡ false = ground (arith, out) in rw (out, no_inode) refl
      ]

  -- The inode that `read_inode` finds is the one in the 64 bytes at its number.
  read_inode-byte_at :
      (n : ℕ) (d : D) (padding : ℕ) (inode : Inode)
      → IsInode inode
      → iblock_offset + n / 8 + 1 ≤ v.size
      → ((k : ℕ) → k < 64 → byte_at d (inode_at n + k) ≡ inode_bytes padding inode k)
      → SameInode (read_inode disk_read disk_write n d) inode
  unfolding read_inode
  read_inode-byte_at n d padding inode i room same =
      inode_of_bytes-inode_bytes padding inode _ i (λ k h.
        let at : 512 * (iblock_offset + n / 8) + (n % 8 * inode_size + k) ≡ inode_at n + k =
          omega arith in
        v.read (iblock_offset + n / 8) 1 d (n % 8 * inode_size + k) (omega (arith, h)) (omega arith)
          room
        ∙ ap (byte_at d) at
        ∙ same k h)

  pub read_inode-write_inode_same :
      (padding : ℕ) (inode : Inode) (n : ℕ) (d : D)
      → iblock_offset + n / 8 + 1 ≤ v.size
      → IsInode inode
      → SameInode
          (read_inode disk_read disk_write n (write_inode disk_read disk_write padding inode n d))
          inode
  read_inode-write_inode_same padding inode n d room i =
      read_inode-byte_at n _ padding inode i room (λ k h.
        let here : in_inode n (inode_at n + k) ≡ true = ground (arith, h) in
        let at : inode_at n + k - inode_at n ≡ k = omega arith in
        write_inode-byte_at padding inode n d (inode_at n + k) room ∙ (rw (here, at) refl))

  -- The bytes of another inode stay.
  read_inode-write_inode_other :
      (padding : ℕ) (inode : Inode) (n m : ℕ) (d : D)
      → iblock_offset + n / 8 + 1 ≤ v.size
      → iblock_offset + m / 8 + 1 ≤ v.size
      → n ≢ m
      → SameInode
          (read_inode disk_read disk_write m (write_inode disk_read disk_write padding inode n d))
          (read_inode disk_read disk_write m d)
  unfolding read_inode
  read_inode-write_inode_other padding inode n m d room room' ne = inode_of_bytes-same _ _ (λ k h.
      let off : m % 8 * inode_size + k < 512 * 1 = omega (arith, h) in
      let at : 512 * (iblock_offset + m / 8) + (m % 8 * inode_size + k) ≡ inode_at m + k =
        omega arith in
      let away : in_inode n (512 * (iblock_offset + m / 8) + (m % 8 * inode_size + k)) ≡ false =
        ground (arith, ne, h) in
      v.read (iblock_offset + m / 8) 1 _ (m % 8 * inode_size + k) off (omega arith) room'
      ∙ write_inode-byte_at padding inode n d
          (512 * (iblock_offset + m / 8) + (m % 8 * inode_size + k)) room
      ∙ (rw away (
          sym
            (v.read (iblock_offset + m / 8) 1 d (m % 8 * inode_size + k) off (omega arith) room'))))

  -- On a disk that IsDisk describes, for inode numbers `n` and `m` whose sectors, 25 and the eighth part of the number,
  -- lie on the disk, and so below 2^28: an inode whose fields fit their types is read back as it was written under
  -- `n`, whatever its padding holds, and every other such number `m` gives the inode that it gave before.
  pub read_inode-write_inode :
      (padding : ℕ) (inode : Inode) (n m : ℕ) (d : D)
      → iblock_offset + n / 8 + 1 ≤ v.size
      → iblock_offset + m / 8 + 1 ≤ v.size
      → IsInode inode
      → SameInode
          (read_inode disk_read disk_write m (write_inode disk_read disk_write padding inode n d))
          (if n == m then inode else read_inode disk_read disk_write m d)
  read_inode-write_inode padding inode n m d room room' i = elim (Bool-cases (n == m)) [
    | inl e ↦
        let same : n ≡ m = (==_iff _ _).0 e in
        rw e (
          subst
            (λ (j : ℕ).
              SameInode
                (read_inode disk_read disk_write j
                  (write_inode disk_read disk_write padding inode n d))
                inode)
            same (read_inode-write_inode_same padding inode n d room i))
    | inr ne ↦
        rw ne (read_inode-write_inode_other padding inode n m d room room' (ground (arith, ne)))
  ]
