-- ===== src/Filesystem/Blocks/Written.antt =====
-- What `write_inode_data` leaves on the disk.
use kernel_study.Base.{
  ℕ, ◌+◌, ◌-◌, ◌*◌, ◌/◌, ◌<◌, ◌≤◌, ◌≡◌, ◌≢◌, refl, arith, ◌∙◌, leb, ltb, Bool, true, false, ◌&&◌,
  if◌then◌else◌, ◌⊎◌, inr,
}
use kernel_study.Memory.Bitmap.{IsBytes, bit_get}
use kernel_study.Filesystem.Blocks.{Inode, Writing, copy_bytes, write_loops, write_inode_data}
use kernel_study.Filesystem.Blocks.Store.{IsDisk}
use kernel_study.Filesystem.Blocks.Data.{IsWriting, free_below, sector_at, in_data, bytes_step}

-- The bytes of the bitmap of data sectors.
abbrev pub in_bitmap : (a : ℕ) → Bool
in_bitmap a = leb (512 * 17) a && ltb a (512 * 17 + 512 * 8)

-- `count` sectors hold the content, padded by zeros.
pub record IsStored {D : Type 0} (disk_read : (lba sectors : ℕ) → D → ℕ → ℕ) (byte_at : D → ℕ → ℕ)
    (inode : Inode) (content : ℕ → ℕ) (size : ℕ) (d : D) (result : Inode × D) (count : ℕ)
    : Type 0 where
  pub few : count ≤ inode.sectors
  pub enough : (count ≡ inode.sectors) ⊎ (count ≡ free_below (disk_read 17 8 d) 32768)
  pub type : result.0.type ≡ inode.type
  pub size_kept : result.0.size ≡ inode.size
  pub sectors : result.0.sectors ≡ inode.sectors
  pub in_range : (k : ℕ) → k < count → result.0.sector k < 32768
  pub rising : (j k : ℕ) → j < k → k < count → result.0.sector j < result.0.sector k
  pub later : (k : ℕ) → count ≤ k → result.0.sector k ≡ inode.sector k
  pub was_free : (k : ℕ) → k < count → bit_get (disk_read 17 8 d) (result.0.sector k) ≡ 0
  pub taken : (k : ℕ) → k < count → bit_get (disk_read 17 8 result.1) (result.0.sector k) ≡ 1
  pub other_bits :
      (m : ℕ)
      → m < 32768
      → ((k : ℕ) → k < count → result.0.sector k ≢ m)
      → bit_get (disk_read 17 8 result.1) m ≡ bit_get (disk_read 17 8 d) m
  pub stored :
      (k i : ℕ)
      → k < count
      → i < 512
      → byte_at result.1 (sector_at (result.0.sector k) + i)
        ≡ (if ltb (k * 512 + i) size then content (k * 512 + i) else 0)
  pub other_bytes :
      (a : ℕ)
      → in_bitmap a ≡ false
      → ((k : ℕ) → k < count → in_data (result.0.sector k) a ≡ false)
      → byte_at result.1 a ≡ byte_at d a

module _ {D : Type 0} {disk_read : (lba sectors : ℕ) → D → ℕ → ℕ}
    {disk_write : (lba sectors : ℕ) → (ℕ → ℕ) → D → D} {byte_at : D → ℕ → ℕ}
    (v : IsDisk disk_read disk_write byte_at) where
  module _ (inode : Inode) (content : ℕ → ℕ) (size : ℕ) (d : D)
      (valid : IsBytes (disk_read 17 8 d)) where
    abbrev loops : Writing D
    loops = write_loops disk_read disk_write inode content size d

    abbrev result : Inode × D
    result = write_inode_data disk_read disk_write inode content size d

    abbrev buffer : ℕ → ℕ
    buffer = copy_bytes 0 size content (λ k. 0)

    -- What the loops leave.
    finished :
        IsWriting disk_read disk_write byte_at v
          (disk_read 17 8 d)
          inode.sector
          d
          inode.sectors
          buffer
          32768
          loops
    unfolding write_loops free_below
    finished =
        bytes_step disk_read disk_write byte_at v (disk_read 17 8 d) inode.sector d inode.sectors
          buffer 0 4096 _ (omega arith)
          (record {
            count = omega arith;
            bytes = valid;
            below = λ k lt. absurd (omega (arith, lt));
            was_free = λ k lt. absurd (omega (arith, lt));
            rising = λ j k less lt. absurd (omega (arith, lt));
            later = λ k le. refl;
            taken = λ k lt. absurd (omega (arith, lt));
            other_bits = λ m away. refl;
            stored = λ k i lt small. absurd (omega (arith, lt));
            other_bytes = λ a away. refl;
            done = inr refl;
          })

    -- A bit of the bitmap on the disk afterwards.
    bit_result :
        (m : ℕ) → m < 32768 → bit_get (disk_read 17 8 result.1) m ≡ bit_get loops.data_bmap m
    unfolding bit_get write_inode_data
    bit_result m low =
        let small : m / 8 < 512 * 8 = omega (arith, low) in
        let inside : (leb (512 * 17) (512 * 17 + m / 8)
              && ltb (512 * 17 + m / 8) (512 * 17 + 512 * 8))
            ≡ true =
          ground (arith, small) in
        let index : 512 * 17 + m / 8 - 512 * 17 ≡ m / 8 = omega arith in
        rw
          (
            v.read 17 8 result.1 (m / 8) small (omega arith) (omega (arith, v.large)),
            v.written 17 8 loops.data_bmap loops.disk (512 * 17 + m / 8) (omega arith)
                (omega (arith, v.large)),
            inside,
            index,
          )
          refl

    -- A byte that is not in the bitmap.
    byte_result : (a : ℕ) → in_bitmap a ≡ false → byte_at result.1 a ≡ byte_at loops.disk a
    unfolding write_inode_data
    byte_result a out =
        v.written 17 8 loops.data_bmap loops.disk a (omega arith) (omega (arith, v.large))
        ∙ rw out refl

    outside : (n i : ℕ) → in_bitmap (sector_at n + i) ≡ false
    outside n i = ground arith

    padded : (k : ℕ) → buffer k ≡ (if ltb k size then content k else 0)
    unfolding copy_bytes
    padded k =
        let e : (leb 0 k && ltb k (0 + size)) ≡ ltb k size = ground arith in
        let f : k - 0 ≡ k = omega arith in rw (e, f) refl

    -- On a disk that IsDisk describes and whose bitmap of data sectors is bytes, `write_inode_data` takes one free sector
    -- after the other, in rising order, until it has as many as the inode asks for or none of the 32768 is free. These
    -- and no others are marked in the bitmap on the disk. Each holds its 512 bytes of the content, with zeros behind the
    -- end, and no other byte outside the bitmap has changed. The entries of the inode behind them are as they were, also
    -- when the disk is full.
    pub write_inode_data-IsStored :
        IsStored disk_read byte_at inode content size d result loops.sectors_count
    unfolding write_inode_data
    write_inode_data-IsStored =
        let h = finished in
        record {
          few = h.count;
          enough = h.done;
          type = refl;
          size_kept = refl;
          sectors = refl;
          in_range = h.below;
          rising = h.rising;
          later = h.later;
          was_free = h.was_free;
          taken = λ k lt. bit_result (loops.sector k) (h.below k lt) ∙ h.taken k lt;
          other_bits = λ m low away. bit_result m low ∙ h.other_bits m away;
          stored = λ k i lt small.
              byte_result (sector_at (loops.sector k) + i) (outside (loops.sector k) i)
              ∙ h.stored k i lt small
              ∙ padded (k * 512 + i);
          other_bytes = λ a out away. byte_result a out ∙ h.other_bytes a away;
        }
