-- ===== src/Filesystem/Blocks/Data.antt =====
-- The loops of `write_inode_data`: what holds after each bit of the bitmap.
use kernel_study.Base.{
  ℕ, zero, suc, ◌+◌, ◌-◌, ◌*◌, ◌/◌, ◌%◌, ◌^◌, ◌<◌, ◌≤◌, ◌≡◌, ◌≢◌, refl, arith, ap, sym, ◌∙◌, leb,
  ltb, ◌==◌, ==_iff, Bool, true, false, ◌&&◌, if◌then◌else◌, Bool-cases, ◌⊎◌, inl, inr, bit_and,
  bit_or, u8, update, update_self, update_ne,
}
use kernel_study.Memory.Bitmap.{Bytes, IsBytes, bit_get, bit_set, bit_set-IsBytes, bit_get-bit_set}
use kernel_study.Filesystem.Inodes.{bit_get-byte}
use kernel_study.Filesystem.Blocks.{data_offset, Writing, write_round, write_bits, write_bytes}
use kernel_study.Filesystem.Blocks.Store.{IsDisk}

-- A bit of the bitmap is set in its byte.
bit_set_byte :
    (bmap : Bytes) (i j : ℕ)
    → j < 8
    → bit_set bmap (i * 8 + j) ≡ update bmap i (u8 (bit_or (bmap i) (2 ^ j)))
unfolding bit_set
bit_set_byte bmap i j small =
    let e : (i * 8 + j) / 8 ≡ i = omega (arith, small) in
    let f : (i * 8 + j) % 8 ≡ j = omega (arith, small) in rw (e, f) refl

-- How many bits below `n` are free.
unfoldable pub free_below : Bytes → (n : ℕ) → ℕ
free_below bmap zero = 0
free_below bmap (suc n) = free_below bmap n + (if bit_get bmap n == 0 then 1 else 0)

free_below_next :
    (bmap : Bytes) (n : ℕ)
    → free_below bmap (n + 1) ≡ free_below bmap n + (if bit_get bmap n == 0 then 1 else 0)
unfolding free_below
free_below_next bmap n = let e : n + 1 ≡ suc n = omega arith in rw e refl

free_below_free :
    (bmap : Bytes) (n : ℕ) → bit_get bmap n ≡ 0 → free_below bmap (n + 1) ≡ free_below bmap n + 1
free_below_free bmap n free = free_below_next bmap n ∙ rw free refl

free_below_used :
    (bmap : Bytes) (n : ℕ) → bit_get bmap n ≢ 0 → free_below bmap (n + 1) ≡ free_below bmap n
free_below_used bmap n used =
    let e : (bit_get bmap n == 0) ≡ false = ground (arith, used) in
    free_below_next bmap n ∙ rw e (omega arith)

-- A bitmap without a bit that is set.
pub free_below_all :
    (bmap : Bytes) (n : ℕ) → ((m : ℕ) → m < n → bit_get bmap m ≡ 0) → free_below bmap n ≡ n
unfolding free_below
free_below_all bmap zero all = refl
free_below_all bmap (suc n) all =
    let here = all n (omega arith) in
    let before = free_below_all bmap n (λ m lt. all m (omega (arith, lt))) in
    rw (here, before) (omega arith)

-- The first byte of a data sector.
abbrev pub sector_at : ℕ → ℕ
sector_at n = 512 * (data_offset + n)

abbrev pub in_data : (n a : ℕ) → Bool
in_data n a = leb (sector_at n) a && ltb a (sector_at n + 512)

module _ {D : Type 0} (disk_read : (lba sectors : ℕ) → D → ℕ → ℕ)
    (disk_write : (lba sectors : ℕ) → (ℕ → ℕ) → D → D) (byte_at : D → ℕ → ℕ)
    (v : IsDisk disk_read disk_write byte_at) (data_bmap : Bytes) (sector : ℕ → ℕ) (d : D)
    (sectors : ℕ) (data_buffer : ℕ → ℕ) where
  -- After the bits below `n`: the sectors so far were free, are taken in rising order, each holds its 512 bytes of
  -- the buffer, and nothing else has changed; either all sectors are written or every free bit
  -- below `n` is taken.
  pub record IsWriting (n : ℕ) (w : Writing D) : Type 0 where
    pub count : w.sectors_count ≤ sectors
    pub bytes : IsBytes w.data_bmap
    pub below : (k : ℕ) → k < w.sectors_count → w.sector k < n
    pub was_free : (k : ℕ) → k < w.sectors_count → bit_get data_bmap (w.sector k) ≡ 0
    pub rising : (j k : ℕ) → j < k → k < w.sectors_count → w.sector j < w.sector k
    pub later : (k : ℕ) → w.sectors_count ≤ k → w.sector k ≡ sector k
    pub taken : (k : ℕ) → k < w.sectors_count → bit_get w.data_bmap (w.sector k) ≡ 1
    pub other_bits :
        (m : ℕ)
        → ((k : ℕ) → k < w.sectors_count → w.sector k ≢ m)
        → bit_get w.data_bmap m ≡ bit_get data_bmap m
    pub stored :
        (k i : ℕ)
        → k < w.sectors_count
        → i < 512
        → byte_at w.disk (sector_at (w.sector k) + i) ≡ data_buffer (k * 512 + i)
    pub other_bytes :
        (a : ℕ)
        → ((k : ℕ) → k < w.sectors_count → in_data (w.sector k) a ≡ false)
        → byte_at w.disk a ≡ byte_at d a
    pub done : (w.sectors_count ≡ sectors) ⊎ (w.sectors_count ≡ free_below data_bmap n)

  -- No sector so far is `n`: the bit there is as it was.
  bit_at_n : (n : ℕ) (w : Writing D) → IsWriting n w → bit_get w.data_bmap n ≡ bit_get data_bmap n
  bit_at_n n w h = h.other_bits n (λ k lt e. omega (arith, e, h.below k lt))

  -- A bit that is passed over.
  passed :
      (n : ℕ) (w : Writing D)
      → IsWriting n w
      → (w.sectors_count ≡ sectors) ⊎ (bit_get w.data_bmap n ≢ 0)
      → IsWriting (n + 1) w
  passed n w h why = record {
    count = h.count;
    bytes = h.bytes;
    below = λ k lt. omega (arith, h.below k lt);
    was_free = h.was_free;
    rising = h.rising;
    later = h.later;
    taken = h.taken;
    other_bits = h.other_bits;
    stored = h.stored;
    other_bytes = h.other_bytes;
    done = elim why [
      | inl e ↦ inl e
      | inr here ↦ elim h.done [
        | inl e ↦ inl e
        | inr e ↦ inr (e ∙ sym (free_below_used data_bmap n (λ z. here (bit_at_n n w h ∙ z))))
      ]
    ];
  }

  -- A free bit that is taken.
  abbrev next : (n : ℕ) → Writing D → Writing D
  next n w = record {
    data_bmap = bit_set w.data_bmap n;
    sectors_count = w.sectors_count + 1;
    sector = update w.sector w.sectors_count n;
    disk = disk_write (data_offset + n) 1 (λ k. data_buffer (w.sectors_count * 512 + k)) w.disk;
  }

  module _ (n : ℕ) (w : Writing D) (h : IsWriting n w) (more : w.sectors_count < sectors)
      (free : bit_get w.data_bmap n ≡ 0) (inside : n < 32768) where
    update_at : (k : ℕ) → w.sectors_count ≡ k → (next n w).sector k ≡ n
    update_at k e =
        ap (λ (x : ℕ). (next n w).sector x) (sym e) ∙ update_self w.sector w.sectors_count n

    -- The sector of each number is an old one or the new one.
    sector_cases :
        (k : ℕ)
        → k < w.sectors_count + 1
        → ((k ≡ w.sectors_count) × ((next n w).sector k ≡ n))
          ⊎ ((k < w.sectors_count) × ((next n w).sector k ≡ w.sector k))
    sector_cases k lt = elim (Bool-cases (w.sectors_count == k)) [
      | inl e ↦ inl (ground (arith, e), update_at k (ground (arith, e)))
      | inr ne ↦
          inr (ground (arith, ne, lt), update_ne w.sector w.sectors_count k n (ground (arith, ne)))
    ]

    old_sector : (k : ℕ) → k < w.sectors_count → (next n w).sector k ≡ w.sector k
    old_sector k lt = update_ne w.sector w.sectors_count k n (λ e. omega (arith, e, lt))

    was_free_n : bit_get data_bmap n ≡ 0
    was_free_n = sym (bit_at_n n w h) ∙ free

    bit_after :
        (m : ℕ) → bit_get (next n w).data_bmap m ≡ (if n == m then 1 else bit_get w.data_bmap m)
    bit_after m = bit_get-bit_set w.data_bmap n m h.bytes

    byte_after :
        (a : ℕ)
        → byte_at (next n w).disk a ≡ (
            if in_data n a
            then data_buffer (w.sectors_count * 512 + (a - sector_at n))
            else byte_at w.disk a)
    byte_after a =
        v.written (data_offset + n) 1 _ w.disk a (omega arith) (omega (arith, v.large, inside))

    bit_here : bit_get (next n w).data_bmap n ≡ 1
    bit_here = let e : (n == n) ≡ true = ground arith in bit_after n ∙ rw e refl

    bit_off : (m : ℕ) → n ≢ m → bit_get (next n w).data_bmap m ≡ bit_get w.data_bmap m
    bit_off m ne = let e : (n == m) ≡ false = ground (arith, ne) in bit_after m ∙ rw e refl

    bit_kept : (m : ℕ) → bit_get w.data_bmap m ≡ 1 → bit_get (next n w).data_bmap m ≡ 1
    bit_kept m one = elim (Bool-cases (n == m)) [
      | inl e ↦ bit_after m ∙ rw e refl
      | inr ne ↦ bit_after m ∙ rw ne one
    ]

    byte_off : (a : ℕ) → in_data n a ≡ false → byte_at (next n w).disk a ≡ byte_at w.disk a
    byte_off a off = byte_after a ∙ rw off refl

    stored_here :
        (k i : ℕ)
        → i < 512
        → k ≡ w.sectors_count
        → (next n w).sector k ≡ n
        → byte_at (next n w).disk (sector_at ((next n w).sector k) + i) ≡ data_buffer (k * 512 + i)
    stored_here k i small here at_n =
        let inside : in_data n (sector_at n + i) ≡ true = ground (arith, small) in
        let index : sector_at n + i - sector_at n ≡ i = omega arith in
        ap (λ (x : ℕ). byte_at (next n w).disk (sector_at x + i)) at_n
        ∙ byte_after (sector_at n + i)
        ∙ rw (inside, index, here) refl

    stored_before :
        (k i : ℕ)
        → i < 512
        → k < w.sectors_count
        → (next n w).sector k ≡ w.sector k
        → byte_at (next n w).disk (sector_at ((next n w).sector k) + i) ≡ data_buffer (k * 512 + i)
    stored_before k i small lt old =
        let outside : in_data n (sector_at (w.sector k) + i) ≡ false =
          ground (arith, small, h.below k lt) in
        ap (λ (x : ℕ). byte_at (next n w).disk (sector_at x + i)) old
        ∙ byte_off (sector_at (w.sector k) + i) outside
        ∙ h.stored k i lt small

    taken_next : IsWriting (n + 1) (next n w)
    taken_next = record {
      count = omega (arith, more);
      bytes = bit_set-IsBytes w.data_bmap n h.bytes;
      below = λ k lt. elim (sector_cases k lt) [
        | inl e ↦ omega (arith, e.1)
        | inr e ↦ omega (arith, e.1, h.below k e.0)
      ];
      was_free = λ k lt. elim (sector_cases k lt) [
        | inl e ↦ ap (bit_get data_bmap) e.1 ∙ was_free_n
        | inr e ↦ ap (bit_get data_bmap) e.1 ∙ h.was_free k e.0
      ];
      rising = λ j k lt lt'. elim (sector_cases k lt') [
        | inl e ↦
            let below = h.below j (omega (arith, e.0, lt)) in
            let old = old_sector j (omega (arith, e.0, lt)) in omega (arith, e.1, old, below)
        | inr e ↦
            let old = old_sector j (omega (arith, e.0, lt)) in
            omega (arith, e.1, old, h.rising j k lt e.0)
      ];
      later = λ k le.
          update_ne w.sector w.sectors_count k n (λ e. omega (arith, e, le))
          ∙ h.later k (omega (arith, le));
      taken = λ k lt. elim (sector_cases k lt) [
        | inl e ↦ ap (bit_get (next n w).data_bmap) e.1 ∙ bit_here
        | inr e ↦ ap (bit_get (next n w).data_bmap) e.1 ∙ bit_kept (w.sector k) (h.taken k e.0)
      ];
      other_bits = λ m away.
          bit_off m (λ e. away w.sectors_count (omega arith) (update_at w.sectors_count refl ∙ e))
          ∙ h.other_bits m (λ k lt e. away k (omega (arith, lt)) (old_sector k lt ∙ e));
      stored = λ k i lt small. elim (sector_cases k lt) [
        | inl e ↦ stored_here k i small e.0 e.1
        | inr e ↦ stored_before k i small e.0 e.1
      ];
      other_bytes = λ a away.
          byte_off a (
            ap (λ (x : ℕ). in_data x a) (sym (update_at w.sectors_count refl))
            ∙ away w.sectors_count (omega arith))
          ∙ h.other_bytes a (λ k lt.
            ap (λ (x : ℕ). in_data x a) (sym (old_sector k lt)) ∙ away k (omega (arith, lt)));
      done = elim h.done [
        | inl e ↦ absurd (omega (arith, e, more))
        | inr e ↦ inr (ap (λ (x : ℕ). x + 1) e ∙ sym (free_below_free data_bmap n was_free_n))
      ];
    }

  -- One round of the loops.
  round_step :
      (i j : ℕ) (w : Writing D)
      → j < 8
      → i * 8 + j < 32768
      → IsWriting (i * 8 + j) w
      → IsWriting (i * 8 + j + 1) (write_round disk_read disk_write sectors data_buffer i j w)
  unfolding write_round
  round_step i j w small inside h = elim (Bool-cases (leb sectors w.sectors_count)) [
    | inl e ↦ rw e (passed (i * 8 + j) w h (inl (ground (arith, e, h.count))))
    | inr more ↦ elim (Bool-cases (bit_and (w.data_bmap i / 2 ^ j) 1 == 0)) [
      | inl e ↦
          let free = bit_get-byte w.data_bmap i j small ∙ (==_iff _ _).0 e in
          rw (more, e, sym (bit_set_byte w.data_bmap i j small))
            (taken_next (i * 8 + j) w h (ground (arith, more)) free inside)
      | inr used ↦
          rw (more, used)
            (passed (i * 8 + j) w h
              (inr (λ z. ground (arith, used, sym (bit_get-byte w.data_bmap i j small) ∙ z))))
    ]
  ]

  bits_step :
      (i j rounds : ℕ) (w : Writing D)
      → j + rounds ≤ 8
      → i * 8 + j + rounds ≤ 32768
      → IsWriting (i * 8 + j) w
      → IsWriting
          (i * 8 + j + rounds)
          (write_bits disk_read disk_write sectors data_buffer i j rounds w)
  unfolding write_bits
  bits_step i j zero w small inside h = let e : i * 8 + j + 0 ≡ i * 8 + j = omega arith in rw e h
  bits_step i j (suc rounds) w small inside h =
      let next_bit = round_step i j w (omega (arith, small)) (omega (arith, inside)) h in
      let e : i * 8 + j + suc rounds ≡ i * 8 + (j + 1) + rounds = omega arith in
      let f : i * 8 + j + 1 ≡ i * 8 + (j + 1) = omega arith in
      rw e (
        bits_step i (j + 1) rounds _ (omega (arith, small)) (omega (arith, inside))
          (rw (sym f) next_bit))

  pub bytes_step :
      (i rounds : ℕ) (w : Writing D)
      → (i + rounds) * 8 ≤ 32768
      → IsWriting (i * 8) w
      → IsWriting
          ((i + rounds) * 8)
          (write_bytes disk_read disk_write sectors data_buffer i rounds w)
  unfolding write_bytes
  bytes_step i zero w inside h = let e : (i + 0) * 8 ≡ i * 8 = omega arith in rw e h
  bytes_step i (suc rounds) w inside h =
      let e : (i + suc rounds) * 8 ≡ (i + 1 + rounds) * 8 = omega arith in
      let f : (i + 1) * 8 ≡ i * 8 + 0 + 8 = omega arith in
      let g : i * 8 + 0 ≡ i * 8 = omega arith in
      rw e (
        bytes_step (i + 1) rounds _ (omega (arith, inside))
          (rw f (bits_step i 0 8 w (omega arith) (omega (arith, inside)) (rw g h))))
