-- ===== src/Filesystem/Inodes.antt =====
-- `alloc_inode_num` takes the first free inode.
use mathlib.Core.Path.{subst}
use kernel_study.Base.{
  ℕ, zero, suc, ◌+◌, ◌*◌, ◌/◌, ◌%◌, ◌^◌, ◌<◌, ◌≤◌, ◌≡◌, ◌≢◌, refl, ◌⊎◌, inl, inr, bit_and, none,
  some, arith, ◌==◌, Bool-cases, ==_iff, false, ℕ_discrete, ◌∙◌, dec_lt,
}
use kernel_study.Memory.Bitmap.{Bytes, bit_get, bit_set}
use kernel_study.Filesystem.{free_bit_from, free_inode_from, alloc_inode_num}

used_from :
    (byte j top : ℕ)
    → (bit_and (byte / 2 ^ j) 1 == 0) ≡ false
    → ((k : ℕ) → j + 1 ≤ k → k < top → bit_and (byte / 2 ^ k) 1 ≢ 0)
    → (k : ℕ) → j ≤ k
    → k < top
    → bit_and (byte / 2 ^ k) 1 ≢ 0
used_from byte j top used later k low high = elim (ℕ_discrete j k) [
  | yes e ↦ subst (λ (t : ℕ). bit_and (byte / 2 ^ t) 1 ≢ 0) e (ground (arith, used))
  | no ne ↦ later k (omega (arith, low, ne)) high
]

-- What the search of a byte finds.
free_bit_lem :
    (byte j rounds : ℕ)
    → ((free_bit_from byte j rounds ≡ none)
        × ((k : ℕ) → j ≤ k → k < j + rounds → bit_and (byte / 2 ^ k) 1 ≢ 0))
      ⊎ ((b : ℕ) × (free_bit_from byte j rounds ≡ some b)
          × (j ≤ b)
          × (b < j + rounds)
          × (bit_and (byte / 2 ^ b) 1 ≡ 0)
          × ((k : ℕ) → j ≤ k → k < b → bit_and (byte / 2 ^ k) 1 ≢ 0))
unfolding free_bit_from
free_bit_lem byte j zero = inl (refl, λ k low high. absurd (omega (arith, low, high)))
free_bit_lem byte j (suc rounds) = elim (Bool-cases (bit_and (byte / 2 ^ j) 1 == 0)) [
  | inl is_free ↦ inr (
    j,
    rw is_free refl,
    omega arith,
    omega arith,
    (==_iff _ _).0 is_free,
    λ k low high. absurd (omega (arith, low, high)),
  )
  | inr used ↦ elim (free_bit_lem byte (j + 1) rounds) [
    | inl (e, all) ↦ inl (
      rw used e,
      used_from byte j (j + suc rounds) used (λ k low high. all k low (omega (arith, high))),
    )
    | inr (b, e, low, high, zero_bit, before) ↦ inr (
      b,
      rw used e,
      omega (arith, low),
      omega (arith, high),
      zero_bit,
      used_from byte j b used before,
    )
  ]
]

-- A bit of the bitmap by its byte.
pub bit_get-byte :
    (bmap : Bytes) (i j : ℕ) → j < 8 → bit_get bmap (i * 8 + j) ≡ bit_and (bmap i / 2 ^ j) 1
unfolding bit_get
bit_get-byte bmap i j h =
    let e : (i * 8 + j) / 8 ≡ i = omega (arith, h) in
    let f : (i * 8 + j) % 8 ≡ j = omega (arith, h) in rw (e, f) refl

-- The bits of one byte that are set, numbered in the bitmap.
byte_used :
    (bmap : Bytes) (i top : ℕ)
    → top ≤ 8
    → ((b : ℕ) → 0 ≤ b → b < top → bit_and (bmap i / 2 ^ b) 1 ≢ 0)
    → (k : ℕ) → i * 8 ≤ k
    → k < i * 8 + top
    → bit_get bmap k ≢ 0
unfolding bit_get
byte_used bmap i top small used k low high =
    let e : k / 8 ≡ i = omega (arith, small, low, high) in
    rw e (used (k % 8) (omega arith) (omega (arith, small, low, high)))

-- Two ranges in which every bit is set.
join :
    (bmap : Bytes) (low mid high : ℕ)
    → ((k : ℕ) → low ≤ k → k < mid → bit_get bmap k ≢ 0)
    → ((k : ℕ) → mid ≤ k → k < high → bit_get bmap k ≢ 0)
    → (k : ℕ) → low ≤ k
    → k < high
    → bit_get bmap k ≢ 0
join bmap low mid high first second k p q = elim (dec_lt k mid) [
  | yes h ↦ first k p h
  | no h ↦ second k (omega (arith, h)) q
]

free_inode_lem :
    (bmap : Bytes) (i rounds : ℕ)
    → ((free_inode_from bmap i rounds ≡ none)
        × ((k : ℕ) → i * 8 ≤ k → k < (i + rounds) * 8 → bit_get bmap k ≢ 0))
      ⊎ ((a : ℕ) × (b : ℕ) × (free_inode_from bmap i rounds ≡ some (a, b))
          × (b < 8)
          × (a < i + rounds)
          × (bit_get bmap (a * 8 + b) ≡ 0)
          × ((k : ℕ) → i * 8 ≤ k → k < a * 8 + b → bit_get bmap k ≢ 0))
unfolding free_inode_from
free_inode_lem bmap i zero = inl (refl, λ k low high. absurd (omega (arith, low, high)))
free_inode_lem bmap i (suc rounds) = elim (free_bit_lem (bmap i) 0 8) [
  | inr (b, e, low, high, zero_bit, before) ↦ inr (
    i,
    b,
    rw e refl,
    omega (arith, high),
    omega arith,
    bit_get-byte bmap i b (omega (arith, high)) ∙ zero_bit,
    λ k p q. byte_used bmap i b (omega (arith, high)) before k p q,
  )
  | inl (e, all) ↦
      let here = byte_used bmap i 8 (omega arith) (λ b p q. all b p (omega (arith, q))) in
      elim (free_inode_lem bmap (i + 1) rounds) [
        | inl (none_later, later) ↦ inl (
          rw e none_later,
          λ k p q.
              join bmap (i * 8) ((i + 1) * 8) ((i + suc rounds) * 8)
                (λ k p q. here k p (omega (arith, q))) (λ k p q. later k p (omega (arith, q))) k p
                q,
        )
        | inr (a, b, found, small, inside, zero_bit, before) ↦ inr (
          a,
          b,
          rw e found,
          small,
          omega (arith, inside),
          zero_bit,
          join bmap (i * 8) ((i + 1) * 8) (a * 8 + b) (λ k p q. here k p (omega (arith, q))) before,
        )
      ]
]

-- `alloc_inode_num` takes the lowest inode whose bit is 0 and sets that bit alone in the bitmap that
-- it writes back; it returns -1 exactly when all 32768 bits are set.
pub alloc_inode_num_first :
    (bmap : Bytes)
    → ((alloc_inode_num bmap ≡ none) × ((k : ℕ) → k < 32768 → bit_get bmap k ≢ 0))
      ⊎ ((n : ℕ) × (alloc_inode_num bmap ≡ some (n, bit_set bmap n))
          × (n < 32768)
          × (bit_get bmap n ≡ 0)
          × ((k : ℕ) → k < n → bit_get bmap k ≢ 0))
unfolding alloc_inode_num bit_set
alloc_inode_num_first bmap = elim (free_inode_lem bmap 0 4096) [
  | inl (e, all) ↦ inl (rw e refl, λ k h. all k (omega arith) (omega (arith, h)))
  | inr (a, b, e, small, inside, zero_bit, before) ↦
      let q : (a * 8 + b) / 8 ≡ a = omega (arith, small) in
      let r : (a * 8 + b) % 8 ≡ b = omega (arith, small) in
      inr (
        a * 8 + b,
        rw (e, q, r) refl,
        omega (arith, small, inside),
        zero_bit,
        λ k h. before k (omega arith) h,
      )
]
