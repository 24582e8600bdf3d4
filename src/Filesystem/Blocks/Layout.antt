-- ===== src/Filesystem/Blocks/Layout.antt =====
-- An inode as the 64 bytes that `write_inode` copies.
use kernel_study.Base.{ℕ, ◌+◌, ◌-◌, ◌*◌, ◌/◌, ◌%◌, ◌^◌, ◌<◌, ◌≤◌, ◌≡◌, refl, arith, ◌∙◌}
use kernel_study.Filesystem.Blocks.{Inode, inode_bytes, inode_of_bytes}

-- The fields fit their types.
pub record IsInode (inode : Inode) : Type 0 where
  pub type : inode.type < 2 ^ 8
  pub size : inode.size < 2 ^ 16
  pub sectors : inode.sectors < 2 ^ 16
  pub sector : (i : ℕ) → i < 14 → inode.sector i < 2 ^ 32

-- The same fields, and the same 14 sectors.
pub record SameInode (a b : Inode) : Type 0 where
  pub type : a.type ≡ b.type
  pub size : a.size ≡ b.size
  pub sectors : a.sectors ≡ b.sectors
  pub sector : (i : ℕ) → i < 14 → a.sector i ≡ b.sector i

-- A byte behind the three scalar fields.
array_byte :
    (padding : ℕ) (inode : Inode) (k : ℕ)
    → 8 ≤ k
    → inode_bytes padding inode k ≡ inode.sector ((k - 8) / 4) / 256 ^ ((k - 8) % 4) % 256
unfolding inode_bytes
array_byte padding inode k h = ground (arith, h)

sector_byte :
    (padding : ℕ) (inode : Inode) (i b k : ℕ)
    → b < 4
    → k ≡ 8 + b + 4 * i
    → inode_bytes padding inode k ≡ inode.sector i / 256 ^ b % 256
sector_byte padding inode i b k h e =
    let q : (k - 8) / 4 ≡ i = omega (arith, h, e) in
    let r : (k - 8) % 4 ≡ b = omega (arith, h, e) in
    array_byte padding inode k (omega (arith, e)) ∙ (rw (q, r) refl)

scalar_bytes :
    (padding : ℕ) (inode : Inode)
    → (inode_bytes padding inode 0 ≡ inode.type)
      × (inode_bytes padding inode 2 ≡ inode.size % 256)
      × (inode_bytes padding inode 3 ≡ inode.size / 256)
      × (inode_bytes padding inode 4 ≡ inode.sectors % 256)
      × (inode_bytes padding inode 5 ≡ inode.sectors / 256)
unfolding inode_bytes
scalar_bytes padding inode = (refl, refl, refl, refl, refl)

-- Four bytes, the lowest first, make up a 32-bit number.
four_bytes :
    (n : ℕ)
    → n < 2 ^ 32
    → n / 256 ^ 0 % 256
        + 256 * (n / 256 ^ 1 % 256)
        + 65536 * (n / 256 ^ 2 % 256)
        + 16777216 * (n / 256 ^ 3 % 256)
      ≡ n
four_bytes n h = omega (arith, h)

-- An inode read from the bytes that hold it is the same inode.
pub inode_of_bytes-inode_bytes :
    (padding : ℕ) (inode : Inode) (b : ℕ → ℕ)
    → IsInode inode
    → ((k : ℕ) → k < 64 → b k ≡ inode_bytes padding inode k)
    → SameInode (inode_of_bytes b) inode
unfolding inode_of_bytes
inode_of_bytes-inode_bytes padding inode b v same =
    let head = scalar_bytes padding inode in
    record {
      type = same 0 (omega arith) ∙ head.0;
      size = omega (arith, same 2 (omega arith), same 3 (omega arith), head.1, head.2, v.size);
      sectors =
          omega (arith, same 4 (omega arith), same 5 (omega arith), head.3, head.4, v.sectors);
      sector = λ i h.
          let byte0 =
            same (8 + 4 * i) (omega (arith, h))
            ∙ sector_byte padding inode i 0 (8 + 4 * i) (omega arith) (omega arith) in
          let byte1 =
            same (9 + 4 * i) (omega (arith, h))
            ∙ sector_byte padding inode i 1 (9 + 4 * i) (omega arith) (omega arith) in
          let byte2 =
            same (10 + 4 * i) (omega (arith, h))
            ∙ sector_byte padding inode i 2 (10 + 4 * i) (omega arith) (omega arith) in
          let byte3 =
            same (11 + 4 * i) (omega (arith, h))
            ∙ sector_byte padding inode i 3 (11 + 4 * i) (omega arith) (omega arith) in
          rw (byte0, byte1, byte2, byte3) (four_bytes (inode.sector i) (v.sector i h));
    }

-- The inode depends on the 64 bytes alone.
pub inode_of_bytes-same :
    (b c : ℕ → ℕ) → ((k : ℕ) → k < 64 → b k ≡ c k) → SameInode (inode_of_bytes b) (inode_of_bytes c)
unfolding inode_of_bytes
inode_of_bytes-same b c e = record {
  type = e 0 (omega arith);
  size = omega (arith, e 2 (omega arith), e 3 (omega arith));
  sectors = omega (arith, e 4 (omega arith), e 5 (omega arith));
  sector = λ i h. omega (
    arith,
    e (8 + 4 * i) (omega (arith, h)),
    e (9 + 4 * i) (omega (arith, h)),
    e (10 + 4 * i) (omega (arith, h)),
    e (11 + 4 * i) (omega (arith, h)),
  );
}
