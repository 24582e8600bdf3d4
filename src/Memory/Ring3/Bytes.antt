-- ===== src/Memory/Ring3/Bytes.antt =====
-- The program is copied byte by byte into the open page.
use kernel_study.Base.{
  ℕ, zero, suc, ◌+◌, ◌-◌, ◌*◌, ◌/◌, ◌%◌, ◌^◌, ◌<◌, ◌≤◌, ◌≡◌, ◌≢◌, refl, true, false, ◌&&◌, ◌==◌,
  some, leb, ltb, if◌then◌else◌, bit_and, u8, u32, update, update_ne, arith, ap, ◌⊎◌, inl, inr,
  Bool-cases, ◌∙◌,
}
use kernel_study.Memory.Align.{page_present, pde_index, pte_index, indices_of_address}
use kernel_study.Memory.Paging.{Paging, tmp_slot}
use kernel_study.Memory.Paging.Tmp.{with_phys}
use kernel_study.Memory.Ring3.{set_byte, store_byte, copy_code}
use kernel_study.Memory.Ring3.Open.{IsOpen, open_update}

-- Byte `k` of page `p`.
abbrev pub byte_of : (f : ℕ → ℕ) → (p k : ℕ) → ℕ
byte_of f p k = f (p * 4096 + k / 4 * 4) / 256 ^ (k % 4) % 256

by_four : (P : ℕ → Type 0) → P 0 → P 1 → P 2 → P 3 → (k : ℕ) → k < 4 → P k
by_four P a b c d zero lt = a
by_four P a b c d (suc zero) lt = b
by_four P a b c d (suc (suc zero)) lt = c
by_four P a b c d (suc (suc (suc zero))) lt = d
by_four P a b c d (suc (suc (suc (suc k)))) lt = absurd (omega (arith, lt))

set_byte_self : (w k v : ℕ) → k < 4 → set_byte w k v / 256 ^ k % 256 ≡ v % 256
unfolding set_byte
set_byte_self w k v lt =
    by_four
      (λ (j : ℕ). (w - w / 256 ^ j % 256 * 256 ^ j + u8 v * 256 ^ j) / 256 ^ j % 256 ≡ v % 256)
      (omega arith) (omega arith) (omega arith) (omega arith) k lt

abbrev KeptByte : (w v k j : ℕ) → Type 0
KeptByte w v k j =
    (k ≡ j)
    ⊎ ((w - w / 256 ^ k % 256 * 256 ^ k + u8 v * 256 ^ k) / 256 ^ j % 256 ≡ w / 256 ^ j % 256)

set_byte_other :
    (w k j v : ℕ) → k < 4 → j < 4 → k ≢ j → set_byte w k v / 256 ^ j % 256 ≡ w / 256 ^ j % 256
unfolding set_byte
set_byte_other w k j v lt lt' ne =
    let all : KeptByte w v k j =
      by_four (λ (i : ℕ). KeptByte w v i j)
        (by_four (KeptByte w v 0) (inl refl) (inr (omega arith)) (inr (omega arith))
          (inr (omega arith)) j lt')
        (by_four (KeptByte w v 1) (inr (omega arith)) (inl refl) (inr (omega arith))
          (inr (omega arith)) j lt')
        (by_four (KeptByte w v 2) (inr (omega arith)) (inr (omega arith)) (inl refl)
          (inr (omega arith)) j lt')
        (by_four (KeptByte w v 3) (inr (omega arith)) (inr (omega arith)) (inr (omega arith))
          (inl refl) j lt')
        k lt in
    elim all [ inl e ↦ absurd (ne e) | inr e ↦ e ]

-- A byte of the page after one byte of it is written.
byte_of-update :
    (f : ℕ → ℕ) (p i v k : ℕ)
    → i < 4096
    → byte_of (update f (p * 4096 + i / 4 * 4) (set_byte (f (p * 4096 + i / 4 * 4)) (i % 4) v)) p k
      ≡ (if i == k then v % 256 else byte_of f p k)
unfolding update
byte_of-update f p i v k lt = elim (Bool-cases (i == k)) [
  | inl e ↦
      let here : (p * 4096 + i / 4 * 4 == p * 4096 + k / 4 * 4) ≡ true = ground (arith, e) in
      let same : k % 4 ≡ i % 4 = ground (arith, e) in
      rw (e, here, same) (set_byte_self (f (p * 4096 + i / 4 * 4)) (i % 4) v (omega arith))
  | inr ne ↦ elim (Bool-cases (i / 4 == k / 4)) [
    | inl e ↦
        let here : (p * 4096 + i / 4 * 4 == p * 4096 + k / 4 * 4) ≡ true = ground (arith, e) in
        let same : i / 4 ≡ k / 4 = ground (arith, e) in
        rw (ne, here, same)
          (set_byte_other (f (p * 4096 + k / 4 * 4)) (i % 4) (k % 4) v (omega arith) (omega arith)
            (λ q. ground (arith, ne, e, q)))
    | inr out ↦
        let away : (p * 4096 + i / 4 * 4 == p * 4096 + k / 4 * 4) ≡ false = ground (arith, out) in
        rw (ne, away) refl
  ]
]

next_byte :
    (code : ℕ → ℕ) (i rounds k old b : ℕ)
    → b ≡ (if i == k then code i % 256 else old)
    → (if leb (i + 1) k && ltb k (i + 1 + rounds) then code k % 256 else b)
      ≡ (if leb i k && ltb k (i + suc rounds) then code k % 256 else old)
next_byte code i rounds k old b e = elim (Bool-cases (i == k)) [
  | inl h ↦
      let same : i ≡ k = ground (arith, h) in
      let value : b ≡ code k % 256 = e ∙ rw h (ap (λ (x : ℕ). code x % 256) same) in
      ground (arith, value, h)
  | inr ne ↦ ground (arith, e, ne)
]

module _ (u : Paging) (p : ℕ) (apart : tmp_slot u / 4096 ≢ p) (word : u.tmp_map_addr < 2 ^ 32)
    (aligned : u.tmp_map_addr % 4096 ≡ 0)
    (table : bit_and (u.kernel_page_directory (pde_index u.tmp_map_addr)) page_present ≡ 1) where
  -- The indices of an address in the page at `tmp_map_addr`.
  same_indices :
      (i : ℕ)
      → i < 4096
      → (u32 (u.tmp_map_addr + i) % 4096 ≡ i)
        × (pde_index (u32 (u.tmp_map_addr + i)) ≡ pde_index u.tmp_map_addr)
        × (pte_index (u32 (u.tmp_map_addr + i)) ≡ pte_index u.tmp_map_addr)
  same_indices i lt =
      let a = indices_of_address u.tmp_map_addr word in
      let b = indices_of_address (u32 (u.tmp_map_addr + i)) (omega arith) in
      (
        omega (arith, word, aligned, lt),
        omega (arith, word, aligned, lt, a.0, a.1, a.2, b.0, b.1, b.2),
        omega (arith, word, aligned, lt, a.0, a.1, a.2, b.0, b.1, b.2),
      )

  abbrev new_word : (f : ℕ → ℕ) → (i v : ℕ) → ℕ → ℕ
  new_word f i v = let w = p * 4096 + i / 4 * 4 in update f w (set_byte (f w) (i % 4) v)

  store_byte_open :
      (f : ℕ → ℕ) (s : Paging) (i v : ℕ)
      → i < 4096
      → IsOpen u p f s
      → (s' : Paging) × (store_byte (u32 (s.tmp_map_addr + i)) v s ≡ some s')
        × IsOpen u p (new_word f i v) s'
  unfolding store_byte
  store_byte_open f s i v lt o =
      let w : ℕ = p * 4096 + i / 4 * 4 in
      let x = same_indices i lt in
      let tmp : s.tmp_map_addr ≡ u.tmp_map_addr = ap (λ (t : Paging). t.tmp_map_addr) o.kept in
      let dir : s.kernel_page_directory ≡ u.kernel_page_directory =
        ap (λ (t : Paging). t.kernel_page_directory) o.kept in
      let far : w ≢ tmp_slot u = λ e. apart (omega (arith, e, lt)) in
      let low : u32 (u.tmp_map_addr + i) % 4 ≡ i % 4 = omega (arith, word, aligned, lt) in
      (
        with_phys (update s.phys w (set_byte (s.phys w) (i % 4) v)) s,
        rw (tmp, dir, x.1, x.2, x.0, table, o.page, o.present, low) refl,
        rw (o.words w far)
            (open_update u p apart f s w (set_byte (f w) (i % 4) v) (omega (arith, lt)) o),
      )

  -- What the copied program leaves in the page.
  pub record Copied (code : ℕ → ℕ) (i rounds : ℕ) (f : ℕ → ℕ) (s : Paging) : Type 0 where
    pub state : Paging
    pub words : ℕ → ℕ
    pub result : copy_code code i rounds s ≡ some state
    pub is_open : IsOpen u p words state
    pub others : (a : ℕ) → a / 4096 ≢ p → words a ≡ f a
    pub bytes :
        (k : ℕ)
        → byte_of words p k
          ≡ (if leb i k && ltb k (i + rounds) then code k % 256 else byte_of f p k)

  pub copy_code-Copied :
      (code : ℕ → ℕ) (i rounds : ℕ) (f : ℕ → ℕ) (s : Paging)
      → i + rounds ≤ 4096
      → IsOpen u p f s
      → Copied code i rounds f s
  unfolding copy_code mathlib.Core.Option.bind
  copy_code-Copied code i zero f s fits o = record {
    state = s;
    words = f;
    result = refl;
    is_open = o;
    others = λ a ne. refl;
    bytes = λ k. let out : (leb i k && ltb k (i + 0)) ≡ false = ground arith in rw out refl;
  }
  copy_code-Copied code i (suc rounds) f s fits o =
      let first = store_byte_open f s i (code i) (omega (arith, fits)) o in
      let rest =
        copy_code-Copied code (i + 1) rounds (new_word f i (code i)) first.0 (omega (arith, fits))
          first.2 in
      record {
        state = rest.state;
        words = rest.words;
        result = rw first.1 rest.result;
        is_open = rest.is_open;
        others = λ a ne.
            rest.others a ne
            ∙ update_ne f (p * 4096 + i / 4 * 4) a _ (λ e. ne (omega (arith, e, fits)));
        bytes = λ k.
            rest.bytes k
            ∙ next_byte code i rounds k (byte_of f p k) _
                (byte_of-update f p i (code i) k (omega (arith, fits)));
      }
