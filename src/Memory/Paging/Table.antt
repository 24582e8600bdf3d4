-- ===== src/Memory/Paging/Table.antt =====
-- The step of `mmap` that gives an address a page table.
use kernel_study.Base.{
  ◌⊎◌, inl, inr, ℕ, ◌+◌, ◌*◌, ◌/◌, ◌^◌, ◌<◌, ◌≡◌, ◌≢◌, refl, true, false, ◌==◌, if◌then◌else◌,
  arith, Bool-cases, ap, ◌∙◌, sym, bit_and, bit_or, update,
}
use kernel_study.Memory.Align.{pde_index, pte_index, page_mask, page_entry, indices_of_address}
use kernel_study.Memory.Bitmap.{bit_get}
use kernel_study.Memory.Pmm.Alloc.{FreeAt}
use kernel_study.Memory.Paging.{Paging, tmp_slot, need_table}
use kernel_study.Memory.Paging.Frames.{
  walk, IsPaging, SamePage, tmp_slot-entry_addr, entry_addr-page,
}
use kernel_study.Memory.Paging.Alloc.{
  NotTable, walk_frame, page, taken, page_facts, alloc_zeroed-taken, taken-IsPaging, taken-NotTable,
  taken-walk, taken-kept, taken-clear,
}

-- `s'` is `s` with a page table for `base_addr`: what was mapped stays mapped, and the page `held`, which is
-- in use and no page table, keeps its words.
pub record HasTable (s s' : Paging) (base_addr held : ℕ) : Type 0 where
  pub paging : IsPaging s'
  pub table : s'.kernel_page_directory (pde_index base_addr) ≢ 0
  pub walks : (a : ℕ) → a < 2 ^ 32 → ¬ SamePage a s.tmp_map_addr → walk s' a ≡ walk s a
  pub not_table : NotTable s' held
  pub kept : (a : ℕ) → a / 4096 ≡ held → s'.phys a ≡ s.phys a
  pub tmp : s'.tmp_map_addr ≡ s.tmp_map_addr
  pub kheap : s'.kheap_pages ≡ s.kheap_pages

pub slot_not_held :
    (s : Paging) → IsPaging s → (held : ℕ) → NotTable s held → tmp_slot s / 4096 ≢ held
slot_not_held s v held n e =
    let i = entry_addr-page s s.tmp_map_addr v.tmp_word in
    n (pde_index s.tmp_map_addr) (indices_of_address s.tmp_map_addr v.tmp_word).0 v.tmp_table
      (sym i.0 ∙ sym (ap (λ (a : ℕ). a / 4096) (tmp_slot-entry_addr s v)) ∙ e)

module _ (s : Paging) (v : IsPaging s) (base_addr flags held : ℕ) (w : base_addr < 2 ^ 32)
    (f : flags < 4096) (f_ne : flags ≢ 0) (t : ℕ) (free : FreeAt s.pmm 1 t)
    (held_used : bit_get s.pmm.bitmap held ≡ 1) (n : NotTable s held) where
  abbrev d : ℕ
  d = pde_index base_addr

  abbrev p : ℕ
  p = page s v t free

  abbrev entry : ℕ
  entry = bit_or (bit_and (p * 4096) page_mask) flags

  abbrev tabled : Paging
  tabled = record (taken s v t free) {
    kernel_page_directory = update s.kernel_page_directory d entry;
  }

  facts : (entry ≡ p * 4096 + flags) × (entry / 4096 ≡ p) × (entry < 2 ^ 32) × (entry ≢ 0)
  facts =
      let at = (page_facts s v t free).1 in
      let e : entry ≡ p * 4096 / 4096 * 4096 + flags =
        page_entry (p * 4096) flags (omega (arith, at)) f in
      (
        omega (arith, e),
        omega (arith, e, f),
        omega (arith, e, f, at),
        λ z. f_ne (omega (arith, e, z)),
      )

  directory :
      (k : ℕ)
      → tabled.kernel_page_directory k ≡ (if d == k then entry else s.kernel_page_directory k)
  unfolding update
  directory k = refl

  pub need_table_there : s.kernel_page_directory d ≢ 0 → need_table base_addr flags s ≡ s
  unfolding need_table
  need_table_there ne =
      let no : (s.kernel_page_directory d == 0) ≡ false = ground (arith, ne) in rw no refl

  need_table_new : s.kernel_page_directory d ≡ 0 → need_table base_addr flags s ≡ tabled
  unfolding need_table
  need_table_new z =
      let yes : (s.kernel_page_directory d == 0) ≡ true = ground (arith, z) in
      rw (yes, alloc_zeroed-taken s v t free) refl

  dir_cases :
      (k : ℕ)
      → ((d ≡ k) × (tabled.kernel_page_directory k ≡ entry))
        ⊎ ((d ≢ k) × (tabled.kernel_page_directory k ≡ s.kernel_page_directory k))
  dir_cases k = elim (Bool-cases (d == k)) [
    | inl y ↦ inl (ground (arith, y), ground (arith, y, directory k))
    | inr o ↦ inr (ground (arith, o), ground (arith, o, directory k))
  ]

  new_page_used : bit_get (taken s v t free).pmm.bitmap p ≡ 1
  new_page_used = ground (arith, (page_facts s v t free).3 p)

  new_apart :
      (k : ℕ) → k < 1024 → s.kernel_page_directory k ≢ 0 → s.kernel_page_directory k / 4096 ≢ p
  new_apart = taken-NotTable s v t free

  module _ (z : s.kernel_page_directory d ≡ 0) where
    tabled_used :
        (k : ℕ)
        → k < 1024
        → tabled.kernel_page_directory k ≢ 0
        → bit_get (taken s v t free).pmm.bitmap (tabled.kernel_page_directory k / 4096) ≡ 1
    tabled_used k lt ne = elim (dir_cases k) [
      | inl e ↦ rw (e.1, facts.1) new_page_used
      | inr e ↦ rw e.1 ((taken-IsPaging s v t free).used k lt (λ q. ne (e.1 ∙ q)))
    ]

    tabled_apart :
        (k l : ℕ)
        → k < 1024
        → l < 1024
        → tabled.kernel_page_directory k ≢ 0
        → tabled.kernel_page_directory l ≢ 0
        → tabled.kernel_page_directory k / 4096 ≡ tabled.kernel_page_directory l / 4096
        → k ≡ l
    tabled_apart k l lk ll nk nl same = elim (dir_cases k) [
      | inl e ↦ elim (dir_cases l) [
        | inl e' ↦ sym e.0 ∙ e'.0
        | inr e' ↦
            absurd (new_apart l ll (λ q. nl (e'.1 ∙ q)) (omega (arith, same, e.1, e'.1, facts.1)))
      ]
      | inr e ↦ elim (dir_cases l) [
        | inl e' ↦
            absurd (new_apart k lk (λ q. nk (e.1 ∙ q)) (omega (arith, same, e.1, e'.1, facts.1)))
        | inr e' ↦
            v.apart k l lk ll (λ q. nk (e.1 ∙ q)) (λ q. nl (e'.1 ∙ q))
              (omega (arith, same, e.1, e'.1))
      ]
    ]

    tabled-IsPaging : IsPaging tabled
    tabled-IsPaging = record {
      pmm = (taken-IsPaging s v t free).pmm;
      words = λ k. elim (dir_cases k) [
        | inl e ↦ omega (arith, e.1, facts.2)
        | inr e ↦ omega (arith, e.1, v.words k)
      ];
      used = tabled_used;
      apart = tabled_apart;
      tmp_word = v.tmp_word;
      tmp_table = elim (dir_cases (pde_index s.tmp_map_addr)) [
        | inl e ↦ λ q. facts.3 (sym e.1 ∙ q)
        | inr e ↦ λ q. v.tmp_table (sym e.1 ∙ q)
      ];
    }

    tabled-walk : (a : ℕ) → a < 2 ^ 32 → ¬ SamePage a s.tmp_map_addr → walk tabled a ≡ walk s a
    tabled-walk a wa o = elim (dir_cases (pde_index a)) [
      | inl e ↦
          let empty : s.kernel_page_directory (pde_index a) ≡ 0 =
            ap s.kernel_page_directory (sym e.0) ∙ z in
          let clear = taken-clear s v t free (pte_index a) (indices_of_address a wa).1 in
          let there : (entry == 0) ≡ false = ground (arith, facts.3) in
          rw (empty, e.1, facts.1, there, clear) refl
      | inr e ↦
          walk_frame (taken s v t free) tabled a e.1
            (λ ne. ap (λ (q : ℕ). (taken s v t free).phys (q / 4096 * 4096 + 4 * pte_index a)) refl)
          ∙ taken-walk s v t free a wa o
    ]

    tabled-HasTable : HasTable s tabled base_addr held
    tabled-HasTable = record {
      paging = tabled-IsPaging;
      table = elim (dir_cases d) [ inl e ↦ λ q. facts.3 (sym e.1 ∙ q) | inr e ↦ absurd (e.0 refl) ];
      walks = tabled-walk;
      not_table = λ k lt ne. elim (dir_cases k) [
        | inl e ↦ λ q. ground (
          arith,
          (page_facts s v t free).2,
          held_used,
          ap (bit_get s.pmm.bitmap) (sym facts.1 ∙ ap (λ (x : ℕ). x / 4096) (sym e.1) ∙ q),
        )
        | inr e ↦ λ q. n k lt (λ y. ne (e.1 ∙ y)) (sym (ap (λ (x : ℕ). x / 4096) e.1) ∙ q)
      ];
      kept = λ a e.
          taken-kept s v t free a
            (λ q. slot_not_held s v held n (ap (λ (x : ℕ). x / 4096) (sym q) ∙ e))
            (λ q.
              ground (
                arith,
                (page_facts s v t free).2,
                held_used,
                ap (bit_get s.pmm.bitmap) (sym q ∙ e),
              ));
      tmp = refl;
      kheap = refl;
    }

  pub need_table-HasTable : HasTable s (need_table base_addr flags s) base_addr held
  need_table-HasTable = elim (Bool-cases (s.kernel_page_directory d == 0)) [
    | inl z ↦ rw (need_table_new (ground (arith, z))) (tabled-HasTable (ground (arith, z)))
    | inr ne ↦ rw (need_table_there (ground (arith, ne))) (record {
      paging = v;
      table = ground (arith, ne);
      walks = λ a wa o. refl;
      not_table = n;
      kept = λ a e. refl;
      tmp = refl;
      kheap = refl;
    })
  ]
