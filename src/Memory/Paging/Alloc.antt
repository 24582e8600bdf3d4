-- ===== src/Memory/Paging/Alloc.antt =====
-- A page that the kernel takes and clears: the page tables stay what they were.
use kernel_study.Base.{
  inl, inr, ℕ, ◌+◌, ◌*◌, ◌/◌, ◌^◌, ◌<◌, ◌≡◌, ◌≢◌, refl, false, ◌==◌, if◌then◌else◌, arith,
  Bool-cases, ap, ◌∙◌, sym,
}
use kernel_study.Memory.Align.{pde_index}
use kernel_study.Memory.Bitmap.{bit_get}
use kernel_study.Memory.Pmm.{pmm_alloc}
use kernel_study.Memory.Pmm.Alloc.{FreeAt, Allocated, pmm_alloc-Allocated, pmm_alloc-IsPmm}
use kernel_study.Memory.Paging.{Paging, tmp_slot, alloc_zeroed}
use kernel_study.Memory.Paging.Tmp.{in_words, alloc_zeroed-kept, alloc_zeroed-phys}
use kernel_study.Memory.Paging.Frames.{
  entry_addr, walk, IsPaging, SamePage, tmp_slot-entry_addr, entry_not_slot, table_not_free,
  entry_addr-page,
}

-- Page `page` holds no page table of the kernel.
abbrev pub NotTable : Paging → ℕ → Type 0
NotTable s page =
    (d : ℕ) → d < 1024 → s.kernel_page_directory d ≢ 0 → s.kernel_page_directory d / 4096 ≢ page

-- The walk depends on one word and on the directory.
pub walk_frame :
    (s t : Paging) (a : ℕ)
    → t.kernel_page_directory (pde_index a) ≡ s.kernel_page_directory (pde_index a)
    → (s.kernel_page_directory (pde_index a) ≢ 0
        → t.phys (entry_addr s a) ≡ s.phys (entry_addr s a))
    → walk t a ≡ walk s a
walk_frame s t a e f = elim (Bool-cases (s.kernel_page_directory (pde_index a) == 0)) [
  | inl z ↦ rw (e, z) refl
  | inr n ↦ rw (e, n, f (ground (arith, n))) refl
]

module _ (s : Paging) (v : IsPaging s) (t : ℕ) (free : FreeAt s.pmm 1 t) where
  got : Allocated s.pmm 1 (pmm_alloc 1 s.pmm)
  got = pmm_alloc-Allocated 1 s.pmm v.pmm (omega arith) (omega arith) t free

  abbrev pub page : ℕ
  page = (pmm_alloc 1 s.pmm).0 / 4096

  abbrev pub taken : Paging
  taken = record s { pmm = (pmm_alloc 1 s.pmm).1; phys = (alloc_zeroed s).1.phys }

  pub page_inside :
      (page < s.pmm.bitmap_size) × ((pmm_alloc 1 s.pmm).1.bitmap_size ≡ s.pmm.bitmap_size)
  page_inside =
      let at : (pmm_alloc 1 s.pmm).0 ≡ got.page * 4096 = got.address in
      (omega (arith, at, got.was_free.inside), got.size)

  pub page_facts :
      ((pmm_alloc 1 s.pmm).0 ≡ page * 4096)
      × (page < 2 ^ 20)
      × (bit_get s.pmm.bitmap page ≡ 0)
      × ((j : ℕ)
          → bit_get (pmm_alloc 1 s.pmm).1.bitmap j
            ≡ (if j == page then 1 else bit_get s.pmm.bitmap j))
  page_facts =
      let at : (pmm_alloc 1 s.pmm).0 ≡ got.page * 4096 = got.address in
      let same : page ≡ got.page = omega (arith, at) in
      (
        omega (arith, at, same),
        omega (arith, same, got.was_free.inside, v.pmm.small),
        ground (arith, got.was_free.free 0, same),
        λ j. ground (arith, got.bits j, same),
      )

  pub not_slot : tmp_slot s / 4096 ≢ page
  not_slot e =
      let i = entry_addr-page s s.tmp_map_addr v.tmp_word in
      table_not_free s v s.tmp_map_addr page v.tmp_word v.tmp_table page_facts.2
        (sym i.0 ∙ sym (ap (λ (a : ℕ). a / 4096) (tmp_slot-entry_addr s v)) ∙ e)

  small : (pmm_alloc 1 s.pmm).0 < 2 ^ 32
  small = omega (arith, page_facts.0, page_facts.1)

  pub alloc_zeroed-taken : alloc_zeroed s ≡ (page * 4096, taken)
  alloc_zeroed-taken = alloc_zeroed-kept s not_slot small ∙ ap (λ (a : ℕ). (a, taken)) page_facts.0

  pub taken-phys :
      (a : ℕ)
      → taken.phys a
        ≡ (if a == tmp_slot s then 0 else if in_words (page * 4096) 0 1024 a then 0 else s.phys a)
  taken-phys a =
      alloc_zeroed-phys s not_slot small a
      ∙ ap (λ (p : ℕ). if a == tmp_slot s then 0 else if in_words p 0 1024 a then 0 else s.phys a)
          page_facts.0

  pub taken-IsPaging : IsPaging taken
  taken-IsPaging = record {
    pmm = pmm_alloc-IsPmm 1 s.pmm v.pmm;
    words = v.words;
    used =
        λ d lt ne. ground (arith, page_facts.3 (s.kernel_page_directory d / 4096), v.used d lt ne);
    apart = v.apart;
    tmp_word = v.tmp_word;
    tmp_table = v.tmp_table;
  }

  pub taken-NotTable : NotTable taken page
  taken-NotTable d lt ne e =
      ground (arith, v.used d lt ne, ap (bit_get s.pmm.bitmap) e, page_facts.2)

  pub taken-kept : (a : ℕ) → a ≢ tmp_slot s → a / 4096 ≢ page → taken.phys a ≡ s.phys a
  taken-kept a slot far =
      let out : in_words (page * 4096) 0 1024 a ≡ false = ground (arith, far) in
      let away : (a == tmp_slot s) ≡ false = ground (arith, slot) in
      taken-phys a ∙ (rw (away, out) refl)

  pub taken-walk : (a : ℕ) → a < 2 ^ 32 → ¬ SamePage a s.tmp_map_addr → walk taken a ≡ walk s a
  taken-walk a w other = walk_frame s taken a refl (λ ne.
      let slot = entry_not_slot s v a w other ne in
      let far = table_not_free s v a page w ne page_facts.2 in
      let e = entry_addr-page s a w in taken-kept (entry_addr s a) slot (λ q. far (sym e.0 ∙ q)))

  -- The new page is clear.
  pub taken-clear : (i : ℕ) → i < 1024 → taken.phys (page * 4096 + 4 * i) ≡ 0
  taken-clear i lt = ground (arith, taken-phys (page * 4096 + 4 * i), lt)
