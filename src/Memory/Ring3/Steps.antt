-- ===== src/Memory/Ring3/Steps.antt =====
-- Each new page of `mmap_ring3`: what is in it once it is closed.
use kernel_study.Base.{
  ℕ, zero, suc, ◌+◌, ◌*◌, ◌/◌, ◌%◌, ◌^◌, ◌<◌, ◌≤◌, ◌≡◌, ◌≢◌, refl, ◌&&◌, ◌==◌, some, leb, ltb,
  if◌then◌else◌, bit_and, update, update_ne, arith, ap, inl, inr, Bool-cases, ◌∙◌, sym,
}
use kernel_study.Memory.Align.{page_present, pde_index}
use kernel_study.Memory.Pmm.{pmm_alloc}
use kernel_study.Memory.Pmm.Alloc.{FreeAt}
use kernel_study.Memory.Paging.{
  Paging, tmp_slot, unmap_tmp_page, tmp_set, alloc_cleared, alloc_zeroed,
}
use kernel_study.Memory.Paging.Tmp.{with_phys, in_words}
use kernel_study.Memory.Paging.Frames.{IsPaging}
use kernel_study.Memory.Paging.Alloc.{page, page_facts, not_slot}
use kernel_study.Memory.Ring3.{code_page, user_entry, user_table, copy_kernel, user_directory}
use kernel_study.Memory.Ring3.Open.{IsOpen, open_set, open_close, open_cleared}
use kernel_study.Memory.Ring3.Bytes.{byte_of, copy_code-Copied}

-- The state with one page more in use.
abbrev pub took : Paging → Paging
took s = record s { pmm = (pmm_alloc 1 s.pmm).1 }

-- The result is the address of page `p`; its words are `content`, and no other word has changed but the entry of
-- `tmp_map_addr`.
pub record Filled (s : Paging) (p : ℕ) (content : ℕ → ℕ) (r : ℕ × Paging) : Type 0 where
  pub words : ℕ → ℕ
  pub result : r ≡ (p * 4096, with_phys words (took s))
  pub inside : (i : ℕ) → i < 1024 → words (p * 4096 + 4 * i) ≡ content i
  pub others : (a : ℕ) → a ≢ tmp_slot s → a / 4096 ≢ p → words a ≡ s.phys a

module _ (s : Paging) (v : IsPaging s) (t : ℕ) (free : FreeAt s.pmm 1 t) where
  abbrev p : ℕ
  p = page s v t free

  abbrev fresh : ℕ → ℕ
  fresh a = if in_words (p * 4096) 0 1024 a then 0 else s.phys a

  apart : tmp_slot (took s) / 4096 ≢ p
  apart = not_slot s v t free

  cleared : ((alloc_cleared s).0 ≡ p * 4096) × IsOpen (took s) p fresh (alloc_cleared s).1
  cleared = open_cleared s p apart (page_facts s v t free).0 (page_facts s v t free).1

  outside : (a : ℕ) → a / 4096 ≢ p → fresh a ≡ s.phys a
  outside a ne = ground (arith, ne)

  -- A page that was open with the words `f` is closed.
  filled :
      (content f : ℕ → ℕ) (addr : ℕ) (o : Paging)
      → addr ≡ p * 4096
      → IsOpen (took s) p f o
      → ((i : ℕ) → i < 1024 → f (p * 4096 + 4 * i) ≡ content i)
      → ((a : ℕ) → a / 4096 ≢ p → f a ≡ fresh a)
      → Filled s p content (addr, unmap_tmp_page o)
  filled content f addr o at is_open inside others =
      let c = open_close (took s) p apart f o is_open in
      record {
        words = c.0;
        result = rw (at, c.1) refl;
        inside = λ i lt.
            c.2 (p * 4096 + 4 * i)
              (λ e. apart (sym (ap (λ (x : ℕ). x / 4096) e) ∙ omega (arith, lt)))
            ∙ inside i lt;
        others = λ a slot ne. c.2 a slot ∙ others a ne ∙ outside a ne;
      }

  clear_word : (i : ℕ) → i < 1024 → fresh (p * 4096 + 4 * i) ≡ 0
  clear_word i lt = ground (arith, lt)

  pub zeroed_Filled : Filled s p (λ i. 0) (alloc_zeroed s)
  unfolding alloc_zeroed
  zeroed_Filled = filled (λ i. 0) fresh _ _ cleared.0 cleared.1 clear_word (λ a ne. refl)

  pub user_table-Filled :
      (page1 page2 : ℕ)
      → Filled s p
          (λ i. if i == 1 then user_entry page1 else if i == 2 then user_entry page2 else 0)
          (user_table page1 page2 s)
  unfolding user_table update
  user_table-Filled page1 page2 =
      let one = open_set (took s) p apart fresh _ 1 (user_entry page1) (omega arith) cleared.1 in
      let two = open_set (took s) p apart _ _ 2 (user_entry page2) (omega arith) one in
      filled _ _ _ _ cleared.0 two (λ i lt. ground (arith, clear_word i lt))
        (λ a ne. ground (arith, ne))

  entry_after :
      (f : ℕ → ℕ) (i rounds entry j : ℕ)
      → entry ≡ s.kernel_page_directory i
      → (if leb (i + 1) j && ltb j (i + 1 + rounds)
          then s.kernel_page_directory j
          else update f (p * 4096 + 4 * i) entry (p * 4096 + 4 * j))
        ≡ (if leb i j && ltb j (i + suc rounds)
            then s.kernel_page_directory j
            else f (p * 4096 + 4 * j))
  unfolding update
  entry_after f i rounds entry j e = elim (Bool-cases (i == j)) [
    | inl h ↦
        let same : s.kernel_page_directory i ≡ s.kernel_page_directory j =
          ap s.kernel_page_directory (ground (arith, h)) in
        ground (arith, h, e, same)
    | inr ne ↦ ground (arith, ne)
  ]

  kernel_entries :
      (f : ℕ → ℕ) (o : Paging) (i rounds : ℕ)
      → i + rounds ≤ 1024
      → IsOpen (took s) p f o
      → (g : ℕ → ℕ) × IsOpen (took s) p g (copy_kernel i rounds o)
        × ((a : ℕ) → a / 4096 ≢ p → g a ≡ f a)
        × ((j : ℕ)
            → j < 1024
            → g (p * 4096 + 4 * j) ≡ (
                if leb i j && ltb j (i + rounds)
                then s.kernel_page_directory j
                else f (p * 4096 + 4 * j)))
  unfolding copy_kernel
  kernel_entries f o i zero fits is_open = (f, is_open, λ a ne. refl, λ j lt. ground arith)
  kernel_entries f o i (suc rounds) fits is_open =
      let entry : ℕ = o.kernel_page_directory i in
      let same : entry ≡ s.kernel_page_directory i =
        ap (λ (x : Paging). x.kernel_page_directory i) is_open.kept in
      let one = open_set (took s) p apart f o i entry (omega (arith, fits)) is_open in
      let f' : ℕ → ℕ = update f (p * 4096 + 4 * i) entry in
      let rest = kernel_entries f' (tmp_set i entry o) (i + 1) rounds (omega (arith, fits)) one in
      (
        rest.0,
        rest.1,
        λ a ne.
            rest.2 a ne ∙ update_ne f (p * 4096 + 4 * i) a entry (λ e. ne (omega (arith, e, fits))),
        λ j lt. rest.3 j lt ∙ entry_after f i rounds entry j same,
      )

  pub user_directory-Filled :
      (table : ℕ)
      → Filled s p
          (λ i.
            if leb 768 i then s.kernel_page_directory i else if i == 0 then user_entry table else 0)
          (user_directory table s)
  unfolding user_directory update
  user_directory-Filled table =
      let one = open_set (took s) p apart fresh _ 0 (user_entry table) (omega arith) cleared.1 in
      let k = kernel_entries _ _ 768 256 (omega arith) one in
      filled _ k.0 _ _ cleared.0 k.1 (λ i lt. ground (arith, k.3 i lt, clear_word i lt, lt))
        (λ a ne. k.2 a ne ∙ ground (arith, ne))

  -- The page with the program.
  pub record WithCode (code : ℕ → ℕ) (limit : ℕ) : Type 0 where
    pub words : ℕ → ℕ
    pub result : code_page code limit s ≡ some (p * 4096, with_phys words (took s))
    pub bytes : (k : ℕ) → k < 4096 → byte_of words p k ≡ (if ltb k limit then code k % 256 else 0)
    pub others : (a : ℕ) → a ≢ tmp_slot s → a / 4096 ≢ p → words a ≡ s.phys a

  clear_byte : (k : ℕ) → k < 4096 → byte_of fresh p k ≡ 0
  clear_byte k lt =
      let zero_word : fresh (p * 4096 + k / 4 * 4) ≡ 0 = ground (arith, lt) in
      rw zero_word (omega arith)

  pub code_page-WithCode :
      (code : ℕ → ℕ) (limit : ℕ)
      → limit ≤ 4096
      → s.tmp_map_addr % 4096 ≡ 0
      → bit_and (s.kernel_page_directory (pde_index s.tmp_map_addr)) page_present ≡ 1
      → WithCode code limit
  unfolding code_page
  code_page-WithCode code limit fits aligned table =
      let copied =
        copy_code-Copied (took s) p apart v.tmp_word aligned table code 0 limit fresh
          (alloc_cleared s).1 (omega (arith, fits)) cleared.1 in
      let c = open_close (took s) p apart copied.words copied.state copied.is_open in
      record {
        words = c.0;
        result = rw (copied.result, cleared.0, c.1) refl;
        bytes = λ k lt.
            let far : p * 4096 + k / 4 * 4 ≢ tmp_slot s =
              λ e. apart (sym (ap (λ (x : ℕ). x / 4096) e) ∙ omega (arith, lt)) in
            ap (λ (w : ℕ). w / 256 ^ (k % 4) % 256) (c.2 (p * 4096 + k / 4 * 4) far)
            ∙ copied.bytes k
            ∙ ground (arith, clear_byte k lt);
        others = λ a slot ne. c.2 a slot ∙ copied.others a ne ∙ outside a ne;
      }
