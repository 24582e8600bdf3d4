-- ===== src/Memory/Paging/Tmp.antt =====
-- What an access through `tmp_map_addr` does to physical memory.
use kernel_study.Base.{
  ℕ, zero, suc, ◌+◌, ◌*◌, ◌/◌, ◌%◌, ◌^◌, ◌<◌, ◌≤◌, ◌≡◌, ◌≢◌, refl, Bool, true, false, ◌&&◌, ◌==◌,
  leb, ltb, if◌then◌else◌, bit_and, bit_or, update, update_self, update_ne, arith, ap, ◌∙◌, sym,
}
use kernel_study.Memory.Align.{
  page_mask, page_present, page_writable, pde_index, pte_index, bit_and-page_mask, page_entry,
}
use kernel_study.Memory.Pmm.{pmm_alloc}
use kernel_study.Memory.Paging.{
  Paging, tmp_slot, map_tmp_page, unmap_tmp_page, tmp_word, tmp_get, tmp_set, zero_from,
  alloc_cleared, alloc_zeroed, set_entry,
}

-- An entry names the page that it was made from.
pub entry_page :
    (a flags : ℕ)
    → a < 2 ^ 32
    → flags < 4096
    → bit_and (bit_or (bit_and a page_mask) flags) page_mask ≡ a / 4096 * 4096
entry_page a flags h f =
    let e = page_entry a flags h f in
    rw (e, bit_and-page_mask (a / 4096 * 4096 + flags) (omega (arith, h, f))) (omega (arith, f))

-- The state with other physical memory, and with another word.
abbrev pub with_phys : (ℕ → ℕ) → Paging → Paging
with_phys phys s = record s { phys = phys }

-- The page of `p` is at `tmp_map_addr`.
module _ (s : Paging) (p : ℕ) (word : p < 2 ^ 32) where
  abbrev there : Paging
  there = map_tmp_page p s

  pub map_tmp_page-word : (i : ℕ) → tmp_word i there ≡ p / 4096 * 4096 + 4 * i
  unfolding map_tmp_page
  map_tmp_page-word i =
      ap (λ (e : ℕ). bit_and e page_mask + 4 * i) (update_self s.phys (tmp_slot s) _)
      ∙ ap (λ (e : ℕ). e + 4 * i)
          (entry_page p (bit_or page_present page_writable) word (omega arith))

  pub tmp_get_lem :
      (i : ℕ)
      → tmp_slot s ≢ p / 4096 * 4096 + 4 * i
      → tmp_get i there ≡ s.phys (p / 4096 * 4096 + 4 * i)
  unfolding tmp_get map_tmp_page
  tmp_get_lem i far =
      rw (map_tmp_page-word i) (update_ne s.phys (tmp_slot s) (p / 4096 * 4096 + 4 * i) _ far)

-- The words of `p`'s page from `i` on, `n` of them.
abbrev pub in_words : (p i n a : ℕ) → Bool
in_words p i n a =
    leb (p / 4096 * 4096 + 4 * i) a && ltb a (p / 4096 * 4096 + 4 * (i + n)) && (a % 4 == 0)

pub zero_from-kept :
    (i rounds : ℕ) (s : Paging) → zero_from i rounds s ≡ with_phys (zero_from i rounds s).phys s
unfolding zero_from tmp_set
zero_from-kept i zero s = refl
zero_from-kept i (suc rounds) s = zero_from-kept (i + 1) rounds (tmp_set i 0 s)

-- The word `i`, cleared before those behind it.
zeroed_next :
    (phys : ℕ → ℕ) (p i rounds a w : ℕ)
    → w ≡ p / 4096 * 4096 + 4 * i
    → (if in_words p (i + 1) rounds a then 0 else update phys w 0 a)
      ≡ (if in_words p i (suc rounds) a then 0 else phys a)
unfolding update
zeroed_next phys p i rounds a w e = ground (arith, e)

pub zero_from-phys :
    (p i rounds : ℕ) (s : Paging)
    → bit_and (s.phys (tmp_slot s)) page_mask ≡ p / 4096 * 4096
    → tmp_slot s / 4096 ≢ p / 4096
    → i + rounds ≤ 1024
    → (a : ℕ) → (zero_from i rounds s).phys a ≡ (if in_words p i rounds a then 0 else s.phys a)
unfolding zero_from tmp_set
zero_from-phys p i zero s e apart fits a = ground arith
zero_from-phys p i (suc rounds) s e apart fits a =
    let at : tmp_word i s ≡ p / 4096 * 4096 + 4 * i = ap (λ (m : ℕ). m + 4 * i) e in
    let far : tmp_word i s ≢ tmp_slot s = λ q. apart (omega (arith, q, at, fits)) in
    let kept : (tmp_set i 0 s).phys (tmp_slot s) ≡ s.phys (tmp_slot s) =
      update_ne s.phys (tmp_word i s) (tmp_slot s) 0 far in
    let rest =
      zero_from-phys p (i + 1) rounds (tmp_set i 0 s) (ap (λ (m : ℕ). bit_and m page_mask) kept ∙ e)
        apart (omega (arith, fits)) a in
    rest ∙ zeroed_next s.phys p i rounds a (tmp_word i s) at

unmap_tmp_page-kept :
    (t u : Paging) → t ≡ with_phys t.phys u → unmap_tmp_page t ≡ with_phys (unmap_tmp_page t).phys u
unfolding unmap_tmp_page
unmap_tmp_page-kept t u e = ap (with_phys (update t.phys (tmp_slot t) 0)) e

unmap_tmp_page-phys :
    (t u : Paging) (a : ℕ)
    → t ≡ with_phys t.phys u
    → (unmap_tmp_page t).phys a ≡ (if a == tmp_slot u then 0 else t.phys a)
unfolding unmap_tmp_page update
unmap_tmp_page-phys t u a e =
    let slot : tmp_slot t ≡ tmp_slot u = ap tmp_slot e in ground (arith, slot)

-- A word away from the entry of `tmp_map_addr`.
outside :
    (b c d : Bool) (x y z : ℕ)
    → b ≡ c
    → x ≡ (if d then 0 else y)
    → (if c then 0 else y) ≡ (if c then 0 else z)
    → (if b then 0 else x) ≡ (if c then 0 else if d then 0 else z)
outside b true d x y z e f g = rw e refl
outside b false d x y z e f g = rw (e, f, g) refl

-- A new page, cleared, and the mapping gone again.
module _ (s : Paging) (apart : tmp_slot s / 4096 ≢ (pmm_alloc 1 s.pmm).0 / 4096)
    (word : (pmm_alloc 1 s.pmm).0 < 2 ^ 32) where
  abbrev page : ℕ
  page = (pmm_alloc 1 s.pmm).0

  abbrev opened : Paging
  opened = map_tmp_page page (record s { pmm = (pmm_alloc 1 s.pmm).1 })

  opened-slot : tmp_slot opened ≡ tmp_slot s
  unfolding map_tmp_page
  opened-slot = refl

  opened-page : bit_and (opened.phys (tmp_slot opened)) page_mask ≡ page / 4096 * 4096
  unfolding map_tmp_page
  opened-page =
      rw
        (update_self s.phys (tmp_slot s)
          (bit_or (bit_and page page_mask) (bit_or page_present page_writable)))
        (entry_page page (bit_or page_present page_writable) word (omega arith))

  abbrev cleared : Paging
  cleared = zero_from 0 1024 opened

  alloc_zeroed-cleared :
      alloc_zeroed s
      ≡ (page, record s { pmm = (pmm_alloc 1 s.pmm).1; phys = (unmap_tmp_page cleared).phys })
  unfolding alloc_zeroed alloc_cleared map_tmp_page
  alloc_zeroed-cleared =
      ap (λ (t : Paging). (page, t))
        (unmap_tmp_page-kept cleared opened (zero_from-kept 0 1024 opened))

  -- Only the allocator and the words of memory change.
  pub alloc_zeroed-kept :
      alloc_zeroed s
      ≡ (page, record s { pmm = (pmm_alloc 1 s.pmm).1; phys = (alloc_zeroed s).1.phys })
  alloc_zeroed-kept =
      alloc_zeroed-cleared
      ∙ ap (λ (f : ℕ → ℕ). (page, record s { pmm = (pmm_alloc 1 s.pmm).1; phys = f }))
          (sym (ap (λ (r : ℕ × Paging). r.1.phys) alloc_zeroed-cleared))

  opened-phys :
      (a : ℕ)
      → (if a == tmp_slot s then 0 else opened.phys a) ≡ (if a == tmp_slot s then 0 else s.phys a)
  unfolding map_tmp_page update
  opened-phys a = ground arith

  pub alloc_zeroed-phys :
      (a : ℕ)
      → (alloc_zeroed s).1.phys a
        ≡ (if a == tmp_slot s then 0 else if in_words page 0 1024 a then 0 else s.phys a)
  alloc_zeroed-phys a =
      let closed = unmap_tmp_page-phys cleared opened a (zero_from-kept 0 1024 opened) in
      let zeroed =
        zero_from-phys page 0 1024 opened opened-page (rw opened-slot apart) (omega arith) a in
      ap (λ (r : ℕ × Paging). r.1.phys a) alloc_zeroed-cleared
      ∙ closed
      ∙ outside (a == tmp_slot opened) (a == tmp_slot s) (in_words page 0 1024 a) (cleared.phys a)
          (opened.phys a) (s.phys a) (ap (λ (m : ℕ). a == m) opened-slot) zeroed (opened-phys a)

pub update_thrice :
    (phys : ℕ → ℕ) (slot w e v a : ℕ)
    → update (update (update phys slot e) w v) slot 0 a
      ≡ (if a == slot then 0 else if a == w then v else phys a)
unfolding update
update_thrice phys slot w e v a = ground arith

-- One entry of a page table that the directory names.
module _ (s : Paging) (base_addr entry : ℕ)
    (word : s.kernel_page_directory (pde_index base_addr) < 2 ^ 32) where
  abbrev table : ℕ
  table = s.kernel_page_directory (pde_index base_addr)

  pub set_entry-kept : set_entry base_addr entry s ≡ with_phys (set_entry base_addr entry s).phys s
  unfolding set_entry unmap_tmp_page tmp_set map_tmp_page
  set_entry-kept = refl

  pub set_entry-phys :
      (a : ℕ)
      → (set_entry base_addr entry s).phys a ≡ (
          if a == tmp_slot s
          then 0
          else if a == table / 4096 * 4096 + 4 * pte_index base_addr
          then entry
          else s.phys a)
  unfolding set_entry unmap_tmp_page tmp_set map_tmp_page
  set_entry-phys a =
      let at : tmp_word (pte_index base_addr) (map_tmp_page table s)
          ≡ table / 4096 * 4096 + 4 * pte_index base_addr =
        map_tmp_page-word s table word (pte_index base_addr) in
      rw at (
        update_thrice s.phys (tmp_slot s) (table / 4096 * 4096 + 4 * pte_index base_addr) _ entry a)
