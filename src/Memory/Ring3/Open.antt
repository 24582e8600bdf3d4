-- ===== src/Memory/Ring3/Open.antt =====
-- A page that is open at `tmp_map_addr` and is written word by word.
use kernel_study.Base.{
  ℕ, zero, suc, ◌+◌, ◌*◌, ◌/◌, ◌^◌, ◌<◌, ◌≤◌, ◌≡◌, ◌≢◌, refl, if◌then◌else◌, bit_and, bit_or,
  update, update_self, update_ne, arith, ap, ◌∙◌, sym,
}
use kernel_study.Base.Bits.{bit_and_low}
use kernel_study.Memory.Align.{page_entry, page_mask, page_present, page_writable}
use kernel_study.Memory.Pmm.{pmm_alloc}
use kernel_study.Memory.Paging.{
  Paging, tmp_slot, map_tmp_page, unmap_tmp_page, tmp_word, tmp_set, zero_from, alloc_cleared,
}
use kernel_study.Memory.Paging.Tmp.{with_phys, in_words, entry_page}

-- `s` is `u` with page `p` open; the words of memory are `f`, apart from the entry of `tmp_map_addr`.
pub record IsOpen (u : Paging) (p : ℕ) (f : ℕ → ℕ) (s : Paging) : Type 0 where
  pub kept : s ≡ with_phys s.phys u
  pub page : bit_and (s.phys (tmp_slot u)) page_mask ≡ p * 4096
  pub present : bit_and (s.phys (tmp_slot u)) page_present ≡ 1
  pub words : (a : ℕ) → a ≢ tmp_slot u → s.phys a ≡ f a

module _ (u : Paging) (p : ℕ) (apart : tmp_slot u / 4096 ≢ p) where
  pub word_of :
      (f : ℕ → ℕ) (s : Paging) → IsOpen u p f s → (i : ℕ) → tmp_word i s ≡ p * 4096 + 4 * i
  word_of f s o i = rw (ap tmp_slot o.kept) (ap (λ (m : ℕ). m + 4 * i) o.page)

  -- One word of the open page.
  pub open_update :
      (f : ℕ → ℕ) (s : Paging) (w v : ℕ)
      → w / 4096 ≡ p
      → IsOpen u p f s
      → IsOpen u p (update f w v) (with_phys (update s.phys w v) s)
  unfolding update
  open_update f s w v at o =
      let far : w ≢ tmp_slot u = λ e. apart (sym (ap (λ (x : ℕ). x / 4096) e) ∙ at) in
      let slot : update s.phys w v (tmp_slot u) ≡ s.phys (tmp_slot u) =
        update_ne s.phys w (tmp_slot u) v far in
      record {
        kept = ap (with_phys (update s.phys w v)) o.kept;
        page = ap (λ (e : ℕ). bit_and e page_mask) slot ∙ o.page;
        present = ap (λ (e : ℕ). bit_and e page_present) slot ∙ o.present;
        words = λ a ne. ground (arith, o.words a ne);
      }

  pub open_set :
      (f : ℕ → ℕ) (s : Paging) (i v : ℕ)
      → i < 1024
      → IsOpen u p f s
      → IsOpen u p (update f (p * 4096 + 4 * i) v) (tmp_set i v s)
  unfolding tmp_set
  open_set f s i v lt o =
      rw (word_of f s o i) (open_update f s (p * 4096 + 4 * i) v (omega (arith, lt)) o)

  -- The page is closed.
  pub open_close :
      (f : ℕ → ℕ) (s : Paging)
      → IsOpen u p f s
      → (g : ℕ → ℕ) × (unmap_tmp_page s ≡ with_phys g u) × ((a : ℕ) → a ≢ tmp_slot u → g a ≡ f a)
  unfolding unmap_tmp_page
  open_close f s o = (
    update s.phys (tmp_slot s) 0,
    ap (with_phys (update s.phys (tmp_slot s) 0)) o.kept,
    λ a ne. update_ne s.phys (tmp_slot s) a 0 (λ e. ne (sym e ∙ ap tmp_slot o.kept)) ∙ o.words a ne,
  )

  pub open_words :
      (f g : ℕ → ℕ) (s : Paging)
      → ((a : ℕ) → a ≢ tmp_slot u → f a ≡ g a)
      → IsOpen u p f s
      → IsOpen u p g s
  open_words f g s e o = record {
    kept = o.kept;
    page = o.page;
    present = o.present;
    words = λ a ne. o.words a ne ∙ e a ne;
  }

  -- The words from `i` on are cleared.
  open_zero :
      (f : ℕ → ℕ) (i rounds : ℕ) (s : Paging)
      → i + rounds ≤ 1024
      → IsOpen u p f s
      → IsOpen u p (λ a. if in_words (p * 4096) i rounds a then 0 else f a) (zero_from i rounds s)
  unfolding zero_from update
  open_zero f i zero s fits o = open_words f _ s (λ a ne. ground arith) o
  open_zero f i (suc rounds) s fits o =
      let next = open_set f s i 0 (omega (arith, fits)) o in
      open_words _ _ _ (λ a ne. ground arith)
        (open_zero (update f (p * 4096 + 4 * i) 0) (i + 1) rounds (tmp_set i 0 s)
          (omega (arith, fits)) next)

entry_present :
    (addr : ℕ)
    → addr < 2 ^ 32
    → bit_and (bit_or (bit_and addr page_mask) (bit_or page_present page_writable)) page_present ≡ 1
entry_present addr word =
    rw (page_entry addr 3 word (omega arith))
      (bit_and_low 1 (addr / 4096 * 4096 + 3) (omega arith) ∙ omega arith)

open_mapped :
    (u : Paging) (addr p : ℕ)
    → addr ≡ p * 4096
    → addr < 2 ^ 32
    → IsOpen u p u.phys (map_tmp_page addr u)
unfolding map_tmp_page
open_mapped u addr p at word =
    let entry : ℕ = bit_or (bit_and addr page_mask) (bit_or page_present page_writable) in
    let slot : update u.phys (tmp_slot u) entry (tmp_slot u) ≡ entry =
      update_self u.phys (tmp_slot u) entry in
    record {
      kept = refl;
      page =
          ap (λ (e : ℕ). bit_and e page_mask) slot
          ∙ entry_page addr (bit_or page_present page_writable) word (omega arith)
          ∙ omega (arith, at);
      present = ap (λ (e : ℕ). bit_and e page_present) slot ∙ entry_present addr word;
      words = λ a ne. update_ne u.phys (tmp_slot u) a entry (λ e. ne (sym e));
    }

-- A new page is open and clear.
pub open_cleared :
    (s : Paging) (p : ℕ)
    → tmp_slot s / 4096 ≢ p
    → (pmm_alloc 1 s.pmm).0 ≡ p * 4096
    → p < 2 ^ 20
    → ((alloc_cleared s).0 ≡ p * 4096)
      × IsOpen
          (record s { pmm = (pmm_alloc 1 s.pmm).1 })
          p
          (λ a. if in_words (p * 4096) 0 1024 a then 0 else s.phys a)
          (alloc_cleared s).1
unfolding alloc_cleared
open_cleared s p apart at small =
    let u : Paging = record s { pmm = (pmm_alloc 1 s.pmm).1 } in
    (
      at,
      open_zero u p apart s.phys 0 1024 _ (omega arith)
          (open_mapped u _ p at (omega (arith, at, small))),
    )
