-- ===== src/Memory/User/Round.antt =====
-- One round of `sys_mmap` where the task has a page table for the address.
use kernel_study.Base.{
  ℕ, ◌+◌, ◌*◌, ◌/◌, ◌^◌, ◌<◌, ◌≡◌, ◌≢◌, refl, true, false, ◌==◌, if◌then◌else◌, arith, ap, ◌∙◌, sym,
  bit_and, bit_or, update, update_twice, update_ne,
}
use kernel_study.Memory.Align.{page_mask, page_entry}
use kernel_study.Memory.Bitmap.{bit_get}
use kernel_study.Memory.Pmm.Alloc.{FreeAt}
use kernel_study.Memory.Paging.{Paging, tmp_slot, map_tmp_page, unmap_tmp_page, tmp_get, tmp_set}
use kernel_study.Memory.Paging.Tmp.{with_phys, tmp_get_lem, map_tmp_page-word, update_thrice}
use kernel_study.Memory.Paging.Frames.{IsPaging}
use kernel_study.Memory.Paging.Alloc.{
  NotTable, page, taken, page_facts, alloc_zeroed-taken, taken-IsPaging, taken-kept, taken-clear,
}
use kernel_study.Memory.Paging.Table.{slot_not_held}
use kernel_study.Memory.User.{user_flags, write_word, read_word, fill_entry, user_page}

-- Nothing at `tmp_map_addr`.
abbrev closed : Paging → Paging
closed s = with_phys (update s.phys (tmp_slot s) 0) s

unmap_map : (p : ℕ) (s : Paging) → unmap_tmp_page (map_tmp_page p s) ≡ closed s
unfolding unmap_tmp_page map_tmp_page
unmap_map p s = ap (λ (f : ℕ → ℕ). with_phys f s) (update_twice s.phys (tmp_slot s) _ 0)

closed_twice : (s : Paging) → closed (closed s) ≡ closed s
closed_twice s = ap (λ (f : ℕ → ℕ). with_phys f s) (update_twice s.phys (tmp_slot s) 0 0)

abbrev pub word_at : (addr i : ℕ) → ℕ
word_at addr i = addr / 4096 * 4096 + 4 * i

-- Reading a word of a page, and writing one, through `tmp_map_addr`.
module _ (s : Paging) (addr i : ℕ) (word : addr < 2 ^ 32) where
  read_word_lem :
      tmp_slot s ≢ word_at addr i → read_word addr i s ≡ (s.phys (word_at addr i), closed s)
  unfolding read_word
  read_word_lem far =
      ap (λ (x : ℕ). (x, unmap_tmp_page (map_tmp_page addr s))) (tmp_get_lem s addr word i far)
      ∙ ap (λ (t : Paging). (s.phys (word_at addr i), t)) (unmap_map addr s)

  abbrev stored : ℕ → Paging
  stored v = with_phys (write_word addr i v s).phys s

  write_word-stored : (v : ℕ) → write_word addr i v s ≡ stored v
  unfolding write_word unmap_tmp_page tmp_set map_tmp_page
  write_word-stored v = refl

  stored-phys :
      (v a : ℕ)
      → (stored v).phys a
        ≡ (if a == tmp_slot s then 0 else if a == word_at addr i then v else s.phys a)
  unfolding write_word unmap_tmp_page tmp_set map_tmp_page
  stored-phys v a =
      rw (map_tmp_page-word s addr word i)
        (update_thrice s.phys (tmp_slot s) (word_at addr i) _ v a)

closed-IsPaging : (s : Paging) → IsPaging s → IsPaging (closed s)
closed-IsPaging s v = record {
  pmm = v.pmm;
  words = v.words;
  used = v.used;
  apart = v.apart;
  tmp_word = v.tmp_word;
  tmp_table = v.tmp_table;
}

-- The entry `pt_idx` of the user page table at `pt_addr` is unused; the table is a page in use that is no page
-- table of the kernel. One page is free.
module _ (s : Paging) (v : IsPaging s) (cr3 pte_idx pt_idx : ℕ) (word : cr3 < 2 ^ 32)
    (in_cr3 : pte_idx < 1024) (in_table : pt_idx < 1024) (n : NotTable s (cr3 / 4096)) (pt_addr : ℕ)
    (pt_word : pt_addr < 2 ^ 32) (at : s.phys (word_at cr3 pte_idx) ≡ pt_addr) (there : pt_addr ≢ 0)
    (n' : NotTable s (pt_addr / 4096)) (used : bit_get s.pmm.bitmap (pt_addr / 4096) ≡ 1)
    (unused : s.phys (word_at pt_addr pt_idx) ≡ 0) (t : ℕ) (free : FreeAt s.pmm 1 t) where
  abbrev vc : IsPaging (closed s)
  vc = closed-IsPaging s v

  -- The page that the round takes.
  abbrev new_page : ℕ
  new_page = page (closed s) vc t free

  abbrev held : Paging
  held = taken (closed s) vc t free

  far : (addr i : ℕ) → NotTable s (addr / 4096) → i < 1024 → tmp_slot s ≢ word_at addr i
  far addr i apart lt e = slot_not_held s v (addr / 4096) apart (omega (arith, e, lt))

  user_page-fill : user_page cr3 pte_idx pt_idx s ≡ (true, fill_entry pt_addr pt_idx (closed s))
  unfolding user_page
  user_page-fill =
      let some_table : (pt_addr == 0) ≡ false = ground (arith, there) in
      let slot = far pt_addr pt_idx n' in_table in
      let same : (closed s).phys (word_at pt_addr pt_idx) ≡ 0 =
        update_ne s.phys (tmp_slot s) (word_at pt_addr pt_idx) 0 slot ∙ unused in
      let got : tmp_get pt_idx (map_tmp_page pt_addr (closed s)) ≡ 0 =
        tmp_get_lem (closed s) pt_addr pt_word pt_idx slot ∙ same in
      rw
        (
          read_word_lem s cr3 pte_idx word (far cr3 pte_idx n in_cr3),
          at,
          some_table,
          got,
          unmap_map pt_addr (closed s),
          closed_twice s,
        )
        refl

  abbrev entry : ℕ
  entry = bit_or (bit_and (new_page * 4096) page_mask) user_flags

  fill_entry-stored :
      fill_entry pt_addr pt_idx (closed s) ≡ stored held pt_addr pt_idx pt_word entry
  unfolding fill_entry
  fill_entry-stored =
      rw (alloc_zeroed-taken (closed s) vc t free)
        (write_word-stored held pt_addr pt_idx pt_word entry)

  entry_lem : entry ≡ new_page * 4096 + 7
  entry_lem =
      let small = (page_facts (closed s) vc t free).1 in
      let e = page_entry (new_page * 4096) user_flags (omega (arith, small)) (omega arith) in
      omega (arith, e)

  apart : pt_addr / 4096 ≢ new_page
  apart e = ground (arith, used, ap (bit_get s.pmm.bitmap) e, (page_facts (closed s) vc t free).2)

  held-kept : (a : ℕ) → a ≢ tmp_slot s → a / 4096 ≢ new_page → held.phys a ≡ s.phys a
  held-kept a slot out =
      taken-kept (closed s) vc t free a slot out
      ∙ update_ne s.phys (tmp_slot s) a 0 (λ e. slot (sym e))

  stored-IsPaging : IsPaging (stored held pt_addr pt_idx pt_word entry)
  stored-IsPaging =
      let w = taken-IsPaging (closed s) vc t free in
      record {
        pmm = w.pmm;
        words = w.words;
        used = w.used;
        apart = w.apart;
        tmp_word = w.tmp_word;
        tmp_table = w.tmp_table;
      }

  -- In a state that IsPaging describes, with a free page, where the task has a page table for the
  -- address, in a page in use, whose entry is 0, and neither it nor the task's page directory is a
  -- page table of the kernel: the round of `sys_mmap` takes a page that was free, clears it and
  -- writes it with the flags for a user into exactly that entry. Apart from the entry of
  -- `tmp_map_addr`, every other word outside the new page stays, and IsPaging holds again.
  pub user_page_maps :
      let (mapped, s') = user_page cr3 pte_idx pt_idx s in
      (mapped ≡ true)
      × IsPaging s'
      × ((p : ℕ) × (bit_get s.pmm.bitmap p ≡ 0)
          × (s'.phys (word_at pt_addr pt_idx) ≡ p * 4096 + 7)
          × ((i : ℕ) → i < 1024 → s'.phys (p * 4096 + 4 * i) ≡ 0)
          × ((a : ℕ)
              → a ≢ tmp_slot s
              → a / 4096 ≢ p
              → a ≢ word_at pt_addr pt_idx
              → s'.phys a ≡ s.phys a))
  user_page_maps =
      let phys = stored-phys held pt_addr pt_idx pt_word entry in
      let slot = far pt_addr pt_idx n' in_table in
      rw (user_page-fill, fill_entry-stored)
        (
          refl,
          stored-IsPaging,
          (
            new_page,
            (page_facts (closed s) vc t free).2,
            ground (arith, phys (word_at pt_addr pt_idx), slot, entry_lem),
            λ i lt.
                let other : new_page * 4096 + 4 * i ≢ word_at pt_addr pt_idx =
                  λ e. apart (omega (arith, e, lt, in_table)) in
                ground (
                  arith,
                  phys (new_page * 4096 + 4 * i),
                  other,
                  taken-clear (closed s) vc t free i lt,
                ),
            λ a no_slot out no_entry.
                ground (arith, phys a, no_slot, no_entry, held-kept a no_slot out),
          ),
        )
