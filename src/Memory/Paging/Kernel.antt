-- ===== src/Memory/Paging/Kernel.antt =====
-- `mmap` of a page of the kernel heap, as a change of what the processor finds at each address.
use kernel_study.Base.{
  ℕ, ◌+◌, ◌*◌, ◌/◌, ◌^◌, ◌<◌, ◌≡◌, ◌≢◌, refl, false, none, some, ◌==◌, if◌then◌else◌, arith, ap,
  ◌∙◌, sym, bit_and, bit_or, update, update_self, u32,
}
use kernel_study.Memory.Align.{pde_index, page_mask, page_size, page_entry, indices_of_address}
use kernel_study.Memory.Bitmap.{bit_get}
use kernel_study.Memory.Kheap.{kheap_start}
use kernel_study.Memory.Pmm.Alloc.{FreeAt}
use kernel_study.Memory.Paging.{Paging, tmp_slot, need_table, set_entry, mmap_page}
use kernel_study.Memory.Paging.Tmp.{with_phys, set_entry-kept, set_entry-phys}
use kernel_study.Memory.Paging.Frames.{
  entry_addr, walk, IsPaging, SamePage, entry_addr-page, entries_apart, entry_not_slot,
}
use kernel_study.Memory.Paging.Alloc.{
  NotTable, walk_frame, page, taken, page_facts, alloc_zeroed-taken, taken-IsPaging, taken-NotTable,
  taken-walk, taken-clear,
}
use kernel_study.Memory.Paging.Table.{
  HasTable, need_table-HasTable, need_table_there, slot_not_held,
}

-- An entry is written into the page table of `base_addr`.
module _ (s : Paging) (v : IsPaging s) (base_addr entry : ℕ) (w : base_addr < 2 ^ 32)
    (table : s.kernel_page_directory (pde_index base_addr) ≢ 0)
    (other : ¬ SamePage base_addr s.tmp_map_addr) where
  abbrev pub written : Paging
  written = with_phys (set_entry base_addr entry s).phys s

  pub written-IsPaging : IsPaging written
  written-IsPaging = record {
    pmm = v.pmm;
    words = v.words;
    used = v.used;
    apart = v.apart;
    tmp_word = v.tmp_word;
    tmp_table = v.tmp_table;
  }

  written-phys :
      (a : ℕ)
      → written.phys a
        ≡ (if a == tmp_slot s then 0 else if a == entry_addr s base_addr then entry else s.phys a)
  written-phys = set_entry-phys s base_addr entry (v.words (pde_index base_addr))

  pub written-walk : walk written base_addr ≡ (if entry == 0 then none else some entry)
  written-walk =
      let there : (s.kernel_page_directory (pde_index base_addr) == 0) ≡ false =
        ground (arith, table) in
      let slot : (entry_addr s base_addr == tmp_slot s) ≡ false =
        ground (arith, entry_not_slot s v base_addr w other table) in
      let at : written.phys (entry_addr s base_addr) ≡ entry =
        ground (arith, written-phys (entry_addr s base_addr), slot) in
      rw (there, at) refl

  pub written-walk_others :
      (a : ℕ)
      → a < 2 ^ 32
      → ¬ SamePage a base_addr
      → ¬ SamePage a s.tmp_map_addr
      → walk written a ≡ walk s a
  written-walk_others a wa ob ot = walk_frame s written a refl (λ ne. ground (
    arith,
    written-phys (entry_addr s a),
    entry_not_slot s v a wa ot ne,
    entries_apart s v a base_addr wa w ob ne table,
  ))

  pub written-kept : (a held : ℕ) → NotTable s held → a / 4096 ≡ held → written.phys a ≡ s.phys a
  written-kept a held n e =
      let i = indices_of_address base_addr w in
      let page = entry_addr-page s base_addr w in
      let far : a ≢ entry_addr s base_addr = λ q.
        n (pde_index base_addr) i.0 table (sym page.0 ∙ ap (λ (x : ℕ). x / 4096) (sym q) ∙ e) in
      let slot : a ≢ tmp_slot s =
        λ q. slot_not_held s v held n (ap (λ (x : ℕ). x / 4096) (sym q) ∙ e) in
      ground (arith, written-phys a, far, slot)

-- `s'` is `s` after page `page` of physical memory has become the page at `base_addr`.
pub record Mapped (s s' : Paging) (base_addr page flags : ℕ) : Type 0 where
  pub paging : IsPaging s'
  pub was_free : bit_get s.pmm.bitmap page ≡ 0
  pub mapped : walk s' base_addr ≡ some (page * 4096 + flags)
  pub others :
      (a : ℕ)
      → a < 2 ^ 32
      → ¬ SamePage a base_addr
      → ¬ SamePage a s.tmp_map_addr
      → walk s' a ≡ walk s a
  pub clear : (i : ℕ) → i < 1024 → s'.phys (page * 4096 + 4 * i) ≡ 0
  pub not_table : NotTable s' page

module _ (s : Paging) (v : IsPaging s) (flags idx : ℕ) (f : flags < 4096) (f_ne : flags ≢ 0) (t : ℕ)
    (free : FreeAt s.pmm 1 t) (u : ℕ) (free' : FreeAt (taken s v t free).pmm 1 u) where
  abbrev base_addr : ℕ
  base_addr = u32 (kheap_start + idx * page_size)

  abbrev p : ℕ
  p = page s v t free

  abbrev tabled : Paging
  tabled = need_table base_addr flags (taken s v t free)

  abbrev entry : ℕ
  entry = bit_or (bit_and (p * 4096) page_mask) flags

  base_word : base_addr < 2 ^ 32
  base_word = omega arith

  entry_lem : (entry ≡ p * 4096 + flags) × (entry ≢ 0)
  entry_lem =
      let e = page_entry (p * 4096) flags (omega (arith, (page_facts s v t free).1)) f in
      (omega (arith, e), λ z. f_ne (omega (arith, e, z)))

  tabled-HasTable : HasTable (taken s v t free) tabled base_addr p
  tabled-HasTable =
      need_table-HasTable (taken s v t free) (taken-IsPaging s v t free) base_addr flags p base_word
        f f_ne u free' (ground (arith, (page_facts s v t free).3 p)) (taken-NotTable s v t free)

  abbrev marked : Paging
  marked = record (with_phys (set_entry base_addr entry tabled).phys tabled) {
    kheap_pages = update tabled.kheap_pages idx 1;
  }

  mmap_page-marked : mmap_page flags idx s ≡ marked
  unfolding mmap_page
  mmap_page-marked = rw (alloc_zeroed-taken s v t free) (
      ap (λ (m : Paging). record m { kheap_pages = update m.kheap_pages idx 1 })
        (set_entry-kept tabled base_addr entry
          (tabled-HasTable.paging.words (pde_index base_addr))))

  pub mmap_page-tmp : (mmap_page flags idx s).tmp_map_addr ≡ s.tmp_map_addr
  mmap_page-tmp = ap (λ (m : Paging). m.tmp_map_addr) mmap_page-marked ∙ tabled-HasTable.tmp

  -- With a page table there, only the page itself is taken.
  pub mmap_page-pmm :
      s.kernel_page_directory (pde_index base_addr) ≢ 0
      → (mmap_page flags idx s).pmm ≡ (taken s v t free).pmm
  mmap_page-pmm ne =
      ap (λ (m : Paging). m.pmm) mmap_page-marked
      ∙ ap (λ (m : Paging). m.pmm)
          (need_table_there (taken s v t free) (taken-IsPaging s v t free) base_addr flags p
            base_word f f_ne u free' (ground (arith, (page_facts s v t free).3 p))
            (taken-NotTable s v t free) ne)

  module _ (other : ¬ SamePage base_addr s.tmp_map_addr) where
    still_other : ¬ SamePage base_addr tabled.tmp_map_addr
    still_other e = other (omega (arith, e, tabled-HasTable.tmp))

    marked-Mapped : Mapped s marked base_addr p flags
    marked-Mapped =
        let h = tabled-HasTable in
        let w = written-IsPaging tabled h.paging base_addr entry base_word h.table still_other in
        let some_entry : (entry == 0) ≡ false = ground (arith, entry_lem.1) in
        record {
          paging = record {
            pmm = w.pmm;
            words = w.words;
            used = w.used;
            apart = w.apart;
            tmp_word = w.tmp_word;
            tmp_table = w.tmp_table;
          };
          was_free = (page_facts s v t free).2;
          mapped =
              written-walk tabled h.paging base_addr entry base_word h.table still_other
              ∙ (rw some_entry (ap (λ (e : ℕ). some e) entry_lem.0));
          others = λ a wa ob ot.
              written-walk_others tabled h.paging base_addr entry base_word h.table still_other a wa
                ob (λ e. ot (omega (arith, e, h.tmp)))
              ∙ h.walks a wa ot
              ∙ taken-walk s v t free a wa ot;
          clear = λ i lt.
              written-kept tabled h.paging base_addr entry base_word h.table still_other
                (p * 4096 + 4 * i) p h.not_table (omega (arith, lt))
              ∙ h.kept (p * 4096 + 4 * i) (omega (arith, lt))
              ∙ taken-clear s v t free i lt;
          not_table = h.not_table;
        }

    -- In a state that IsPaging describes, with two free pages (one for a page table, if one is
    -- needed) and flags that are not 0, one round of `mmap` for a heap page other than the
    -- temporary one puts a page that was free at its address, cleared and with the flags. The walk
    -- to every other address but the temporary one finds what it found, and IsPaging holds again.
    pub mmap_page-Mapped :
        Mapped s (mmap_page flags idx s) base_addr p flags
        × ((mmap_page flags idx s).kheap_pages idx ≡ 1)
    mmap_page-Mapped = rw mmap_page-marked (marked-Mapped, update_self tabled.kheap_pages idx 1)
