-- ===== src/Memory/Paging/Remove.antt =====
-- `unmmap` of a page of the kernel heap.
use kernel_study.Base.{
  ℕ, ◌+◌, ◌*◌, ◌/◌, ◌^◌, ◌<◌, ◌≡◌, ◌≢◌, none, some, ◌==◌, if◌then◌else◌, arith, ap, ◌∙◌, sym,
  bit_and, update, update_self, sub32,
}
use kernel_study.Memory.Align.{pde_index, pte_index, page_mask, page_size, bit_and-page_mask}
use kernel_study.Memory.Bitmap.{bit_get}
use kernel_study.Memory.Kheap.{kheap_start}
use kernel_study.Memory.Pmm.{pmm_free}
use kernel_study.Memory.Pmm.Alloc.{pmm_free-IsPmm, bit_get-pmm_free}
use kernel_study.Memory.Paging.{
  Paging, tmp_slot, map_tmp_page, unmap_tmp_page, tmp_get, tmp_set, set_entry, unmmap_page,
}
use kernel_study.Memory.Paging.Tmp.{tmp_get_lem}
use kernel_study.Memory.Paging.Frames.{entry_addr, walk, IsPaging, SamePage, entry_not_slot}
use kernel_study.Memory.Paging.Alloc.{NotTable}
use kernel_study.Memory.Paging.Kernel.{written, written-walk, written-walk_others}

-- `s'` is `s` after the page at `virt_addr`, which was page `page` of physical memory, is gone.
pub record Unmapped (s s' : Paging) (virt_addr page : ℕ) : Type 0 where
  pub paging : IsPaging s'
  pub gone : walk s' virt_addr ≡ none
  pub others :
      (a : ℕ)
      → a < 2 ^ 32
      → ¬ SamePage a virt_addr
      → ¬ SamePage a s.tmp_map_addr
      → walk s' a ≡ walk s a
  pub bits : (j : ℕ) → bit_get s'.pmm.bitmap j ≡ (if j == page then 0 else bit_get s.pmm.bitmap j)

module _ (s : Paging) (v : IsPaging s) (virt_addr page flags : ℕ) (w : virt_addr < 2 ^ 32)
    (f : flags < 4096) (inside : page < s.pmm.bitmap_size)
    (there : walk s virt_addr ≡ some (page * 4096 + flags)) (n : NotTable s page)
    (other : ¬ SamePage virt_addr s.tmp_map_addr) where
  found :
      (s.kernel_page_directory (pde_index virt_addr) ≢ 0)
      × (s.phys (entry_addr s virt_addr) ≡ page * 4096 + flags)
  found = ground (arith, there)

  abbrev freed : Paging
  freed = record (written s v virt_addr 0 w found.0 other) {
    pmm = pmm_free (page * 4096) 1 s.pmm;
    kheap_pages = update s.kheap_pages (sub32 virt_addr kheap_start / page_size) 0;
  }

  read_back :
      bit_and
        (tmp_get
          (pte_index virt_addr)
          (map_tmp_page (s.kernel_page_directory (pde_index virt_addr)) s))
        page_mask
      ≡ page * 4096
  read_back =
      let far : tmp_slot s ≢ entry_addr s virt_addr =
        λ e. entry_not_slot s v virt_addr w other found.0 (sym e) in
      let got =
        tmp_get_lem s (s.kernel_page_directory (pde_index virt_addr))
          (v.words (pde_index virt_addr)) (pte_index virt_addr) far in
      let small = v.pmm.small in
      ap (λ (e : ℕ). bit_and e page_mask) (got ∙ found.1)
      ∙ bit_and-page_mask (page * 4096 + flags) (omega (arith, f, inside, small))
      ∙ (omega (arith, f))

  unmmap_page-freed : unmmap_page virt_addr s ≡ freed
  unfolding unmmap_page set_entry tmp_set map_tmp_page unmap_tmp_page
  unmmap_page-freed = ap (λ (x : ℕ). record freed { pmm = pmm_free x 1 s.pmm }) read_back

  freed-bits :
      (j : ℕ) → bit_get freed.pmm.bitmap j ≡ (if j == page then 0 else bit_get s.pmm.bitmap j)
  freed-bits j = ground (arith, bit_get-pmm_free page 1 j s.pmm v.pmm (omega (arith, inside)))

  freed-IsPaging : IsPaging freed
  freed-IsPaging = record {
    pmm = pmm_free-IsPmm (page * 4096) 1 s.pmm v.pmm;
    words = v.words;
    used = λ d lt ne.
        ground (arith, freed-bits (s.kernel_page_directory d / 4096), v.used d lt ne, n d lt ne);
    apart = v.apart;
    tmp_word = v.tmp_word;
    tmp_table = v.tmp_table;
  }

  -- In a state that IsPaging describes, one round of `unmmap` at an address other than the
  -- temporary one, whose entry names a page of memory that is no page table: nothing is mapped
  -- there any more, the walk to every other address but the temporary one finds what it found,
  -- exactly that page is free again, the heap page is marked free, and IsPaging holds again.
  pub unmmap_page-Unmapped :
      Unmapped s (unmmap_page virt_addr s) virt_addr page
      × ((unmmap_page virt_addr s).kheap_pages (sub32 virt_addr kheap_start / page_size) ≡ 0)
  unmmap_page-Unmapped = rw unmmap_page-freed (
    record {
      paging = freed-IsPaging;
      gone = written-walk s v virt_addr 0 w found.0 other;
      others = written-walk_others s v virt_addr 0 w found.0 other;
      bits = freed-bits;
    },
    update_self s.kheap_pages (sub32 virt_addr kheap_start / page_size) 0,
  )
