-- ===== src/Memory/Paging/RoundTrip.antt =====
-- `mmap` of a page of the kernel heap and `unmmap` of it.
use kernel_study.Base.{ℕ, ◌+◌, ◌*◌, ◌/◌, ◌^◌, ◌<◌, ◌≡◌, ◌≢◌, none, arith, ap, sym, ◌∙◌, u32, sub32}
use kernel_study.Memory.Align.{pde_index, page_size}
use kernel_study.Memory.Bitmap.{bit_get}
use kernel_study.Memory.Kheap.{kheap_start, kheap_pages_num}
use kernel_study.Memory.Pmm.{Pmm}
use kernel_study.Memory.Pmm.Alloc.{FreeAt}
use kernel_study.Memory.Paging.{Paging, mmap_page, unmmap_page}
use kernel_study.Memory.Paging.Frames.{walk, IsPaging, SamePage}
use kernel_study.Memory.Paging.Alloc.{page, taken, page_facts, page_inside}
use kernel_study.Memory.Paging.Kernel.{mmap_page-Mapped, mmap_page-tmp, mmap_page-pmm}
use kernel_study.Memory.Paging.Remove.{unmmap_page-Unmapped}

module _ (s : Paging) (v : IsPaging s) (flags idx : ℕ) (f : flags < 4096) (f_ne : flags ≢ 0)
    (heap : idx < kheap_pages_num) (t : ℕ) (free : FreeAt s.pmm 1 t) (u : ℕ)
    (free' : FreeAt (taken s v t free).pmm 1 u) where
  abbrev base_addr : ℕ
  base_addr = u32 (kheap_start + idx * page_size)

  -- In a state that IsPaging describes, with two free pages and a page table for a heap page other
  -- than the temporary one, mapping a page there and unmapping it leaves the bitmap of physical
  -- pages and what is found at every other address but the temporary one as they were; nothing is
  -- mapped at the address, and the heap page is marked free.
  pub unmmap_page-mmap_page :
      s.kernel_page_directory (pde_index base_addr) ≢ 0
      → ¬ SamePage base_addr s.tmp_map_addr
      → let s' = unmmap_page base_addr (mmap_page flags idx s) in
        IsPaging s'
        × (walk s' base_addr ≡ none)
        × ((a : ℕ)
            → a < 2 ^ 32
            → ¬ SamePage a base_addr
            → ¬ SamePage a s.tmp_map_addr
            → walk s' a ≡ walk s a)
        × ((j : ℕ) → bit_get s'.pmm.bitmap j ≡ bit_get s.pmm.bitmap j)
        × (s'.kheap_pages idx ≡ 0)
  unmmap_page-mmap_page table other =
      let mid = mmap_page flags idx s in
      let m = (mmap_page-Mapped s v flags idx f f_ne t free u free' other).0 in
      let tmp = mmap_page-tmp s v flags idx f f_ne t free u free' in
      let pmm = mmap_page-pmm s v flags idx f f_ne t free u free' table in
      let facts = page_facts s v t free in
      let inside : page s v t free < mid.pmm.bitmap_size = omega (
        arith,
        ap (λ (q : Pmm). q.bitmap_size) pmm,
        (page_inside s v t free).0,
        (page_inside s v t free).1,
      ) in
      let still : ¬ SamePage base_addr mid.tmp_map_addr = λ e. other (omega (arith, e, tmp)) in
      let r =
        unmmap_page-Unmapped mid m.paging base_addr (page s v t free) flags (omega arith) f inside
          m.mapped m.not_table still in
      let at : sub32 base_addr kheap_start / page_size ≡ idx = omega (arith, heap) in
      (
        r.0.paging,
        r.0.gone,
        λ a wa ob ot. r.0.others a wa ob (λ e. ot (omega (arith, e, tmp))) ∙ m.others a wa ob ot,
        λ j.
            ground
              (arith, r.0.bits j, ap (λ (q : Pmm). bit_get q.bitmap j) pmm, facts.3 j, facts.2),
        ap (unmmap_page base_addr mid).kheap_pages (sym at) ∙ r.1,
      )
