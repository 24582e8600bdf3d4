-- ===== src/Graphics/Video.antt =====
-- `init_video_memory` of kernel/graphics/framebuffer.c, which maps the frame buffer into the kernel's page tables. The
-- `debug_write` that reports an index behind the page directory is left out.
use kernel_study.Base.{
  ℕ, zero, suc, ◌+◌, ◌*◌, ◌/◌, ◌^◌, ◌<◌, ◌≡◌, refl, false, ◌==◌, leb, if◌then◌else◌, bit_and,
  bit_or, u32, update, some, arith, ap, ◌∙◌,
}
use kernel_study.Memory.Align.{page_size, page_mask, pde_index, pte_index, page_entry}
use kernel_study.Memory.Bitmap.{bit_get}
use kernel_study.Memory.Pmm.Alloc.{FreeAt}
use kernel_study.Memory.Paging.{
  Paging, map_tmp_page, unmap_tmp_page, tmp_set, alloc_zeroed, need_table, set_entry,
}
use kernel_study.Memory.Paging.Tmp.{set_entry-kept}
use kernel_study.Memory.Paging.Frames.{walk, IsPaging, SamePage}
use kernel_study.Memory.Paging.Alloc.{NotTable}
use kernel_study.Memory.Paging.Table.{need_table-HasTable}
use kernel_study.Memory.Paging.Kernel.{written-walk, written-walk_others}
use kernel_study.Graphics.{Framebuffer}

abbrev pub kheap_end : ℕ
kheap_end = 0xE0000000

-- The page directory gets a page table at `base_pde` if it has none.
unfoldable pub video_table : (base_pde : ℕ) → Paging → Paging
video_table base_pde s =
    let (table, t) = alloc_zeroed s in
    if s.kernel_page_directory base_pde == 0
    then record t {
      kernel_page_directory =
          update t.kernel_page_directory base_pde (bit_or (bit_and table page_mask) 3);
    }
    else s

unfoldable pub video_entry : (base_pde base_pte entry : ℕ) → Paging → Paging
video_entry base_pde base_pte entry s =
    unmap_tmp_page (tmp_set base_pte entry (map_tmp_page (s.kernel_page_directory base_pde) s))

-- One round of the loop.
unfoldable pub video_page : (base_pde base_pte base_addr : ℕ) → Paging → Paging
video_page base_pde base_pte base_addr s =
    video_entry base_pde base_pte (bit_or (bit_and base_addr page_mask) 3) (video_table base_pde s)

-- The loop, with `rounds` pages to go.
unfoldable pub video_pages : (base_pde base_pte base_addr rounds : ℕ) → Paging → Paging
video_pages base_pde base_pte base_addr zero s = s
video_pages base_pde base_pte base_addr (suc rounds) s =
    let wraps = leb 1024 (base_pte + 1) in
    video_pages (if wraps then base_pde + 1 else base_pde) (if wraps then 0 else base_pte + 1)
      (u32 (base_addr + page_size)) rounds (video_page base_pde base_pte base_addr s)

-- The screen's size and pitch, which become the driver's, and its address are what the boot loader says.
unfoldable pub init_video_memory : Framebuffer → (addr : ℕ) → Paging → Paging
init_video_memory fb addr s =
    video_pages (pde_index kheap_end) (pte_index kheap_end) (u32 addr)
      (u32 (fb.pitch * fb.height) / page_size) s

-- A round writes the entry of the virtual address that its indices make up.
video_page-set_entry :
    (virt_addr base_addr : ℕ) (s : Paging)
    → video_page (pde_index virt_addr) (pte_index virt_addr) base_addr s
      ≡ set_entry virt_addr (bit_or (bit_and base_addr page_mask) 3) (need_table virt_addr 3 s)
unfolding video_page video_table video_entry set_entry need_table
video_page-set_entry virt_addr base_addr s = refl

module _ (s : Paging) (v : IsPaging s) (virt_addr base_addr held t : ℕ) (w : virt_addr < 2 ^ 32)
    (word : base_addr < 2 ^ 32) (free : FreeAt s.pmm 1 t)
    (held_used : bit_get s.pmm.bitmap held ≡ 1) (n : NotTable s held)
    (other : ¬ SamePage virt_addr s.tmp_map_addr) where
  -- In a state that IsPaging describes, with a free page and a page in use that is no page table, a round for an address
  -- away from the temporary one puts the frame buffer's page there, and every other address but the temporary one is
  -- mapped as it was.
  pub video_page-walk :
      (walk (video_page (pde_index virt_addr) (pte_index virt_addr) base_addr s) virt_addr
        ≡ some (base_addr / 4096 * 4096 + 3))
      × ((a : ℕ)
          → a < 2 ^ 32
          → ¬ SamePage a virt_addr
          → ¬ SamePage a s.tmp_map_addr
          → walk (video_page (pde_index virt_addr) (pte_index virt_addr) base_addr s) a ≡ walk s a)
  video_page-walk =
      let h =
        need_table-HasTable s v virt_addr 3 held w (omega arith) (λ e. omega (arith, e)) t free
          held_used n in
      let tabled = need_table virt_addr 3 s in
      let entry : ℕ = bit_or (bit_and base_addr page_mask) 3 in
      let value : entry ≡ base_addr / 4096 * 4096 + 3 = page_entry base_addr 3 word (omega arith) in
      let some_entry : (entry == 0) ≡ false = ground (arith, value) in
      let still : ¬ SamePage virt_addr tabled.tmp_map_addr = λ e. other (omega (arith, e, h.tmp)) in
      rw
        (
          video_page-set_entry virt_addr base_addr s,
          set_entry-kept tabled virt_addr entry (h.paging.words (pde_index virt_addr)),
        )
        (
          written-walk tabled h.paging virt_addr entry w h.table still
              ∙ rw some_entry (ap (λ (e : ℕ). some e) value),
          λ a wa ob ot.
              written-walk_others tabled h.paging virt_addr entry w h.table still a wa ob
                (λ e. ot (omega (arith, e, h.tmp)))
              ∙ h.walks a wa ot,
        )
