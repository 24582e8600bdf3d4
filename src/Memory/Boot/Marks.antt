-- ===== src/Memory/Boot/Marks.antt =====
-- Which pages `populate_bitmap` marks used.
pub mod Entries
pub mod Overlap
use kernel_study.Base.{
  ◌≢◌, ==_ne, ◌&&◌, Bool-cases, inl, inr, ℕ, ◌+◌, ◌-◌, ◌/◌, ◌%◌, ◌^◌, ◌<◌, ◌≤◌, ◌≡◌, refl, Bool,
  false, ◌||◌, some, List, [], ◌∷◌, arith, ltb, leb, ◌==◌, if◌then◌else◌, u64, sub64, ap, ◌∙◌,
}
use kernel_study.Memory.Align.{
  page_size, align_up_4k, align_down_4k, page_of_align_up, page_of_align_down,
}
use kernel_study.Memory.Bitmap.{Bytes, IsBytes, bit_get}
use kernel_study.Memory.Pmm.{Pmm, clear_bitmaps}
use kernel_study.Memory.Pmm.Ranges.{
  in_range, set_used_bitmaps-IsBytes, clear_bitmaps-IsBytes, bit_get-set_used_bitmaps,
  bit_get-clear_bitmaps,
}
use kernel_study.Memory.Boot.{
  Entry, BootModule, MemoryMap, memory_available, mark_range, mark_entry, mark_gap, mark_kernel,
  populate_bitmap, widen_char,
}
use kernel_study.Memory.Boot.Walk.{Chain, Chain-fuel, mark_entries, mark_map-mark_entries}
use kernel_study.Memory.Boot.Marks.Overlap.{map_counted, map_used, AreSnug, map_counted-map_used}
use kernel_study.Memory.Boot.Marks.Entries.{
  counted, Marks, Marks-trans, mark_range-Marks, IsEntry, entry_counted, gap_counted,
  mark_entry-Marks, mark_gap-Marks,
}

module _ (mm : MemoryMap) where
  abbrev pub AreEntries : ℕ → List ℕ → Type 0
  AreEntries m [] = IsEntry (mm.entry_at m)
  AreEntries m (n ∷ ns) = IsEntry (mm.entry_at m) × AreEntries n ns

  AreEntries-head : (m : ℕ) (ns : List ℕ) → AreEntries m ns → IsEntry (mm.entry_at m)
  AreEntries-head m [] h = h
  AreEntries-head m (n ∷ ns) h = h.0

  mark_entries-Marks :
      (bitmap : Bytes) (m : ℕ) (ns : List ℕ)
      → IsBytes bitmap
      → AreEntries m ns
      → Marks (map_counted mm m ns) bitmap (mark_entries mm bitmap m ns)
  unfolding mark_entries
  mark_entries-Marks bitmap m [] h v = mark_entry-Marks bitmap (mm.entry_at m) h v
  mark_entries-Marks bitmap m (n ∷ ns) h v =
      let one = mark_entry-Marks bitmap (mm.entry_at m) h v.0 in
      let two =
        mark_gap-Marks (mark_entry bitmap (mm.entry_at m)) (mm.entry_at m) (mm.entry_at n) one.0 v.0
          (AreEntries-head n ns v.1) in
      Marks-trans _ _ bitmap _ _ (Marks-trans _ _ bitmap _ _ one two) (
        mark_entries-Marks
          (mark_gap (mark_entry bitmap (mm.entry_at m)) (mm.entry_at m) (mm.entry_at n)) n ns two.0
          v.1)

-- The pages of the boot module.
abbrev pub module_used : BootModule → ℕ → Bool
module_used b j = leb (b.mod_start / page_size) j && ltb j ((b.mod_end + page_size - 1) / page_size)

-- The values that the boot code hands over: a first kernel byte that is an ASCII value, an end of
-- the kernel on a page boundary, and a module that ends below the last page.
pub record IsLayout (kernel_start kernel_end : ℕ) (b : BootModule) : Type 0 where
  pub ascii : kernel_start < 128
  pub aligned : kernel_end % page_size ≡ 0
  pub word : kernel_end < 2 ^ 32
  pub some_kernel : 0 < kernel_end
  pub ordered : b.mod_start ≤ b.mod_end
  pub room : b.mod_end + 0xFFF < 2 ^ 32

kernel_pages :
    (bitmap : Bytes) (c e : ℕ)
    → IsBytes bitmap
    → c < 128
    → e % page_size ≡ 0
    → e < 2 ^ 32
    → 0 < e
    → Marks
        (λ j. ltb j (e / page_size))
        bitmap
        (mark_range bitmap (widen_char c) (sub64 e (widen_char c)))
kernel_pages bitmap c e h ascii aligned word pos =
    let start : widen_char c ≡ c = ground arith in
    let len : sub64 e c ≡ e - c = omega arith in
    let range = mark_range-Marks bitmap c (e - c) h (omega arith) (omega arith) in
    rw (start, len) (range.0, λ j. ground (arith, range.1 j))

mark_kernel-Marks :
    (bitmap : Bytes) (c e : ℕ) (b : BootModule)
    → IsBytes bitmap
    → IsLayout c e b
    → Marks (λ j. ltb j (e / page_size) || module_used b j) bitmap (mark_kernel bitmap c e b)
unfolding mark_kernel
mark_kernel-Marks bitmap c e b h v =
    let kernel = kernel_pages bitmap c e h v.ascii v.aligned v.word v.some_kernel in
    let first : align_down_4k b.mod_start / page_size ≡ b.mod_start / page_size =
      omega (arith, page_of_align_down b.mod_start (omega (arith, v.ordered, v.room))) in
    let final : align_up_4k b.mod_end / page_size ≡ (b.mod_end + page_size - 1) / page_size =
      omega (arith, page_of_align_up b.mod_end v.room) in
    let count : sub64 ((b.mod_end + page_size - 1) / page_size) (b.mod_start / page_size)
        ≡ (b.mod_end + page_size - 1) / page_size - b.mod_start / page_size =
      omega (arith, v.ordered, v.room) in
    rw (first, final, count)
      (Marks-trans _ (module_used b) bitmap _ _ kernel (
        set_used_bitmaps-IsBytes _ _ _ kernel.0,
        λ j.
            bit_get-set_used_bitmaps _ (b.mod_start / page_size)
              ((b.mod_end + page_size - 1) / page_size - b.mod_start / page_size) j kernel.0
              (omega (arith, v.ordered, v.room))
            ∙ ground (arith, v.ordered),
      ))

-- On a memory map whose entries follow one another up to its end without wrapping round and end below
-- 2^64, and whose reserved entries and gaps are snug, none ending a page later than the same length from a
-- page boundary would; with the first byte of the kernel, which the code reads as `_kernel_start`, an ASCII value,
-- with an end of the kernel between 0 and 2^32 on a page boundary, with a module that does not end before it starts nor
-- in the last page below 2^32, with a bitmap of bytes and fewer than 2^64 pages: `populate_bitmap` ends, and of the
-- pages below `bitmap_size` exactly these are used afterwards: those with a byte of a reserved entry or of a
-- gap of the memory map, those below the end of the kernel, and those of the boot module.
pub populate_bitmap_lem :
    (mm : MemoryMap) (ns : List ℕ) (c e : ℕ) (b : BootModule) (s : Pmm)
    → Chain mm mm.mmap_addr ns
    → AreEntries mm mm.mmap_addr ns
    → AreSnug mm mm.mmap_addr ns
    → IsLayout c e b
    → IsBytes s.bitmap
    → s.bitmap_size < 2 ^ 64
    → (s' : Pmm) × (populate_bitmap mm c e b s ≡ some s')
      × (s'.bitmap_size ≡ s.bitmap_size)
      × ((j : ℕ)
          → j < s.bitmap_size
          → bit_get s'.bitmap j ≡ (
              if map_used mm mm.mmap_addr ns j || (ltb j (e / page_size) || module_used b j)
              then 1
              else 0))
unfolding populate_bitmap
populate_bitmap_lem mm ns c e b s chain entries snug layout h w =
    let cleared = clear_bitmaps s.bitmap 0 s.bitmap_size in
    let clean = clear_bitmaps-IsBytes s.bitmap 0 s.bitmap_size h in
    let offered = mark_entries-Marks mm cleared mm.mmap_addr ns clean entries in
    let after = mark_entries mm cleared mm.mmap_addr ns in
    let held = mark_kernel-Marks after c e b offered.0 layout in
    let all =
      Marks-trans (map_counted mm mm.mmap_addr ns) (λ j. ltb j (e / page_size) || module_used b j)
        cleared after _ offered held in
    (
      record s { bitmap = mark_kernel after c e b },
      rw (mark_map-mark_entries mm mm.mmap_length cleared chain (Chain-fuel mm chain)) refl,
      refl,
      λ j below.
          all.1 j
          ∙ ap
              (λ (bit : ℕ).
                if map_counted mm mm.mmap_addr ns j || (ltb j (e / page_size) || module_used b j)
                then 1
                else bit)
              (bit_get-clear_bitmaps s.bitmap 0 s.bitmap_size j h (omega arith) ∙ ground arith)
          ∙ ap
              (λ (used : Bool). if used || (ltb j (e / page_size) || module_used b j) then 1 else 0)
              (map_counted-map_used mm mm.mmap_addr ns snug j),
    )

-- The last page that a reserved entry touches is marked exactly when the entry does not cross one
-- page boundary more than its rounded length: an entry whose address is not on a page boundary may
-- end in a page that stays as it was.
pub mark_entry_last_page :
    (bitmap : Bytes) (e : Entry)
    → IsBytes bitmap
    → IsEntry e
    → e.kind ≢ memory_available
    → 0 < e.len
    → let last = (e.addr + e.len - 1) / page_size in
      bit_get (mark_entry bitmap e) last ≡ (
        if ltb (e.addr % page_size + (e.len - 1) % page_size) page_size
        then 1
        else bit_get bitmap last)
mark_entry_last_page bitmap e h v kind pos =
    (mark_entry-Marks bitmap e h v).1 ((e.addr + e.len - 1) / page_size)
    ∙ rw (==_ne e.kind memory_available kind) (ground arith)
