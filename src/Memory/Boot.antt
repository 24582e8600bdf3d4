-- ===== src/Memory/Boot.antt =====
-- The start of the page allocator in kernel/memory.c: `fetch_highest_block` and `populate_bitmap`
-- over the memory map that the boot loader leaves (kernel/include/multiboot.h).
pub mod Walk
pub mod Marks
mod Tests
use mathlib.Core.Option
use kernel_study.Base.{
  ℕ, zero, suc, ◌+◌, ◌-◌, ◌*◌, ◌/◌, ◌%◌, ◌^◌, ◌<◌, ◌≤◌, Bool, Option, none, some, List, [], ◌∷◌,
  ltb, leb, ◌==◌, if◌then◌else◌, u32, u64, sub64,
}
use kernel_study.Memory.Align.{page_size, align_up_4k, align_down_4k}
use kernel_study.Memory.Bitmap.{Bytes, bit_clear}
use kernel_study.Memory.Pmm.{Pmm, set_used_bitmaps, clear_bitmaps}

-- `multiboot_memory_map_t`. `kind` is the field `type`.
pub record Entry : Type 0 where
  pub size : ℕ
  pub addr : ℕ
  pub len : ℕ
  pub kind : ℕ

-- `multiboot_module_t`, without its two fields that the kernel does not read.
pub record BootModule : Type 0 where
  pub mod_start : ℕ
  pub mod_end : ℕ

abbrev pub memory_available : ℕ
memory_available = 1

-- What the boot loader left in memory: the entry at each address, and the map's bounds.
pub record MemoryMap : Type 0 where
  pub entry_at : ℕ → Entry
  pub mmap_addr : ℕ
  pub mmap_length : ℕ

-- The four lines that mark the pages of a range used, written three times in the source.
unfoldable pub mark_range : Bytes → ℕ → ℕ → Bytes
mark_range bitmap addr range_size =
    set_used_bitmaps bitmap (addr / page_size)
      (range_size / page_size + (if ltb 0 (range_size % page_size) then 1 else 0))

-- The pages that the memory map does not offer.
unfoldable pub mark_entry : Bytes → Entry → Bytes
mark_entry bitmap e =
    if e.kind == memory_available
    then bitmap
    else mark_range bitmap e.addr (sub64 (u64 (e.addr + e.len)) e.addr)

-- The pages between an entry and the next one.
unfoldable pub mark_gap : Bytes → Entry → Entry → Bytes
mark_gap bitmap e next =
    let stop = u64 (e.addr + e.len) in
    if ltb stop next.addr then mark_range bitmap stop (sub64 next.addr stop) else bitmap

module _ (mm : MemoryMap) where
  -- `(uintptr_t)mmap + mmap->size + sizeof(uint32_t)`
  unfoldable pub next_entry : ℕ → ℕ
  next_entry m = u32 (m + (mm.entry_at m).size + 4)

  abbrev pub map_end : ℕ
  map_end = u32 (mm.mmap_addr + mm.mmap_length)

  -- The loop of `fetch_highest_block`; `none` is a loop that is still running.
  unfoldable pub fetch_from : ℕ → ℕ → Option ℕ
  fetch_from zero m = none
  fetch_from (suc fuel) m =
      let rest = fetch_from fuel (next_entry m) in
      if leb map_end (next_entry m) then some m else rest

  -- The second loop of `populate_bitmap`.
  unfoldable pub mark_map : ℕ → ℕ → Bytes → Option Bytes
  mark_map zero m bitmap = none
  mark_map (suc fuel) m bitmap =
      let marked = mark_entry bitmap (mm.entry_at m) in
      let next = next_entry m in
      let rest = mark_map fuel next (mark_gap marked (mm.entry_at m) (mm.entry_at next)) in
      if leb map_end next then some marked else rest

-- `fetch_highest_block`. Each round passes four bytes or more of the map, so that there are at
-- most `mmap_length` of them.
unfoldable pub fetch_highest_block : MemoryMap → Option Entry
fetch_highest_block mm = Option.map mm.entry_at (fetch_from mm mm.mmap_length mm.mmap_addr)

-- `(uint64_t)_kernel_start`: the symbol is declared as a `char`, so this is the byte at that
-- address, widened with its sign.
abbrev pub widen_char : ℕ → ℕ
widen_char c = if ltb c 128 then c else 2 ^ 64 - 256 + c

-- The kernel's range and then the module's, the end of `populate_bitmap`.
unfoldable pub mark_kernel : Bytes → (kernel_start kernel_end : ℕ) → BootModule → Bytes
mark_kernel bitmap kernel_start kernel_end initrd =
    let start = widen_char kernel_start in
    let marked = mark_range bitmap start (sub64 kernel_end start) in
    let module_start = align_down_4k initrd.mod_start / page_size in
    let module_final = align_up_4k initrd.mod_end / page_size in
    set_used_bitmaps marked module_start (sub64 module_final module_start)

-- `populate_bitmap` over the bytes that stand where the bitmap is put. `kernel_start` is the byte
-- at `_kernel_start`.
unfoldable pub populate_bitmap :
    MemoryMap → (kernel_start kernel_end : ℕ) → BootModule → Pmm → Option Pmm
populate_bitmap mm kernel_start kernel_end initrd s =
    Option.map (λ bitmap. record s { bitmap = mark_kernel bitmap kernel_start kernel_end initrd })
      (mark_map mm mm.mmap_length mm.mmap_addr (clear_bitmaps s.bitmap 0 s.bitmap_size))
