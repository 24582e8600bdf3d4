-- ===== src/Memory/Boot/Tests.antt =====
-- A memory map of two entries, marked and searched.
use kernel_study.Base.{
  ℕ, ◌+◌, ◌/◌, ◌<◌, ◌≡◌, refl, ◌||◌, [], ◌∷◌, some, arith, inl, inr, ltb, ◌==◌, if◌then◌else◌,
}
use kernel_study.Memory.Align.{page_size}
use kernel_study.Memory.Bitmap.{bit_get}
use kernel_study.Memory.Pmm.{Pmm}
use kernel_study.Memory.Boot.{
  Entry, BootModule, MemoryMap, next_entry, fetch_highest_block, populate_bitmap,
}
use kernel_study.Memory.Boot.Walk.{Chain, stop, step, EndsBelow, fetch_highest_block-last}
use kernel_study.Memory.Boot.Marks.{module_used, populate_bitmap_lem}
use kernel_study.Memory.Boot.Marks.Overlap.{map_used}

abbrev low_memory : Entry
low_memory = record { size = 20; addr = 0; len = 0x9FC00; kind = 1 }

abbrev reserved : Entry
reserved = record { size = 20; addr = 0x9FC00; len = 0x10400; kind = 2 }

abbrev some_map : MemoryMap
some_map = record {
  entry_at = λ m. if m == 0x10000 then low_memory else reserved;
  mmap_addr = 0x10000;
  mmap_length = 48;
}

some_map-Chain : Chain some_map 0x10000 (0x10018 ∷ [])
unfolding next_entry
some_map-Chain =
    step (record { below = omega arith; no_wrap = omega arith }) refl (omega arith)
      (stop (record { below = omega arith; no_wrap = omega arith }) (omega arith))

fetch_highest_block-last_example :
    (fetch_highest_block some_map ≡ some reserved)
    × EndsBelow some_map (0x9FC00 + 0x10400) 0x10000 (0x10018 ∷ [])
fetch_highest_block-last_example =
    fetch_highest_block-last some_map (0x10018 ∷ []) some_map-Chain (omega arith, tt)

abbrev some_module : BootModule
some_module = record { mod_start = 0x80000; mod_end = 0x82345 }

abbrev dirty : Pmm
dirty = record { bitmap = λ i. 0xA5; bitmap_size = 176 }

populate_bitmap_lem_example :
    (s' : Pmm) × (populate_bitmap some_map 0x55 0x20000 some_module dirty ≡ some s')
    × (s'.bitmap_size ≡ 176)
    × ((j : ℕ)
        → j < 176
        → bit_get s'.bitmap j ≡ (
            if map_used some_map 0x10000 (0x10018 ∷ []) j
              || (ltb j (0x20000 / page_size) || module_used some_module j)
            then 1
            else 0))
populate_bitmap_lem_example =
    populate_bitmap_lem some_map (0x10018 ∷ []) 0x55 0x20000 some_module dirty some_map-Chain
      (record { fits = omega arith }, record { fits = omega arith })
      (inl refl, inl refl, inr (inr (omega arith)))
      (record {
        ascii = omega arith;
        aligned = refl;
        word = omega arith;
        some_kernel = omega arith;
        ordered = omega arith;
        room = omega arith;
      })
      (λ i. omega arith) (omega arith)
