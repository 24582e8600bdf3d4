-- ===== src/Memory/Boot/Marks/Entries.antt =====
-- The pages of one range, of one entry and of one gap of the memory map.
use kernel_study.Base.{
  Bool-cases, inl, inr, ℕ, ◌+◌, ◌-◌, ◌/◌, ◌%◌, ◌^◌, ◌<◌, ◌≡◌, refl, Bool, false, ◌||◌, arith, ltb,
  ◌==◌, if◌then◌else◌, u64, sub64,
}
use kernel_study.Memory.Align.{page_size}
use kernel_study.Memory.Bitmap.{Bytes, IsBytes, bit_get}
use kernel_study.Memory.Pmm.Ranges.{in_range, set_used_bitmaps-IsBytes, bit_get-set_used_bitmaps}
use kernel_study.Memory.Boot.{Entry, memory_available, mark_range, mark_entry, mark_gap}

-- The page `j` is one of as many as a range of `len` bytes needs from a page boundary on, counted from the
-- page of its first byte: how the code does it.
abbrev pub counted : ℕ → ℕ → ℕ → Bool
counted addr len j = in_range (addr / page_size) ((len + page_size - 1) / page_size) j

-- Marking reads as a disjunction on each page.
abbrev pub Marks : (ℕ → Bool) → Bytes → Bytes → Type 0
Marks used before after =
    IsBytes after × ((j : ℕ) → bit_get after j ≡ (if used j then 1 else bit_get before j))

pub Marks-trans :
    (used more : ℕ → Bool) (a b c : Bytes)
    → Marks used a b
    → Marks more b c
    → Marks (λ j. used j || more j) a c
Marks-trans used more a b c h k = (k.0, λ j. ground (arith, h.1 j, k.1 j))

pub mark_range-Marks :
    (bitmap : Bytes) (addr len : ℕ)
    → IsBytes bitmap
    → addr < 2 ^ 64
    → len < 2 ^ 64
    → Marks (counted addr len) bitmap (mark_range bitmap addr len)
unfolding mark_range
mark_range-Marks bitmap addr len h ha hl =
    let e : len / page_size + (if ltb 0 (len % page_size) then 1 else 0)
        ≡ (len + page_size - 1) / page_size =
      ground arith in
    rw e (
      set_used_bitmaps-IsBytes bitmap _ _ h,
      λ j.
          bit_get-set_used_bitmaps bitmap (addr / page_size) ((len + page_size - 1) / page_size) j h
            (omega arith),
    )

-- A range of addresses that does not wrap round.
pub record IsEntry (e : Entry) : Type 0 where
  pub fits : e.addr + e.len < 2 ^ 64

-- What the loop counts for one entry that is not offered, and for what lies between two entries.
abbrev pub entry_counted : Entry → ℕ → Bool
entry_counted e j = if e.kind == memory_available then false else counted e.addr e.len j

abbrev pub gap_counted : Entry → Entry → ℕ → Bool
gap_counted e next j =
    if ltb (e.addr + e.len) next.addr
    then counted (e.addr + e.len) (next.addr - (e.addr + e.len)) j
    else false

pub mark_entry-Marks :
    (bitmap : Bytes) (e : Entry)
    → IsBytes bitmap
    → IsEntry e
    → Marks (entry_counted e) bitmap (mark_entry bitmap e)
unfolding mark_entry
mark_entry-Marks bitmap e h v =
    let len : sub64 (u64 (e.addr + e.len)) e.addr ≡ e.len = omega (arith, v.fits) in
    let range =
      mark_range-Marks bitmap e.addr e.len h (omega (arith, v.fits)) (omega (arith, v.fits)) in
    elim (Bool-cases (e.kind == memory_available)) [
      | inl free ↦ rw free (h, λ j. refl)
      | inr used ↦ rw (used, len) range
    ]

pub mark_gap-Marks :
    (bitmap : Bytes) (e next : Entry)
    → IsBytes bitmap
    → IsEntry e
    → IsEntry next
    → Marks (gap_counted e next) bitmap (mark_gap bitmap e next)
unfolding mark_gap
mark_gap-Marks bitmap e next h v w =
    let stop : u64 (e.addr + e.len) ≡ e.addr + e.len = omega (arith, v.fits) in
    elim (Bool-cases (ltb (e.addr + e.len) next.addr)) [
      | inl gap ↦
          let lt : e.addr + e.len < next.addr = ground arith in
          let len : sub64 next.addr (e.addr + e.len) ≡ next.addr - (e.addr + e.len) =
            omega (arith, w.fits) in
          rw (stop, gap, len)
            (mark_range-Marks bitmap (e.addr + e.len) (next.addr - (e.addr + e.len)) h
              (omega (arith, v.fits)) (omega (arith, w.fits)))
      | inr none_between ↦ rw (stop, none_between) (h, λ j. refl)
    ]
