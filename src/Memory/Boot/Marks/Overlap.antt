-- ===== src/Memory/Boot/Marks/Overlap.antt =====
-- The pages with a byte of a reserved entry or of a gap of the memory map, and where the count of the code
-- comes to the same.
use kernel_study.Base.{
  ◌⊎◌, inl, inr, ℕ, ◌+◌, ◌-◌, ◌*◌, ◌/◌, ◌%◌, ◌≤◌, ◌≡◌, refl, Bool, false, ◌||◌, ◌&&◌, List, [], ◌∷◌,
  arith, ltb, ◌==◌, if◌then◌else◌, ap, ◌∙◌,
}
use kernel_study.Memory.Align.{page_size}
use kernel_study.Memory.Boot.{Entry, MemoryMap, memory_available}
use kernel_study.Memory.Boot.Marks.Entries.{counted, entry_counted, gap_counted}

-- A byte of the range lies in the page `j`.
abbrev pub covered : (addr len j : ℕ) → Bool
covered addr len j =
    ltb addr ((j + 1) * page_size) && (ltb (j * page_size) (addr + len) && ltb 0 len)

abbrev pub entry_used : Entry → ℕ → Bool
entry_used e j = if e.kind == memory_available then false else covered e.addr e.len j

abbrev pub gap_used : Entry → Entry → ℕ → Bool
gap_used e next j =
    if ltb (e.addr + e.len) next.addr
    then covered (e.addr + e.len) (next.addr - (e.addr + e.len)) j
    else false

-- The range touches no more pages than the same length does from a page boundary on.
abbrev pub IsSnug : (addr len : ℕ) → Type 0
IsSnug addr len =
    (len ≡ 0) ⊎ (addr % page_size + len ≤ (len + page_size - 1) / page_size * page_size)

abbrev pub IsSnugEntry : Entry → Type 0
IsSnugEntry e = (e.kind ≡ memory_available) ⊎ IsSnug e.addr e.len

counted-covered : (addr len j : ℕ) → IsSnug addr len → counted addr len j ≡ covered addr len j
counted-covered addr len j (inl h) = ground (arith, h)
counted-covered addr len j (inr h) = ground (arith, h)

entry_counted-entry_used : (e : Entry) (j : ℕ) → IsSnugEntry e → entry_counted e j ≡ entry_used e j
entry_counted-entry_used e j (inl offered) = rw offered refl
entry_counted-entry_used e j (inr h) = rw (counted-covered e.addr e.len j h) refl

gap_counted-gap_used :
    (e next : Entry) (j : ℕ)
    → IsSnug (e.addr + e.len) (next.addr - (e.addr + e.len))
    → gap_counted e next j ≡ gap_used e next j
gap_counted-gap_used e next j h =
    rw (counted-covered (e.addr + e.len) (next.addr - (e.addr + e.len)) j h) refl

module _ (mm : MemoryMap) where
  -- What the loop counts over the whole map.
  abbrev pub map_counted : ℕ → List ℕ → ℕ → Bool
  map_counted m [] j = entry_counted (mm.entry_at m) j
  map_counted m (n ∷ ns) j =
      (entry_counted (mm.entry_at m) j || gap_counted (mm.entry_at m) (mm.entry_at n) j)
      || map_counted n ns j

  -- What the whole map says of the page `j`.
  abbrev pub map_used : ℕ → List ℕ → ℕ → Bool
  map_used m [] j = entry_used (mm.entry_at m) j
  map_used m (n ∷ ns) j =
      (entry_used (mm.entry_at m) j || gap_used (mm.entry_at m) (mm.entry_at n) j)
      || map_used n ns j

  -- Every reserved entry and every gap is snug.
  abbrev pub AreSnug : ℕ → List ℕ → Type 0
  AreSnug m [] = IsSnugEntry (mm.entry_at m)
  AreSnug m (n ∷ ns) =
      IsSnugEntry (mm.entry_at m)
      × IsSnug ((mm.entry_at m).addr + (mm.entry_at m).len)
          ((mm.entry_at n).addr - ((mm.entry_at m).addr + (mm.entry_at m).len))
      × AreSnug n ns

  pub map_counted-map_used :
      (m : ℕ) (ns : List ℕ) → AreSnug m ns → (j : ℕ) → map_counted m ns j ≡ map_used m ns j
  map_counted-map_used m [] h j = entry_counted-entry_used (mm.entry_at m) j h
  map_counted-map_used m (n ∷ ns) h j =
      let one = entry_counted-entry_used (mm.entry_at m) j h.0 in
      let two = gap_counted-gap_used (mm.entry_at m) (mm.entry_at n) j h.1 in
      ap (λ (x : Bool). (x || gap_counted (mm.entry_at m) (mm.entry_at n) j) || map_counted n ns j)
        one
      ∙ ap (λ (x : Bool). (entry_used (mm.entry_at m) j || x) || map_counted n ns j) two
      ∙ ap
          (λ (x : Bool).
            (entry_used (mm.entry_at m) j || gap_used (mm.entry_at m) (mm.entry_at n) j) || x)
          (map_counted-map_used n ns h.2 j)
