-- ===== src/Memory/Boot/Walk.antt =====
-- The walks over the boot loader's memory map end, and visit its entries in order.
use kernel_study.Base.{
  ℕ, zero, suc, ◌+◌, ◌^◌, ◌<◌, ◌≤◌, ◌≡◌, some, List, [], ◌∷◌, arith, length, last_of,
}
use kernel_study.Memory.Bitmap.{Bytes}
use kernel_study.Memory.Boot.{
  MemoryMap, next_entry, map_end, fetch_from, fetch_highest_block, mark_entry, mark_gap, mark_map,
}

module _ (mm : MemoryMap) where
  -- An entry within the map whose successor's address does not wrap round.
  pub record Inside (m : ℕ) : Type 0 where
    pub below : m < map_end mm
    pub no_wrap : m + (mm.entry_at m).size + 4 < 2 ^ 32

  -- The map's entries from `m` on stand at `m` and the listed addresses, each behind the one
  -- before it, and the last one reaches the end of the map.
  pub data Chain : ℕ → List ℕ → Type 0 where
    stop : {m : ℕ} → Inside m → map_end mm ≤ next_entry mm m → Chain m []
    step :
        {m n : ℕ} {ns : List ℕ}
        → Inside m
        → n ≡ next_entry mm m
        → n < map_end mm
        → Chain n ns
        → Chain m (n ∷ ns)

  pub Chain-Inside : {m : ℕ} {ns : List ℕ} → Chain m ns → Inside m
  Chain-Inside (stop h e) = h
  Chain-Inside (step h e l c) = h

  -- Every entry takes four bytes or more.
  pub length-Chain : {m : ℕ} {ns : List ℕ} → Chain m ns → m + length ns < map_end mm
  unfolding next_entry
  length-Chain (stop h e) = omega (arith, h.below)
  length-Chain (step {m} {n} {ns} h e l c) = omega (arith, length-Chain c, h.no_wrap)

  pub fetch_from-last :
      (fuel : ℕ) {m : ℕ} {ns : List ℕ}
      → Chain m ns
      → length ns < fuel
      → fetch_from mm fuel m ≡ some (last_of m ns)
  unfolding fetch_from
  fetch_from-last zero c h = absurd (omega arith)
  fetch_from-last (suc fuel) (stop i e) h = ground arith
  fetch_from-last (suc fuel) (step i e l c) h = ground (arith, fetch_from-last fuel c (omega arith))

  -- The loop that marks pages, as a recursion on the entries.
  unfoldable pub mark_entries : Bytes → ℕ → List ℕ → Bytes
  mark_entries bitmap m [] = mark_entry bitmap (mm.entry_at m)
  mark_entries bitmap m (n ∷ ns) =
      mark_entries (mark_gap (mark_entry bitmap (mm.entry_at m)) (mm.entry_at m) (mm.entry_at n)) n
        ns

  pub mark_map-mark_entries :
      (fuel : ℕ) {m : ℕ} {ns : List ℕ} (bitmap : Bytes)
      → Chain m ns
      → length ns < fuel
      → mark_map mm fuel m bitmap ≡ some (mark_entries bitmap m ns)
  unfolding mark_map mark_entries
  mark_map-mark_entries zero bitmap c h = absurd (omega arith)
  mark_map-mark_entries (suc fuel) bitmap (stop i e) h = ground arith
  mark_map-mark_entries (suc fuel) bitmap (step {m} {n} {ns} i e l c) h = ground (
    arith,
    mark_map-mark_entries fuel
        (mark_gap (mark_entry bitmap (mm.entry_at m)) (mm.entry_at m) (mm.entry_at n)) c
        (omega arith),
  )

  pub Chain-fuel : {ns : List ℕ} → Chain mm.mmap_addr ns → length ns < mm.mmap_length
  Chain-fuel c = omega (arith, length-Chain c)

  -- Each entry starts at or behind the end of the one before it.
  abbrev pub IsAscending : ℕ → List ℕ → Type 0
  IsAscending m [] = Unit {0}
  IsAscending m (n ∷ ns) =
      ((mm.entry_at m).addr + (mm.entry_at m).len ≤ (mm.entry_at n).addr) × IsAscending n ns

  -- Every entry ends at or below `top`.
  abbrev pub EndsBelow : ℕ → ℕ → List ℕ → Type 0
  EndsBelow top m [] = (mm.entry_at m).addr + (mm.entry_at m).len ≤ top
  EndsBelow top m (n ∷ ns) = ((mm.entry_at m).addr + (mm.entry_at m).len ≤ top) × EndsBelow top n ns

  EndsBelow-last :
      (m : ℕ) (ns : List ℕ)
      → IsAscending m ns
      → let e = mm.entry_at (last_of m ns) in
        EndsBelow (e.addr + e.len) m ns × ((mm.entry_at m).addr ≤ e.addr + e.len)
  EndsBelow-last m [] h = (omega arith, omega arith)
  EndsBelow-last m (n ∷ ns) h =
      let rest = EndsBelow-last n ns h.1 in
      ((omega (arith, h.0, rest.1), rest.0), omega (arith, h.0, rest.1))

  -- On a memory map whose entries follow one another up to its end, without wrapping round, and
  -- ascend, each starting no lower than the one before it ends, `fetch_highest_block` ends and returns
  -- the last entry, and no entry of the map ends above that one.
  pub fetch_highest_block-last :
      (ns : List ℕ)
      → Chain mm.mmap_addr ns
      → IsAscending mm.mmap_addr ns
      → let e = mm.entry_at (last_of mm.mmap_addr ns) in
        (fetch_highest_block mm ≡ some e) × EndsBelow (e.addr + e.len) mm.mmap_addr ns
  unfolding fetch_highest_block
  fetch_highest_block-last ns c h =
      (rw (fetch_from-last mm.mmap_length c (Chain-fuel c)), (EndsBelow-last mm.mmap_addr ns h).0)
