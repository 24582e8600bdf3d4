-- ===== src/Userspace/Malloc/Split.antt =====
-- Splitting a free block, and the loop that prints the free list behind it.
use kernel_study.Base.{
  ℕ, suc, ◌+◌, ◌-◌, ◌^◌, ◌<◌, ◌≡◌, ◌≢◌, refl, true, false, some, ◌==◌, ltb, leb, if◌then◌else◌,
  arith, ◌∙◌, zero, Bool, Bool-cases, inl, inr, List, [], ◌∷◌, length, ◌≤◌, u32, sub32, update,
}
use kernel_study.Scheduler.Ring.{Seg, Seg-frame, has}
use kernel_study.Userspace.Malloc.{
  Ptr, null, Pool, relink, split_block, print_blocks, split_and_print, search_blocks,
}

abbrev pub next_block : {S : Type 0} → Pool S → Ptr → Ptr
next_block h p = (h.blocks p).next_mem_block

-- The loop that prints ends where the list does.
print_blocks_ends :
    {S : Type 0} (h : Pool S) (fuel : ℕ) (p : Ptr) (xs : List Ptr)
    → Seg (next_block h) p xs null
    → length xs < fuel
    → (out : List (ℕ × Bool)) × (print_blocks fuel p h ≡ some out)
unfolding print_blocks
print_blocks_ends h zero p xs chain enough = absurd (omega arith)
print_blocks_ends h (suc fuel) p [] chain enough =
    let end : (p == null) ≡ true = ground (arith, chain) in ([], rw end refl)
print_blocks_ends h (suc fuel) p (x ∷ xs) chain enough = elim (Bool-cases (p == null)) [
  | inl end ↦ ([], rw end refl)
  | inr more ↦
      let rest =
        print_blocks_ends h fuel (next_block h p) xs (rw (chain.0) chain.1)
          (omega (arith, enough)) in
      (((h.blocks p).size, (h.blocks p).is_allocated) ∷ rest.0, rw (more, rest.1) refl)
]

module _ {S : Type 0} (h : Pool S) (aligned it : ℕ) (room : it + aligned + 16 < 2 ^ 32)
    (there : it ≢ null) (larger : aligned < (h.blocks it).size)
    (word : (h.blocks it).size < 2 ^ 32) where
  abbrev splitted : Ptr
  splitted = it + aligned + 16

  abbrev cut : Pool S
  cut = split_block aligned it null h

  target : u32 (it + u32 (aligned + 16)) ≡ splitted
  target = omega (arith, room)

  split-size : (cut.blocks splitted).size ≡ sub32 (h.blocks it).size (u32 (aligned + 16))
  unfolding split_block relink update
  split-size = ground (arith, target)

  split-head : (cut.pages (h.blocks it).parent_page).free_blocks ≡ splitted
  unfolding split_block relink update
  split-head = ground (arith, target)

  split-parent : (cut.blocks it).parent_page ≡ (h.blocks it).parent_page
  unfolding split_block relink update
  split-parent = ground (arith, target)

  split-next : next_block cut splitted ≡ next_block h it
  unfolding split_block relink update
  split-next = ground (arith, target)

  split-next_other : (a : Ptr) → a ≢ it → a ≢ splitted → next_block cut a ≡ next_block h a
  unfolding split_block relink update
  split-next_other a ne ne' = ground (arith, target, ne, ne')

  -- The free list of the page after the split.
  split-Seg :
      (xs : List Ptr)
      → Seg (next_block h) (next_block h it) xs null
      → has it xs ≡ false
      → has splitted xs ≡ false
      → Seg (next_block cut) splitted (splitted ∷ xs) null
  split-Seg xs chain apart apart' = (
    refl,
    rw split-next (
        Seg-frame (next_block h) (next_block cut) (next_block h it) xs null
          (λ a i. split-next_other a (λ e. cc) (λ e. cc)) chain),
  )

  -- The first free block of a page, at an address whose end does not wrap, is split if it is
  -- larger than the request, where the free list behind it comes to an end and has neither the block nor the
  -- place of the new header in it; the loop that then prints the free list ends, and the address behind the
  -- header of the block is returned. The rest, at the head of the free list, has the size that is left
  -- behind a new header; a block with less than 16 bytes more than the request has no room for
  -- one, and the size of the rest wraps round to almost 2^32.
  pub search_blocks-split :
      (xs : List Ptr) (fuel : ℕ)
      → Seg (next_block h) (next_block h it) xs null
      → has it xs ≡ false
      → has splitted xs ≡ false
      → length xs + 2 ≤ fuel
      → search_blocks (suc fuel) aligned it null h ≡ some (some (it + 16, cut))
        × ((cut.pages (h.blocks it).parent_page).free_blocks ≡ splitted)
        × ((cut.blocks splitted).size ≡ (
            if leb (aligned + 16) (h.blocks it).size
            then (h.blocks it).size - (aligned + 16)
            else (h.blocks it).size + 2 ^ 32 - (aligned + 16)))
  unfolding search_blocks split_and_print
  search_blocks-split xs fuel chain apart apart' enough =
      let printed =
        print_blocks_ends cut fuel splitted (splitted ∷ xs) (split-Seg xs chain apart apart')
          (omega (arith, enough)) in
      let some_block : (it == null) ≡ false = ground (arith, there) in
      let more : ltb aligned (h.blocks it).size ≡ true = ground (arith, larger) in
      let at : u32 (it + 16) ≡ it + 16 = omega (arith, room) in
      (
        rw (some_block, more, at, split-parent, split-head, printed.1) refl,
        split-head,
        split-size ∙ ground (arith, room, larger, word),
      )
