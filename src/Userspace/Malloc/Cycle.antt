-- ===== src/Userspace/Malloc/Cycle.antt =====
-- A block that was taken whole from the free list still names the block behind it.
use kernel_study.Base.{
  ◌⊎◌, inl, inr, ℕ, zero, suc, ◌+◌, ◌^◌, ◌<◌, ◌≡◌, ◌≢◌, refl, true, false, none, some, ◌==◌, ltb,
  arith, Bool-cases, ap, ◌∙◌, sym, u32, sub32, update,
}
use kernel_study.Userspace.Malloc.{
  Ptr, null, PageBlock, Pool, set_block, relink, take_block, search_blocks, sum_free, is_page_free,
  last_block, append_block, free,
}

-- A free list that goes round between two blocks is never at its end.
module _ {S : Type 0} (h : Pool S) (a b : Ptr) (a_ne : a ≢ null) (b_ne : b ≢ null)
    (ab : (h.blocks a).next_mem_block ≡ b) (ba : (h.blocks b).next_mem_block ≡ a) where
  sum_free_round : (fuel total it : ℕ) → (it ≡ a) ⊎ (it ≡ b) → sum_free fuel it total h ≡ none
  unfolding sum_free
  sum_free_round zero total it at = refl
  sum_free_round (suc fuel) total it (inl e) =
      let there : (it == null) ≡ false = ground (arith, e, a_ne) in
      let next : (h.blocks it).next_mem_block ≡ b =
        ap (λ (p : Ptr). (h.blocks p).next_mem_block) e ∙ ab in
      rw there (sum_free_round fuel _ (h.blocks it).next_mem_block (inr next))
  sum_free_round (suc fuel) total it (inr e) =
      let there : (it == null) ≡ false = ground (arith, e, b_ne) in
      let next : (h.blocks it).next_mem_block ≡ a =
        ap (λ (p : Ptr). (h.blocks p).next_mem_block) e ∙ ba in
      rw there (sum_free_round fuel _ (h.blocks it).next_mem_block (inl next))

-- A block that does not lie behind the last free one goes behind it in the list.
append_block-links :
    {S : Type 0} (h : Pool S) (it block : Ptr)
    → it ≢ block
    → u32 (it + (h.blocks it).size + 16) ≢ block
    → (((append_block it block h).blocks block).next_mem_block ≡ (h.blocks block).next_mem_block)
      × (((append_block it block h).blocks it).next_mem_block ≡ block)
      × ((append_block it block h).pages ≡ h.pages)
unfolding append_block update
append_block-links h it block other behind =
    let apart : (u32 (it + (h.blocks it).size + 16) == block) ≡ false = ground (arith, behind) in
    elim (Bool-cases (h.blocks it).is_allocated) [
      | inl y ↦ rw y (ground (arith, other), ground arith, refl)
      | inr n ↦ rw (n, apart) (ground (arith, other), ground arith, refl)
    ]

-- The free list of a page is `a`, of the size that is asked for, and `b`.
module _ {S : Type 0} (mmap : (size : ℕ) → S → Ptr × S) (munmap : Ptr → (size : ℕ) → S → S)
    (h : Pool S) (page a b : Ptr) (a_ne : a ≢ null) (b_ne : b ≢ null) (other : a ≢ b)
    (room : a + 16 < 2 ^ 32) (parent : (h.blocks a).parent_page ≡ page)
    (first : (h.pages page).free_blocks ≡ a) (next : (h.blocks a).next_mem_block ≡ b)
    (last : (h.blocks b).next_mem_block ≡ null) (unused : (h.blocks b).is_allocated ≡ false)
    (behind : u32 (b + (h.blocks b).size + 16) ≢ a)
    (live : u32 (
        u32 ((h.pages page).free_size + (h.blocks a).size + 16 + 24) + u32 ((h.blocks b).size + 16))
      ≢ (h.pages page).og_size) where
  abbrev taken : Pool S
  taken = take_block a null h

  -- The state in which `free` looks at the page.
  abbrev given : Pool S
  given = set_block a (record (taken.blocks a) { is_allocated = false }) taken

  given_page :
      ((given.pages page).free_blocks ≡ b)
      × ((given.pages page).free_size ≡ (h.pages page).free_size)
      × ((given.pages page).og_size ≡ (h.pages page).og_size)
  unfolding take_block relink update
  given_page = (ground (arith, parent, next), ground (arith, parent), ground (arith, parent))

  given_blocks :
      ((given.blocks a).next_mem_block ≡ b)
      × ((given.blocks a).parent_page ≡ page)
      × ((given.blocks a).size ≡ (h.blocks a).size)
      × ((given.blocks b).next_mem_block ≡ null)
      × ((given.blocks b).is_allocated ≡ false)
      × ((given.blocks b).size ≡ (h.blocks b).size)
  unfolding take_block relink update
  given_blocks = (
    ground (arith, next),
    ground (arith, parent),
    ground arith,
    ground (arith, other, last),
    ground (arith, other, unused),
    ground (arith, other),
  )

  still_live : (fuel : ℕ) → is_page_free (suc (suc fuel)) a given ≡ some false
  unfolding is_page_free sum_free
  still_live fuel =
      let there : (b == null) ≡ false = ground (arith, b_ne) in
      let end : (null == null) ≡ true = refl in
      let no_page : (u32 (
              u32 ((h.pages page).free_size + (h.blocks a).size + 16 + 24)
              + u32 ((h.blocks b).size + 16))
            == (h.pages page).og_size)
          ≡ false =
        ground (arith, live) in
      rw
        (
          given_blocks.1, given_page.0, given_page.1, given_page.2, given_blocks.2, there,
          given_blocks.3, given_blocks.5, no_page,
        )
        refl

  abbrev pub after : Pool S
  after = append_block b a given

  after_facts :
      ((after.blocks a).next_mem_block ≡ b)
      × ((after.blocks b).next_mem_block ≡ a)
      × ((after.pages page).free_blocks ≡ b)
  after_facts =
      let l =
        append_block-links given b a (λ e. other (sym e))
          (λ e. behind (sym (ap (λ (n : ℕ). u32 (b + n + 16)) given_blocks.5) ∙ e)) in
      (
        l.0 ∙ given_blocks.0,
        l.1,
        ap (λ (f : Ptr → PageBlock). (f page).free_blocks) l.2 ∙ given_page.0,
      )

  last_b : (fuel : ℕ) → last_block (suc fuel) b given ≡ some b
  unfolding last_block
  last_b fuel =
      let end : ((given.blocks b).next_mem_block == null) ≡ true = ground (arith, given_blocks.3) in
      rw end refl

  free-after : (fuel : ℕ) → free mmap munmap (suc (suc fuel)) (a + 16) taken ≡ some after
  unfolding free
  free-after fuel =
      let at : sub32 (a + 16) 16 ≡ a = omega (arith, room) in
      let some_list : ((given.pages page).free_blocks == null) ≡ false =
        ground (arith, given_page.0, b_ne) in
      rw (at, still_live fuel, given_blocks.1, some_list, given_page.0, last_b (suc fuel)) refl

  -- Where the free list of a page is a block of exactly the size asked for and one more, `malloc` returns the first
  -- and leaves its link in place. When it is freed again, not lying directly behind the other, while the
  -- page holds other blocks, it goes to the end of the list and the list becomes a circle: the next loop over it
  -- never ends, on no fuel.
  pub free-search_blocks_cycle :
      (fuel aligned : ℕ)
      → (h.blocks a).size ≡ aligned
      → search_blocks (suc fuel) aligned (h.pages page).free_blocks null h
          ≡ some (some (a + 16, taken))
        × (free mmap munmap (suc (suc fuel)) (a + 16) taken ≡ some after)
        × ((n total : ℕ) → sum_free n (after.pages page).free_blocks total after ≡ none)
  unfolding search_blocks
  free-search_blocks_cycle fuel aligned size =
      let there : (a == null) ≡ false = ground (arith, a_ne) in
      let no_larger : ltb aligned (h.blocks a).size ≡ false = ground (arith, size) in
      let exact : ((h.blocks a).size == aligned) ≡ true = ground (arith, size) in
      let at : u32 (a + 16) ≡ a + 16 = omega (arith, room) in
      (
        rw (first, there, no_larger, exact, at) refl,
        free-after fuel,
        λ n total.
            sum_free_round after a b a_ne b_ne after_facts.0 after_facts.1 n total
              (after.pages page).free_blocks (inr after_facts.2),
      )
