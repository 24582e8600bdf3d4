-- ===== src/Userspace/Malloc.antt =====
-- userspace/stdlib/malloc.c and userspace/stdlib/free.c. The headers of page blocks and of memory blocks are
-- stores by address. `S` is the state behind the system calls `mmap` and `munmap`, which are arguments.
-- The loops run on fuel; `none` is running out of it.
pub mod Fresh
pub mod Split
pub mod Cycle
mod Tests
use mathlib.Core.Option
use kernel_study.Base.{
  ℕ, zero, suc, ◌+◌, ◌-◌, ◌*◌, ◌/◌, ◌%◌, ◌^◌, Bool, true, false, ◌&&◌, not, Option, none, some,
  List, [], ◌∷◌, ◌==◌, leb, ltb, if◌then◌else◌, bit_and, u32, sub32, update,
}
use kernel_study.Memory.Align.{page_size, pages_required}

abbrev pub Ptr : Type 0
Ptr = ℕ

abbrev pub null : Ptr
null = 0

-- `page_block_t`
pub record PageBlock : Type 0 where
  pub og_size : ℕ
  pub free_size : ℕ
  pub next_free_addr : Ptr
  pub free_blocks : Ptr
  pub next_page_block : Ptr
  pub prev_page_block : Ptr

-- `mem_block_t`
pub record MemBlock : Type 0 where
  pub size : ℕ
  pub parent_page : Ptr
  pub next_mem_block : Ptr
  pub is_allocated : Bool

-- `sizeof(page_block_t)` and `sizeof(mem_block_t)`
abbrev pub page_block_size : ℕ
page_block_size = 24

abbrev pub mem_block_size : ℕ
mem_block_size = 16

pub record Pool (S : Type 0) : Type 0 where
  pub pages : Ptr → PageBlock
  pub blocks : Ptr → MemBlock
  pub mem_pool : Ptr
  pub source : S

-- `align_up`
unfoldable pub align_up : ℕ → ℕ
align_up size = bit_and (u32 (size + 7)) 0xFFFFFFF8

module _ {S : Type 0} where
  abbrev pub set_page : Ptr → PageBlock → Pool S → Pool S
  set_page p b h = record h { pages = update h.pages p b }

  abbrev pub set_block : Ptr → MemBlock → Pool S → Pool S
  set_block p b h = record h { blocks = update h.blocks p b }

  unfoldable pub alloc_mem_block : (size : ℕ) → (page_parent : Ptr) → Pool S → Ptr × Pool S
  alloc_mem_block size page_parent h =
      let parent = h.pages page_parent in
      (
        parent.next_free_addr,
        set_block parent.next_free_addr
            (record {
              size = sub32 size mem_block_size;
              parent_page = page_parent;
              next_mem_block = null;
              is_allocated = true;
            })
            (set_page page_parent
              (record parent {
                free_size = sub32 parent.free_size size;
                next_free_addr = u32 (parent.next_free_addr + size);
              })
              h),
      )

  -- The free list of the page leaves out what was behind `prev`, and goes on at `next`.
  unfoldable pub relink : (it prev next : Ptr) → Pool S → Pool S
  relink it prev next h =
      let parent = (h.blocks it).parent_page in
      if prev == null
      then set_page parent (record (h.pages parent) { free_blocks = next }) h
      else set_block prev (record (h.blocks prev) { next_mem_block = next }) h

  -- A free block that is larger than the request: its end becomes a free block of its own. These are
  -- the assignments; the loop behind them is `print_blocks`.
  unfoldable pub split_block : (aligned_size : ℕ) → (it prev : Ptr) → Pool S → Pool S
  split_block aligned_size it prev h =
      let target_size = u32 (aligned_size + mem_block_size) in
      let old = h.blocks it in
      let splitted = u32 (it + target_size) in
      let split : MemBlock = record {
        size = sub32 old.size target_size;
        parent_page = old.parent_page;
        next_mem_block = old.next_mem_block;
        is_allocated = false;
      } in
      let cut =
        set_block it (record old { size = aligned_size; is_allocated = true })
          (set_block splitted split h) in
      let linked = relink it prev splitted cut in
      set_block it (record (linked.blocks it) { next_mem_block = null }) linked

  -- A free block of exactly the size.
  unfoldable pub take_block : (it prev : Ptr) → Pool S → Pool S
  take_block it prev h =
      let taken = set_block it (record (h.blocks it) { is_allocated = true }) h in
      relink it prev (taken.blocks it).next_mem_block taken

  -- The loop that prints the free list after a split: the size and the state of each block.
  unfoldable pub print_blocks : (fuel : ℕ) → (it : Ptr) → Pool S → Option (List (ℕ × Bool))
  print_blocks zero it h = none
  print_blocks (suc fuel) it h =
      let rest = print_blocks fuel (h.blocks it).next_mem_block h in
      if it == null
      then some []
      else Option.map (λ out. ((h.blocks it).size, (h.blocks it).is_allocated) ∷ out) rest

  -- A split, the loop that prints, and the return.
  unfoldable pub split_and_print :
      (fuel aligned_size : ℕ) → (it prev : Ptr) → Pool S → Option (Ptr × Pool S)
  split_and_print fuel aligned_size it prev h =
      let cut = split_block aligned_size it prev h in
      Option.map (λ printed. (u32 (it + mem_block_size), cut))
        (print_blocks fuel (cut.pages (cut.blocks it).parent_page).free_blocks cut)

  -- The loop over the free blocks of a page: `some (some _)` is a return, `some none` the end of the loop.
  unfoldable pub search_blocks :
      (fuel aligned_size : ℕ) → (it prev : Ptr) → Pool S → Option (Option (Ptr × Pool S))
  search_blocks zero aligned_size it prev h = none
  search_blocks (suc fuel) aligned_size it prev h =
      let rest = search_blocks fuel aligned_size (h.blocks it).next_mem_block it h in
      if it == null
      then some none
      else if ltb aligned_size (h.blocks it).size
      then Option.map some (split_and_print fuel aligned_size it prev h)
      else if (h.blocks it).size == aligned_size
      then some (some (u32 (it + mem_block_size), take_block it prev h))
      else rest

  -- The loop that adds up what is free in a page.
  unfoldable pub sum_free : (fuel : ℕ) → (it : Ptr) → (total_free_size : ℕ) → Pool S → Option ℕ
  sum_free zero it total_free_size h = none
  sum_free (suc fuel) it total_free_size h =
      let rest =
        sum_free fuel (h.blocks it).next_mem_block
          (u32 (total_free_size + u32 ((h.blocks it).size + mem_block_size))) h in
      if it == null then some total_free_size else rest

  unfoldable pub is_page_free : (fuel : ℕ) → Ptr → Pool S → Option Bool
  is_page_free fuel mem_block h =
      let parent = h.pages (h.blocks mem_block).parent_page in
      let total_free_size =
        u32 (parent.free_size + (h.blocks mem_block).size + mem_block_size + page_block_size) in
      Option.map (λ total. total == parent.og_size)
        (sum_free fuel parent.free_blocks total_free_size h)

  -- The loop to the last free block of a page.
  unfoldable pub last_block : (fuel : ℕ) → Ptr → Pool S → Option Ptr
  last_block zero it h = none
  last_block (suc fuel) it h =
      let rest = last_block fuel (h.blocks it).next_mem_block h in
      if (h.blocks it).next_mem_block == null then some it else rest

  -- The block goes into the last free block, which lies in front of it, or behind that in the list.
  unfoldable pub append_block : (it mem_block : Ptr) → Pool S → Pool S
  append_block it mem_block h =
      let last = h.blocks it in
      let size = u32 (last.size + (h.blocks mem_block).size + mem_block_size) in
      if not last.is_allocated && (u32 (it + last.size + mem_block_size) == mem_block)
      then set_block it (record last { size = size }) h
      else set_block it (record last { next_mem_block = mem_block }) h

  module _ (mmap : (size : ℕ) → S → Ptr × S) (munmap : Ptr → (size : ℕ) → S → S) where
    unfoldable pub alloc_page_block : (size : ℕ) → Pool S → Ptr × Pool S
    alloc_page_block size h =
        let total_pages = pages_required size in
        let (page, source) = mmap size h.source in
        (
          page,
          set_page page
              (record {
                og_size = u32 (page_size * total_pages);
                free_size = sub32 (u32 (page_size * total_pages)) page_block_size;
                next_free_addr = u32 (page + page_block_size);
                free_blocks = null;
                next_page_block = null;
                prev_page_block = null;
              })
              (record h { source = source }),
        )

    -- A block of a new page, which goes behind the page block `prev`.
    unfoldable pub append_page : (target_size : ℕ) → (prev : Ptr) → Pool S → Ptr × Pool S
    append_page target_size prev h =
        let (page, made) = alloc_page_block (u32 (target_size + page_block_size)) h in
        let back = set_page page (record (made.pages page) { prev_page_block = prev }) made in
        let linked = set_page prev (record (back.pages prev) { next_page_block = page }) back in
        let (block, full) = alloc_mem_block target_size page linked in
        (u32 (block + mem_block_size), full)

    -- The loop over the page blocks, and what comes behind it.
    unfoldable pub search_pages :
        (fuel aligned_size : ℕ) → (it prev : Ptr) → Pool S → Option (Ptr × Pool S)
    search_pages zero aligned_size it prev h = none
    search_pages (suc fuel) aligned_size it prev h =
        let target_size = u32 (aligned_size + mem_block_size) in
        let rest = search_pages fuel aligned_size (h.pages it).next_page_block it h in
        let (block, made) = alloc_mem_block target_size it h in
        let behind =
          if leb target_size (h.pages it).free_size
          then some (u32 (block + mem_block_size), made)
          else rest in
        if it == null
        then some (append_page target_size prev h)
        else elim (search_blocks fuel aligned_size (h.pages it).free_blocks null h) [
          | none ↦ none
          | some none ↦ behind
          | some (some r) ↦ some r
        ]

    unfoldable pub malloc : (fuel size : ℕ) → Pool S → Option (Ptr × Pool S)
    malloc fuel size h =
        let aligned_size = align_up size in
        let target_size = u32 (aligned_size + mem_block_size) in
        let (page, made) = alloc_page_block (u32 (target_size + page_block_size)) h in
        let (block, full) = alloc_mem_block target_size page made in
        if h.mem_pool == null
        then some (u32 (block + mem_block_size), record full { mem_pool = page })
        else search_pages fuel aligned_size h.mem_pool null h

    unfoldable pub unmap_free_page : Ptr → Pool S → Pool S
    unmap_free_page page h =
        let block = h.pages page in
        let forth =
          if block.next_page_block == null
          then h
          else set_page block.next_page_block
              (record (h.pages block.next_page_block) { prev_page_block = block.prev_page_block })
              h in
        let prev = (forth.pages page).prev_page_block in
        let apart =
          if prev == null
          then forth
          else set_page prev
              (record (forth.pages prev) { next_page_block = (forth.pages page).next_page_block })
              forth in
        record apart {
          mem_pool = if page == h.mem_pool then (apart.pages page).next_page_block else h.mem_pool;
          source = munmap page (apart.pages page).og_size h.source;
        }

    -- What `free` does with the block once it knows whether the page is free.
    abbrev pub release :
        (fuel : ℕ) → (mem_block parent : Ptr) → Option Bool → Pool S → Option (Pool S)
    release fuel mem_block parent none h = none
    release fuel mem_block parent (some true) h = some (unmap_free_page parent h)
    release fuel mem_block parent (some false) h =
        if (h.pages parent).free_blocks == null
        then some (set_page parent (record (h.pages parent) { free_blocks = mem_block }) h)
        else Option.map (λ it. append_block it mem_block h)
            (last_block fuel (h.pages parent).free_blocks h)

    unfoldable pub free : (fuel : ℕ) → Ptr → Pool S → Option (Pool S)
    free fuel addr h =
        let mem_block = sub32 addr mem_block_size in
        let given = set_block mem_block (record (h.blocks mem_block) { is_allocated = false }) h in
        release fuel mem_block (given.blocks mem_block).parent_page
          (is_page_free fuel mem_block given) given
