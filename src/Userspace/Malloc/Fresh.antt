-- ===== src/Userspace/Malloc/Fresh.antt =====
-- The first allocation of a program, and its release.
use kernel_study.Base.{
  ℕ, suc, ◌+◌, ◌-◌, ◌*◌, ◌/◌, ◌%◌, ◌^◌, ◌<◌, ◌≤◌, ◌≡◌, refl, true, false, some, ◌==◌, arith, ap,
  ◌∙◌, u32, sub32, update, update_self, update_twice,
}
use kernel_study.Base.Bits.{bit_and_fields, bit_and_ones, bit_and-zero}
use kernel_study.Memory.Align.{page_size, pages_required}
use kernel_study.Userspace.Malloc.{
  Ptr, null, PageBlock, MemBlock, Pool, align_up, set_block, alloc_mem_block, alloc_page_block,
  malloc, sum_free, is_page_free, unmap_free_page, free,
}

-- `align_up` is the least multiple of 8 that is not below the size.
pub align_up_lem : (size : ℕ) → size + 7 < 2 ^ 32 → (align_up size ≡ (size + 7) / 8 * 8)
unfolding align_up
align_up_lem size h =
    let x = size + 7 in
    let e : x / 8 * 2 ^ 3 + x % 8 ≡ u32 x = omega (arith, h) in
    let split = bit_and_fields 3 (x / 8) (x % 8) 0x1FFFFFFF 0 (omega arith) (omega arith) in
    let split' = rw (e, bit_and-zero, bit_and_ones 29 (x / 8) (omega (arith, h))) at split in
    omega (arith, split')

-- The only page block is unmapped.
last_page :
    {S : Type 0} (mmap : (size : ℕ) → S → Ptr × S) (munmap : Ptr → (size : ℕ) → S → S) (h : Pool S)
    (p : Ptr)
    → h.mem_pool ≡ p
    → (h.pages p).next_page_block ≡ null
    → (h.pages p).prev_page_block ≡ null
    → ((unmap_free_page mmap munmap p h).mem_pool ≡ null)
      × ((unmap_free_page mmap munmap p h).source ≡ munmap p (h.pages p).og_size h.source)
unfolding unmap_free_page
last_page mmap munmap h p first next prev =
    let n : ((h.pages p).next_page_block == null) ≡ true = ground (arith, next) in
    let b : ((h.pages p).prev_page_block == null) ≡ true = ground (arith, prev) in
    let yes : (p == h.mem_pool) ≡ true = ground (arith, first) in rw (n, b, yes) (next, refl)

module _ {S : Type 0} (mmap : (size : ℕ) → S → Ptr × S) (munmap : Ptr → (size : ℕ) → S → S)
    (size : ℕ) (h : Pool S) (empty : h.mem_pool ≡ null) (small : size + 4200 ≤ 2 ^ 32) where
  abbrev aligned : ℕ
  aligned = (size + 7) / 8 * 8

  -- The pages of the block, its bytes, and its address.
  abbrev pub og_size : ℕ
  og_size = page_size * ((aligned + 40 + page_size - 1) / page_size)

  abbrev pub got : Ptr × S
  got = mmap (aligned + 40) h.source

  abbrev pub page : Ptr
  page = got.0

  abbrev header : PageBlock
  header = record {
    og_size = og_size;
    free_size = og_size - 24 - (aligned + 16);
    next_free_addr = page + 24 + (aligned + 16);
    free_blocks = null;
    next_page_block = null;
    prev_page_block = null;
  }

  abbrev block : MemBlock
  block = record { size = aligned; parent_page = page; next_mem_block = null; is_allocated = true }

  abbrev pub first : Pool S
  first = record {
    pages = update h.pages page header;
    blocks = update h.blocks (page + 24) block;
    mem_pool = page;
    source = got.1;
  }

  -- The page block before the memory block is cut from it.
  abbrev whole : PageBlock
  whole = record header { free_size = og_size - 24; next_free_addr = page + 24 }

  abbrev paged : Pool S
  paged = record h { pages = update h.pages page whole; source = got.1 }

  module _ (room : page + og_size < 2 ^ 32) where
    alloc_page_block-paged : alloc_page_block mmap munmap (aligned + 40) h ≡ (page, paged)
    unfolding alloc_page_block pages_required
    alloc_page_block-paged =
        let e1 : u32 (aligned + 40 + page_size - 1) ≡ aligned + 40 + page_size - 1 =
          omega (arith, small) in
        let e2 : u32 (page_size * ((aligned + 40 + page_size - 1) / page_size)) ≡ og_size =
          omega (arith, small) in
        let e3 : sub32 og_size 24 ≡ og_size - 24 = omega (arith, small) in
        let e4 : u32 (page + 24) ≡ page + 24 = omega (arith, room) in rw (e1, e2, e3, e4) refl

    alloc_mem_block-first :
        alloc_mem_block (aligned + 16) page paged
        ≡ (page + 24, record first { mem_pool = h.mem_pool })
    unfolding alloc_mem_block
    alloc_mem_block-first =
        let e1 : sub32 (aligned + 16) 16 ≡ aligned = omega (arith, small) in
        let e2 : sub32 (og_size - 24) (aligned + 16) ≡ og_size - 24 - (aligned + 16) =
          omega (arith, small) in
        let e3 : u32 (page + 24 + (aligned + 16)) ≡ page + 24 + (aligned + 16) =
          omega (arith, room) in
        rw (update_self h.pages page whole, e1, e2, e3, update_twice h.pages page whole header) refl

    malloc-first : (fuel : ℕ) → malloc mmap munmap fuel size h ≡ some (page + 40, first)
    unfolding malloc
    malloc-first fuel =
        let e0 = align_up_lem size (omega (arith, small)) in
        let e1 : u32 (aligned + 16) ≡ aligned + 16 = omega (arith, small) in
        let e2 : u32 (aligned + 16 + 24) ≡ aligned + 40 = omega (arith, small) in
        let e3 : u32 (page + 24 + 16) ≡ page + 40 = omega (arith, room) in
        let yes : (h.mem_pool == null) ≡ true = ground (arith, empty) in
        rw (yes, e0, e1, e2, alloc_page_block-paged, alloc_mem_block-first, e3) refl

    abbrev given : Pool S
    given = set_block (page + 24) (record block { is_allocated = false }) first

    is_page_free-given : (fuel : ℕ) → is_page_free (suc fuel) (page + 24) given ≡ some true
    unfolding is_page_free sum_free
    is_page_free-given fuel =
        let total : u32 (og_size - 24 - (aligned + 16) + aligned + 16 + 24) ≡ og_size =
          omega (arith, small) in
        let yes : (og_size == og_size) ≡ true = ground arith in
        rw
          (
            update_self first.blocks (page + 24) (record block { is_allocated = false }),
            update_self h.pages page header,
            total,
            yes,
          )
          refl

    released :
        ((unmap_free_page mmap munmap page given).mem_pool ≡ null)
        × ((unmap_free_page mmap munmap page given).source ≡ munmap page og_size got.1)
    released =
        let at = update_self h.pages page header in
        let r =
          last_page mmap munmap given page refl (ap (λ (b : PageBlock). b.next_page_block) at)
            (ap (λ (b : PageBlock). b.prev_page_block) at) in
        (r.0, r.1 ∙ ap (λ (b : PageBlock). munmap page b.og_size got.1) at)

    free-given :
        (fuel : ℕ)
        → free mmap munmap (suc fuel) (page + 40) first
          ≡ some (unmap_free_page mmap munmap page given)
    unfolding free
    free-given fuel =
        let at : sub32 (page + 40) 16 ≡ page + 24 = omega (arith, room) in
        rw
          (
            at,
            update_self h.blocks (page + 24) block,
            update_self first.blocks (page + 24) (record block { is_allocated = false }),
            is_page_free-given fuel,
          )
          refl

    -- With an empty pool, for a size of at most 2^32 - 4200 and pages below the end of the address
    -- space, `malloc` maps pages and returns an address from which the size, rounded up to a
    -- multiple of 8, lies inside them. Freeing it, with any fuel above 0, unmaps those pages, with
    -- the size that was mapped rounded up to pages, and leaves the pool empty.
    pub free-malloc :
        (fuel : ℕ)
        → (h' h'' : Pool S) × (malloc mmap munmap fuel size h ≡ some (page + 40, h'))
          × (size ≤ aligned)
          × (page + 40 + aligned ≤ page + og_size)
          × (free mmap munmap (suc fuel) (page + 40) h' ≡ some h'')
          × (h''.mem_pool ≡ null)
          × (h''.source ≡ munmap page og_size got.1)
    free-malloc fuel = (
      first,
      unmap_free_page mmap munmap page given,
      malloc-first fuel,
      omega arith,
      omega arith,
      free-given fuel,
      released.0,
      released.1,
    )
