-- ===== src/Memory/Slab.antt =====
-- `kmalloc` and `kfree` of kernel/memory.c: slab caches over pages that `mmap` maps. The headers of
-- the slabs and the words of their free lists are stores by address. `S` is the state behind `mmap`
-- and `unmmap`, which are arguments here.
pub mod Chains
pub mod Moves
pub mod Layout
pub mod Cache
pub mod Put
pub mod Single
pub mod Reuse
mod Tests
use mathlib.Core.Option
use kernel_study.Base.{
  ℕ, zero, suc, ◌+◌, ◌-◌, ◌*◌, ◌/◌, ◌%◌, ◌^◌, Bool, ◌&&◌, Option, none, some, ◌==◌, leb, ltb,
  if◌then◌else◌, u16, u32, update,
}
use kernel_study.Memory.Align.{page_size, align_down_4k}
use kernel_study.Memory.Kheap.{size_to_class}

abbrev pub Ptr : Type 0
Ptr = ℕ

abbrev pub null : Ptr
null = 0

-- `slab_t` up to its free list. `cache_owner` is an index of `slab_caches`.
pub record Slab : Type 0 where
  pub next : Ptr
  pub prev : Ptr
  pub cache_owner : Option ℕ
  pub total_count : ℕ
  pub free_count : ℕ

-- `sizeof(slab_t)`
abbrev pub slab_size : ℕ
slab_size = 16

-- `slab_cache_t`
pub record SlabCache : Type 0 where
  pub obj_size : ℕ
  pub partial : Ptr
  pub full : Ptr

pub record Heap (S : Type 0) : Type 0 where
  pub slabs : Ptr → Slab
  pub words : Ptr → ℕ
  pub slab_caches : ℕ → SlabCache
  pub source : S

-- `&slab->free_list[i]`
abbrev pub free_slot : Ptr → ℕ → Ptr
free_slot slab i = slab + slab_size + 4 * i

unfoldable pub set_next : Ptr → Ptr → (Ptr → Slab) → Ptr → Slab
set_next p q slabs = update slabs p (record (slabs p) { next = q })

unfoldable pub set_prev : Ptr → Ptr → (Ptr → Slab) → Ptr → Slab
set_prev p q slabs = update slabs p (record (slabs p) { prev = q })

unfoldable pub set_free_count : Ptr → ℕ → (Ptr → Slab) → Ptr → Slab
set_free_count p n slabs = update slabs p (record (slabs p) { free_count = n })

-- A slab leaves the list whose neighbours it knows.
unfoldable pub unlink : Ptr → (Ptr → Slab) → Ptr → Slab
unlink slab slabs =
    let before =
      if (slabs slab).prev == null
      then slabs
      else set_next (slabs slab).prev (slabs slab).next slabs in
    if (before slab).next == null
    then before
    else set_prev (before slab).next (before slab).prev before

-- A slab goes before the head of a list; the caller moves the head.
unfoldable pub push_front : Ptr → (head : Ptr) → (Ptr → Slab) → Ptr → Slab
push_front slab head slabs =
    let behind = if head == null then slabs else set_prev head slab slabs in
    set_prev slab null (set_next slab head behind)

-- The first slab of a list leaves it, as `kmalloc` writes it.
unfoldable pub pop_front : Ptr → (Ptr → Slab) → Ptr → Slab
pop_front slab slabs =
    if (slabs slab).next == null then slabs else set_prev (slabs slab).next null slabs

-- The loop of `kmalloc` that fills a free list, with `rounds` rounds to go from `i` on.
unfoldable pub fill_free_list : (slab obj_size i rounds : ℕ) → (Ptr → ℕ) → Ptr → ℕ
fill_free_list slab obj_size i zero words = words
fill_free_list slab obj_size i (suc rounds) words =
    fill_free_list slab obj_size (i + 1) rounds
      (update words (free_slot slab i) (slab + slab_size + obj_size * i))

abbrev pub objects_of : ℕ → ℕ
objects_of obj_size = u16 ((page_size - slab_size) / obj_size)

module _ {S : Type 0} where
  abbrev pub with_cache : ℕ → SlabCache → Heap S → Heap S
  with_cache i c h = record h { slab_caches = update h.slab_caches i c }

  -- The last object of a slab was taken: the slab moves to the list of full slabs.
  unfoldable pub move_to_full : ℕ → Ptr → Heap S → Heap S
  move_to_full i slab h =
      let c = h.slab_caches i in
      let popped = pop_front slab h.slabs in
      with_cache i (record c { partial = (popped slab).next; full = slab })
        (record h { slabs = push_front slab c.full popped })

  -- `kmalloc` with a partial slab. `none` is a read in front of the free list.
  unfoldable pub take_object : ℕ → Heap S → Option (Ptr × Heap S)
  take_object i h =
      let slab = (h.slab_caches i).partial in
      let count = (h.slabs slab).free_count in
      let taken = record h { slabs = set_free_count slab (count - 1) h.slabs } in
      if count == 0
      then none
      else some (
        h.words (free_slot slab (count - 1)),
        if count - 1 == 0 then move_to_full i slab taken else taken,
      )

  -- What `mmap` leaves in the pages that it maps.
  unfoldable pub zeroed : Ptr → (npages : ℕ) → Heap S → Heap S
  zeroed addr npages h = record h {
    slabs = λ p.
        if leb addr p && ltb p (addr + npages * page_size)
        then record {
          next = null;
          prev = null;
          cache_owner = none;
          total_count = 0;
          free_count = 0;
        }
        else h.slabs p;
    words = λ p. if leb addr p && ltb p (addr + npages * page_size) then 0 else h.words p;
  }

  module _ (mmap : (npages flags : ℕ) → S → Ptr × S) (unmmap : Ptr → (npages : ℕ) → S → S) where
    unfoldable pub fp_allocation : ℕ → Heap S → Ptr × Heap S
    fp_allocation size h =
        let npages = u32 (size + slab_size) / page_size + 1 in
        let (addr, source) = mmap npages 3 h.source in
        let mapped = zeroed addr npages (record h { source = source }) in
        let big_slab = record (mapped.slabs addr) {
          total_count = u16 npages;
          cache_owner = none;
        } in
        (u32 (addr + slab_size), record mapped { slabs = update mapped.slabs addr big_slab })

    -- `kmalloc` with no partial slab: a page becomes a slab, and its last object is taken.
    unfoldable pub new_slab : ℕ → Heap S → Ptr × Heap S
    new_slab i h =
        let (addr, source) = mmap 1 3 h.source in
        let mapped = zeroed addr 1 (record h { source = source }) in
        let c = mapped.slab_caches i in
        let total = objects_of c.obj_size in
        let slab : Slab = record {
          next = null;
          prev = null;
          cache_owner = some i;
          total_count = total;
          free_count = total - 1;
        } in
        let filled = fill_free_list addr c.obj_size 0 total mapped.words in
        (
          filled (free_slot addr (total - 1)),
          with_cache i (record c { partial = addr })
              (record mapped { slabs = update mapped.slabs addr slab; words = filled }),
        )

    abbrev pub kmalloc_in : Option ℕ → ℕ → Heap S → Option (Ptr × Heap S)
    kmalloc_in none size h = some (fp_allocation size h)
    kmalloc_in (some i) size h =
        if (h.slab_caches i).partial == null then some (new_slab i h) else take_object i h

    unfoldable pub kmalloc : ℕ → Heap S → Option (Ptr × Heap S)
    kmalloc size h = kmalloc_in (size_to_class size) size h

    -- The first object of a full slab came back: the slab moves to the list of partial slabs.
    unfoldable pub move_to_partial : ℕ → Ptr → Heap S → Heap S
    move_to_partial i slab h =
        let c = h.slab_caches i in
        let apart = unlink slab h.slabs in
        let full = if c.full == slab then (apart slab).next else c.full in
        with_cache i (record c { partial = slab; full = full })
          (record h { slabs = push_front slab c.partial apart })

    -- All objects of a slab came back: the slab's page is unmapped.
    unfoldable pub release_slab : ℕ → Ptr → Heap S → Heap S
    release_slab i slab h =
        let c = h.slab_caches i in
        let apart = unlink slab h.slabs in
        let partial = if c.partial == slab then (apart slab).next else c.partial in
        with_cache i (record c { partial = partial })
          (record h { slabs = apart; source = unmmap slab 1 h.source })

    -- `kfree` of an object of a slab that the cache `i` owns.
    unfoldable pub put_object : ℕ → Ptr → Ptr → Heap S → Heap S
    put_object i slab ptr h =
        let count = u16 ((h.slabs slab).free_count + 1) in
        let put = record h {
          words = update h.words (free_slot slab (h.slabs slab).free_count) ptr;
          slabs = set_free_count slab count h.slabs;
        } in
        let listed = if count == 1 then move_to_partial i slab put else put in
        if count == (h.slabs slab).total_count then release_slab i slab listed else listed

    abbrev pub kfree_in : Option ℕ → Ptr → Ptr → Heap S → Heap S
    kfree_in none slab ptr h = record h { source = unmmap slab (h.slabs slab).total_count h.source }
    kfree_in (some i) slab ptr h = put_object i slab ptr h

    unfoldable pub kfree : Ptr → Heap S → Heap S
    kfree ptr h = let slab = align_down_4k ptr in kfree_in (h.slabs slab).cache_owner slab ptr h
