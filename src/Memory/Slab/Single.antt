-- ===== src/Memory/Slab/Single.antt =====
-- The class whose slab holds one object only, which is the largest one, of 2048 bytes.
use kernel_study.Base.{
  ℕ, ◌+◌, ◌≡◌, ◌≢◌, refl, true, false, none, some, arith, ◌==◌, update, update_self, u16, ◌∙◌,
}
use kernel_study.Memory.Align.{align_down_4k}
use kernel_study.Memory.Kheap.{size_to_class}
use kernel_study.Memory.Slab.{
  Ptr, null, Slab, Heap, free_slot, objects_of, set_next, set_prev, set_free_count, unlink,
  push_front, zeroed, new_slab, take_object, move_to_partial, release_slab, put_object, kmalloc,
  kfree,
}
use kernel_study.Memory.Slab.Layout.{made_slab, made_cache}
use kernel_study.Memory.Slab.Reuse.{kmalloc-new_slab, kfree-put_object}

-- A slab that is linked to nothing is put before itself.
module _ (f : Ptr → Slab) (slab : Ptr) (ne : slab ≢ null) (prev : (f slab).prev ≡ null)
    (next : (f slab).next ≡ null) where
  unlink_alone : unlink slab f ≡ f
  unfolding unlink
  unlink_alone = rw (prev, next) refl

  push_front_self :
      ((push_front slab slab f slab).next ≡ slab) × ((push_front slab slab f slab).prev ≡ null)
  unfolding push_front set_next set_prev update
  push_front_self = ground (arith, ne)

unlink_first :
    (slab : Ptr) (f : Ptr → Slab) → (f slab).prev ≡ null → (unlink slab f slab).next ≡ (f slab).next
unfolding unlink set_next set_prev update
unlink_first slab f prev = ground (arith, prev)

-- The only object of the only slab of a list of partial slabs comes back when the slab has none free.
module _ {S : Type 0} (mmap : (npages flags : ℕ) → S → Ptr × S)
    (unmmap : Ptr → (npages : ℕ) → S → S) (h : Heap S) (i : ℕ) (slab ptr : Ptr)
    (first : (h.slab_caches i).partial ≡ slab) (ne : slab ≢ null)
    (prev : (h.slabs slab).prev ≡ null) (next : (h.slabs slab).next ≡ null)
    (empty : (h.slabs slab).free_count ≡ 0) (single : (h.slabs slab).total_count ≡ 1) where
  abbrev put : Heap S
  put = record h {
    words = update h.words (free_slot slab (h.slabs slab).free_count) ptr;
    slabs = set_free_count slab 1 h.slabs;
  }

  put_links : ((put.slabs slab).prev ≡ null) × ((put.slabs slab).next ≡ null)
  unfolding set_free_count update
  put_links = ground (arith, prev, next)

  abbrev listed : Heap S
  listed = move_to_partial mmap unmmap i slab put

  listed_first :
      ((listed.slab_caches i).partial ≡ slab)
      × ((listed.slabs slab).next ≡ slab)
      × ((listed.slabs slab).prev ≡ null)
      × (listed.source ≡ h.source)
  unfolding move_to_partial
  listed_first =
      let self = push_front_self put.slabs slab ne put_links.0 put_links.1 in
      rw
        (first, update_self h.slab_caches i, unlink_alone put.slabs slab ne put_links.0 put_links.1)
        (refl, self.0, self.1, refl)

  released : ((release_slab mmap unmmap i slab listed).slab_caches i).partial ≡ slab
  unfolding release_slab
  released =
      let l = listed_first in
      let first : ((listed.slab_caches i).partial == slab) ≡ true = ground (arith, l.0) in
      rw (update_self listed.slab_caches i, first) (unlink_first slab listed.slabs l.2 ∙ l.1)

  released-source : (release_slab mmap unmmap i slab listed).source ≡ unmmap slab 1 h.source
  unfolding release_slab
  released-source = rw (listed_first.3) refl

  freed :
      let h' = put_object mmap unmmap i slab ptr h in
      ((h'.slab_caches i).partial ≡ slab) × (h'.source ≡ unmmap slab 1 h.source)
  unfolding put_object
  freed =
      let count : u16 ((h.slabs slab).free_count + 1) ≡ 1 = ground (arith, empty) in
      let whole : (1 == (h.slabs slab).total_count) ≡ true = ground (arith, single) in
      rw (count, whole) (released, released-source)

module _ {S : Type 0} (mmap : (npages flags : ℕ) → S → Ptr × S)
    (unmmap : Ptr → (npages : ℕ) → S → S) (h : Heap S) (i : ℕ)
    (one : objects_of (h.slab_caches i).obj_size ≡ 1) where
  abbrev addr : Ptr
  addr = (mmap 1 3 h.source).0

  abbrev made : Heap S
  made = (new_slab mmap unmmap i h).1

  made_owner : ((made.slabs addr).cache_owner ≡ some i) × ((made.slabs addr).total_count ≡ 1)
  unfolding new_slab zeroed update
  made_owner = (ground arith, ground (arith, one))

  taken_none : take_object i made ≡ none
  unfolding take_object
  taken_none =
      let at = (made_cache mmap unmmap h i).0 in
      let gone : ((made.slabs addr).free_count == 0) ≡ true =
        ground (arith, (made_slab mmap unmmap h i).2, one) in
      rw (at, gone) refl

  nothing_free : (made.slabs addr).free_count ≡ 0
  nothing_free = ground (arith, (made_slab mmap unmmap h i).2, one)

  -- In a class whose slab holds one object, with no partial slab, the slab from which `kmalloc`
  -- takes that object stays in the list of partial slabs with nothing free. The next `kmalloc` of
  -- the class reads in front of its free list. `kfree` of the object unmaps the page and leaves
  -- the list with its address.
  pub kmalloc-single :
      (size ptr : ℕ)
      → size_to_class size ≡ some i
      → (h.slab_caches i).partial ≡ null
      → addr ≢ null
      → align_down_4k ptr ≡ addr
      → (kmalloc mmap unmmap size h ≡ some (new_slab mmap unmmap i h))
        × (kmalloc mmap unmmap size made ≡ none)
        × (((kfree mmap unmmap ptr made).slab_caches i).partial ≡ addr)
        × ((kfree mmap unmmap ptr made).source ≡ unmmap addr 1 made.source)
  unfolding kmalloc
  kmalloc-single size ptr class empty ne page =
      let other : ((made.slab_caches i).partial == null) ≡ false =
        ground (arith, (made_cache mmap unmmap h i).0, ne) in
      let put = kfree-put_object mmap unmmap made i addr ptr page made_owner.0 in
      (
        kmalloc-new_slab mmap unmmap h i size class empty,
        rw (class, other) taken_none,
        rw put
            (freed mmap unmmap made i addr ptr (made_cache mmap unmmap h i).0 ne
              (made_slab mmap unmmap h i).1 (made_slab mmap unmmap h i).0 nothing_free
              made_owner.1).0,
        rw put
            (freed mmap unmmap made i addr ptr (made_cache mmap unmmap h i).0 ne
              (made_slab mmap unmmap h i).1 (made_slab mmap unmmap h i).0 nothing_free
              made_owner.1).1,
      )
