-- ===== src/Memory/Slab/Reuse.antt =====
-- `kfree` and `kmalloc` one after the other.
use kernel_study.Base.{
  ℕ, ◌-◌, ◌<◌, ◌≡◌, refl, true, false, List, ◌∷◌, ◌++◌, some, arith, ◌==◌, ap, ◌∙◌,
}
use kernel_study.Memory.Align.{align_down_4k}
use kernel_study.Memory.Kheap.{size_to_class}
use kernel_study.Memory.Slab.{
  Ptr, null, Heap, free_slot, new_slab, take_object, put_object, kmalloc, kfree,
}
use kernel_study.Memory.Slab.Cache.{IsCache, take_object-IsCache}
use kernel_study.Memory.Slab.Put.{put_object-full}

module _ {S : Type 0} (mmap : (npages flags : ℕ) → S → Ptr × S)
    (unmmap : Ptr → (npages : ℕ) → S → S) (h : Heap S) (i : ℕ) (size : ℕ)
    (class : size_to_class size ≡ some i) where
  -- With a partial slab, `kmalloc` takes an object of it.
  pub kmalloc-take_object :
      (slab : Ptr) (ps fs : List Ptr)
      → IsCache h i (slab ∷ ps) fs
      → kmalloc mmap unmmap size h ≡ take_object i h
  unfolding kmalloc
  kmalloc-take_object slab ps fs v =
      let other : ((h.slab_caches i).partial == null) ≡ false =
        ground (arith, v.partial.0, v.partial.1) in
      rw (class, other) refl

  -- Without one, it makes a slab.
  pub kmalloc-new_slab :
      (h.slab_caches i).partial ≡ null
      → kmalloc mmap unmmap size h ≡ some (new_slab mmap unmmap i h)
  unfolding kmalloc
  kmalloc-new_slab e = rw (class, e) refl

module _ {S : Type 0} (mmap : (npages flags : ℕ) → S → Ptr × S)
    (unmmap : Ptr → (npages : ℕ) → S → S) (h : Heap S) (i : ℕ) (slab ptr : Ptr)
    (page : align_down_4k ptr ≡ slab) (owner : (h.slabs slab).cache_owner ≡ some i) where
  pub kfree-put_object : kfree mmap unmmap ptr h ≡ put_object mmap unmmap i slab ptr h
  unfolding kfree
  kfree-put_object = rw (page, owner) refl

  -- In a cache that IsCache describes, an object that is freed into a full slab of more than one
  -- object, wherever that stands in the list, is the one that the next `kmalloc` of the class
  -- returns, and the slab is full again, now the first of the full slabs.
  pub kmalloc-kfree :
      (size : ℕ) (ps xs ys : List Ptr)
      → size_to_class size ≡ some i
      → IsCache h i ps (xs ++ (slab ∷ ys))
      → 1 < (h.slabs slab).total_count
      → (h' : Heap S) × (kmalloc mmap unmmap size (kfree mmap unmmap ptr h) ≡ some (ptr, h'))
        × IsCache h' i ps (slab ∷ xs ++ ys)
  kmalloc-kfree size ps xs ys class v more =
      let back = put_object-full mmap unmmap h i slab ptr xs ys ps v more in
      let freed = put_object mmap unmmap i slab ptr h in
      let taken = take_object-IsCache freed i slab ps (xs ++ ys) back.0 in
      let one : ((freed.slabs slab).free_count == 1) ≡ true = ground (arith, back.2) in
      let slot : free_slot slab ((freed.slabs slab).free_count - 1) ≡ free_slot slab 0 =
        ground (arith, back.2) in
      let object : freed.words (free_slot slab ((freed.slabs slab).free_count - 1)) ≡ ptr =
        ap freed.words slot ∙ back.1 in
      rw kfree-put_object (
        taken.0,
        kmalloc-take_object mmap unmmap freed i size class slab ps (xs ++ ys) back.0
            ∙ taken.1
            ∙ ap (λ (p : Ptr). some (p, taken.0)) object,
        rw one at taken.2,
      )
