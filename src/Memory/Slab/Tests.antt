-- ===== src/Memory/Slab/Tests.antt =====
-- Runs of the slab allocator on a small heap.
use kernel_study.Base.{
  ℕ, ◌+◌, ◌*◌, ◌<◌, ◌≤◌, ◌≡◌, refl, none, some, [], ◌∷◌, arith, ◌==◌, if◌then◌else◌,
}
use kernel_study.Memory.Align.{align_down_4k}
use kernel_study.Memory.Kheap.{class_from, size_to_class}
use kernel_study.Memory.Slab.{Ptr, Slab, Heap, take_object, put_object, new_slab, kmalloc, kfree}
use kernel_study.Memory.Slab.Cache.{IsCache, take_object-IsCache}
use kernel_study.Memory.Slab.Put.{put_object-full}
use kernel_study.Memory.Slab.Layout.{new_slab_objects}
use kernel_study.Memory.Slab.Reuse.{kmalloc-kfree}
use kernel_study.Memory.Slab.Single.{kmalloc-single}

-- Pages from 0xC0400000 on, one after the other.
abbrev pages_from : (npages flags : ℕ) → ℕ → Ptr × ℕ
pages_from npages flags s = (0xC0400000 + 4096 * s, s + npages)

abbrev pages_back : Ptr → (npages : ℕ) → ℕ → ℕ
pages_back addr npages s = s

abbrev slab_of : (next prev total free : ℕ) → Slab
slab_of next prev total free = record {
  next = next;
  prev = prev;
  cache_owner = some 6;
  total_count = total;
  free_count = free;
}

-- Objects of 1024 bytes: two partial slabs, two full ones.
abbrev slabs_4 : Ptr → Slab
slabs_4 p =
    if p == 0x1000
    then slab_of 0x2000 0 3 2
    else if p == 0x2000
    then slab_of 0 0x1000 3 1
    else if p == 0x3000
    then slab_of 0x4000 0 3 0
    else if p == 0x4000
    then slab_of 0 0x3000 3 0
    else slab_of 0 0 0 0

abbrev heap_4 : Heap ℕ
heap_4 = record {
  slabs = slabs_4;
  words = λ p. p;
  slab_caches = λ i. record { obj_size = 1024; partial = 0x1000; full = 0x3000 };
  source = 5;
}

heap_4-IsCache : IsCache heap_4 6 (0x1000 ∷ 0x2000 ∷ []) (0x3000 ∷ 0x4000 ∷ [])
heap_4-IsCache = record {
  partial = (refl, ground arith, refl, (refl, ground arith, refl, refl));
  full = (refl, ground arith, refl, (refl, ground arith, refl, refl));
  distinct = (refl, (refl, (refl, (refl, tt))));
  some_free = λ a m. ground (arith, m);
  none_free = λ a m. ground (arith, m);
}

-- No slab yet; the classes hold 1024 bytes up to the class 6, and 2048 bytes in the class 7.
abbrev empty_heap : Heap ℕ
empty_heap = record {
  slabs = λ p. slab_of 0 0 0 0;
  words = λ p. 0;
  slab_caches = λ i. record { obj_size = if i == 7 then 2048 else 1024; partial = 0; full = 0 };
  source = 5;
}

empty_heap-IsCache : IsCache empty_heap 6 [] []
empty_heap-IsCache = record {
  partial = refl;
  full = refl;
  distinct = tt;
  some_free = λ a m. ground (arith, m);
  none_free = λ a m. ground (arith, m);
}

take_object-IsCache_example :
    (h' : Heap ℕ) × (take_object 6 heap_4 ≡ some (0x1014, h'))
    × IsCache h' 6 (0x1000 ∷ 0x2000 ∷ []) (0x3000 ∷ 0x4000 ∷ [])
    × ((h'.slabs 0x1000).free_count ≡ 1)
take_object-IsCache_example =
    take_object-IsCache heap_4 6 0x1000 (0x2000 ∷ []) (0x3000 ∷ 0x4000 ∷ []) heap_4-IsCache

put_object-full_example :
    IsCache
      (put_object pages_from pages_back 6 0x4000 0x4410 heap_4)
      6
      (0x4000 ∷ 0x1000 ∷ 0x2000 ∷ [])
      (0x3000 ∷ [])
    × ((put_object pages_from pages_back 6 0x4000 0x4410 heap_4).words 0x4010 ≡ 0x4410)
    × (((put_object pages_from pages_back 6 0x4000 0x4410 heap_4).slabs 0x4000).free_count ≡ 1)
put_object-full_example =
    put_object-full pages_from pages_back heap_4 6 0x4000 0x4410 (0x3000 ∷ []) []
      (0x1000 ∷ 0x2000 ∷ []) heap_4-IsCache (omega arith)

class_6 : size_to_class 900 ≡ some 6
unfolding size_to_class class_from
class_6 = refl

class_7 : size_to_class 1500 ≡ some 7
unfolding size_to_class class_from
class_7 = refl

page_4 : align_down_4k 0x4410 ≡ 0x4000
unfolding align_down_4k
page_4 = refl

kmalloc-kfree_example :
    (h' : Heap ℕ) × (kmalloc pages_from pages_back 900 (kfree pages_from pages_back 0x4410 heap_4)
      ≡ some (0x4410, h'))
    × IsCache h' 6 (0x1000 ∷ 0x2000 ∷ []) (0x4000 ∷ 0x3000 ∷ [])
kmalloc-kfree_example =
    kmalloc-kfree pages_from pages_back heap_4 6 0x4000 0x4410 page_4 refl 900
      (0x1000 ∷ 0x2000 ∷ []) (0x3000 ∷ []) [] class_6 heap_4-IsCache (omega arith)

abbrev made_6 : Heap ℕ
made_6 = (new_slab pages_from pages_back 6 empty_heap).1

page_of_object : align_down_4k 0xC0405010 ≡ 0xC0405000
unfolding align_down_4k
page_of_object = refl

new_slab_objects_example :
    ((k : ℕ)
      → k < 3
      → (0xC0405010 ≤ made_6.words (0xC0405010 + 4 * k))
        × (made_6.words (0xC0405010 + 4 * k) + 1024 ≤ 0xC0406000)
        × (align_down_4k (made_6.words (0xC0405010 + 4 * k)) ≡ 0xC0405000))
    × ((j k : ℕ)
        → j < k
        → k < 3
        → made_6.words (0xC0405010 + 4 * j) + 1024 ≤ made_6.words (0xC0405010 + 4 * k))
    × ((new_slab pages_from pages_back 6 empty_heap).0 ≡ made_6.words 0xC0405018)
new_slab_objects_example =
    new_slab_objects pages_from pages_back empty_heap 6 refl (omega arith) (omega arith)

abbrev made_7 : Heap ℕ
made_7 = (new_slab pages_from pages_back 7 empty_heap).1

abbrev freed_7 : Heap ℕ
freed_7 = kfree pages_from pages_back 0xC0405010 made_7

kmalloc-single_example :
    (kmalloc pages_from pages_back 1500 empty_heap
      ≡ some (new_slab pages_from pages_back 7 empty_heap))
    × (kmalloc pages_from pages_back 1500 made_7 ≡ none)
    × ((freed_7.slab_caches 7).partial ≡ 0xC0405000)
    × (freed_7.source ≡ made_7.source)
kmalloc-single_example =
    kmalloc-single pages_from pages_back empty_heap 7 refl 1500 0xC0405010 class_7 refl
      (ground arith) page_of_object
