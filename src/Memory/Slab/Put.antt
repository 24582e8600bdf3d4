-- ===== src/Memory/Slab/Put.antt =====
-- `kfree` of an object that a slab cache owns: the slab keeps its place, comes back to the partial
-- slabs, or is released.
use kernel_study.Base.{
  ℕ, ◌+◌, ◌^◌, ◌<◌, ◌≡◌, refl, true, false, List, ◌∷◌, ◌++◌, arith, ◌==◌, if◌then◌else◌, update,
  update_self, ◌∙◌, sym, ap, u16,
}
use kernel_study.Base.Members.{has, Distinct, has-append, Distinct-parts, Distinct-append}
use kernel_study.Memory.Slab.{
  Ptr, null, Slab, Heap, free_slot, set_free_count, unlink, push_front, move_to_partial,
  release_slab, put_object,
}
use kernel_study.Memory.Slab.Chains.{
  Chain, Chain-frame, Chain-ne, push_front-Chain, push_front-SameLinks,
}
use kernel_study.Memory.Slab.Moves.{
  free_count-push_front, free_count-unlink, free_count-set_free_count, SameLinks-set_free_count,
  has_without, unlinked_rest, unlinked_others, unlinked-Distinct,
}
use kernel_study.Memory.Slab.Cache.{IsCache}

module _ {S : Type 0} (mmap : (npages flags : ℕ) → S → Ptr × S)
    (unmmap : Ptr → (npages : ℕ) → S → S) (h : Heap S) (i : ℕ) (slab ptr : Ptr) where
  abbrev count : ℕ
  count = (h.slabs slab).free_count

  abbrev counted : Ptr → Slab
  counted = set_free_count slab (count + 1) h.slabs

  -- The state after the object is on the free list.
  abbrev put : Heap S
  put = record h { words = update h.words (free_slot slab count) ptr; slabs = counted }

  count-counted :
      (a : Ptr) → (counted a).free_count ≡ (if slab == a then count + 1 else (h.slabs a).free_count)
  count-counted a = free_count-set_free_count slab (count + 1) a h.slabs

  counted-Chain : (p : Ptr) (xs : List Ptr) → Chain h.slabs null p xs → Chain counted null p xs
  counted-Chain p xs c =
      Chain-frame h.slabs counted null p xs
        (λ a m. SameLinks-set_free_count slab (count + 1) h.slabs a) c

  counts_up : count + 1 < 2 ^ 16 → u16 (count + 1) ≡ count + 1
  counts_up w = omega (arith, w)

  -- In a cache that IsCache describes, an object that comes back to a partial slab of fewer than
  -- 2^16 objects, not as its last one, goes to the end of the slab's free list, and IsCache holds
  -- of the same two lists.
  pub put_object-partial :
      (ps fs : List Ptr)
      → IsCache h i ps fs
      → has slab ps ≡ true
      → count + 1 < (h.slabs slab).total_count
      → (h.slabs slab).total_count < 2 ^ 16
      → IsCache (put_object mmap unmmap i slab ptr h) i ps fs
        × ((put_object mmap unmmap i slab ptr h).words (free_slot slab count) ≡ ptr)
        × (((put_object mmap unmmap i slab ptr h).slabs slab).free_count ≡ count + 1)
  unfolding put_object
  put_object-partial ps fs v inside more small =
      let up = counts_up (omega (arith, more, small)) in
      let pos : 0 < count = v.some_free slab inside in
      let old : (count + 1 == 1) ≡ false = ground (arith, pos) in
      let not_all : (count + 1 == (h.slabs slab).total_count) ≡ false = ground (arith, more) in
      rw (up, old, not_all)
        (
          record {
            partial = counted-Chain (h.slab_caches i).partial ps v.partial;
            full = counted-Chain (h.slab_caches i).full fs v.full;
            distinct = v.distinct;
            some_free = λ a m. ground (arith, count-counted a, v.some_free a);
            none_free = λ a m. ground (
              arith,
              count-counted a,
              v.none_free a,
              (Distinct-parts ps fs v.distinct).2 a,
              inside,
            );
          },
          update_self h.words (free_slot slab count) ptr,
          ground (arith, count-counted slab),
        )

  module _ (xs ys : List Ptr) where
    -- In a cache that IsCache describes, when the last object comes back to a partial slab of
    -- fewer than 2^16 objects, wherever it stands, the slab leaves the list, IsCache holds of the
    -- lists without it, and its page is unmapped.
    pub put_object_last :
        (fs : List Ptr)
        → IsCache h i (xs ++ (slab ∷ ys)) fs
        → count + 1 ≡ (h.slabs slab).total_count
        → (h.slabs slab).total_count < 2 ^ 16
        → IsCache (put_object mmap unmmap i slab ptr h) i (xs ++ ys) fs
          × ((put_object mmap unmmap i slab ptr h).source ≡ unmmap slab 1 h.source)
    unfolding put_object release_slab
    put_object_last fs v all small =
        let inside : has slab (xs ++ (slab ∷ ys)) ≡ true =
          ground (arith, has_without slab slab xs ys) in
        let up = counts_up (omega (arith, all, small)) in
        let pos : 0 < count = v.some_free slab inside in
        let old : (count + 1 == 1) ≡ false = ground (arith, pos) in
        let done : (count + 1 == (h.slabs slab).total_count) ≡ true = ground (arith, all) in
        let parts = Distinct-parts (xs ++ (slab ∷ ys)) fs v.distinct in
        let chain = counted-Chain (h.slab_caches i).partial (xs ++ (slab ∷ ys)) v.partial in
        let dist = unlinked-Distinct counted (h.slab_caches i).partial xs slab ys chain parts.0 in
        rw (up, old, done)
          (
            record {
              partial =
                  rw (update_self h.slab_caches i)
                    (unlinked_rest counted (h.slab_caches i).partial xs slab ys chain parts.0);
              full = rw (update_self h.slab_caches i) (
                  Chain-frame counted (unlink slab counted) null (h.slab_caches i).full fs
                    (λ a m.
                      unlinked_others counted (h.slab_caches i).partial xs slab ys chain parts.0 a
                        (Chain-ne h.slabs null (h.slab_caches i).full fs a v.full m) (parts.2 a m))
                    (counted-Chain (h.slab_caches i).full fs v.full));
              distinct =
                  Distinct-append (xs ++ ys) fs dist.0 parts.1
                    (λ a m. ground (arith, has_without a slab xs ys, parts.2 a, m));
              some_free = λ a m. ground (
                arith,
                free_count-unlink slab a counted,
                count-counted a,
                v.some_free a,
                has_without a slab xs ys,
                m,
              );
              none_free = λ a m. ground (
                arith,
                free_count-unlink slab a counted,
                count-counted a,
                v.none_free a,
                parts.2 a,
                inside,
                m,
              );
            },
            refl,
          )

    -- The lists while the slab leaves the full slabs.
    module _ (ps : List Ptr) (v : IsCache h i ps (xs ++ (slab ∷ ys))) where
      from_full : Chain counted null (h.slab_caches i).full (xs ++ (slab ∷ ys))
      from_full = counted-Chain (h.slab_caches i).full (xs ++ (slab ∷ ys)) v.full

      apart_ps : (a : Ptr) → has a (xs ++ (slab ∷ ys)) ≡ true → has a ps ≡ false
      apart_ps = (Distinct-parts ps (xs ++ (slab ∷ ys)) v.distinct).2

      fs-Distinct : Distinct (xs ++ (slab ∷ ys))
      fs-Distinct = (Distinct-parts ps (xs ++ (slab ∷ ys)) v.distinct).1

      inside_fs : has slab (xs ++ (slab ∷ ys)) ≡ true
      inside_fs = ground (arith, has_without slab slab xs ys)

      rest_fs : Distinct (xs ++ ys) × (has slab (xs ++ ys) ≡ false)
      rest_fs = unlinked-Distinct counted (h.slab_caches i).full xs slab ys from_full fs-Distinct

      abbrev apart : Ptr → Slab
      apart = unlink slab counted

      partial_apart : Chain apart null (h.slab_caches i).partial ps
      partial_apart =
          Chain-frame counted apart null (h.slab_caches i).partial ps
            (λ a m.
              unlinked_others counted (h.slab_caches i).full xs slab ys from_full fs-Distinct a
                (Chain-ne h.slabs null (h.slab_caches i).partial ps a v.partial m)
                (ground (arith, apart_ps a, m)))
            (counted-Chain (h.slab_caches i).partial ps v.partial)

      abbrev back : Ptr → Slab
      back = push_front slab (h.slab_caches i).partial apart

      partial_back : Chain back null slab (slab ∷ ps)
      partial_back =
          push_front-Chain apart slab (h.slab_caches i).partial ps partial_apart
            (Distinct-parts ps (xs ++ (slab ∷ ys)) v.distinct).0 (apart_ps slab inside_fs)
            (Chain-ne h.slabs null (h.slab_caches i).full (xs ++ (slab ∷ ys)) slab v.full inside_fs)

      full_back :
          Chain back null
            (if (h.slab_caches i).full == slab then (apart slab).next else (h.slab_caches i).full)
            (xs ++ ys)
      full_back =
          Chain-frame apart back null
            (if (h.slab_caches i).full == slab then (apart slab).next else (h.slab_caches i).full)
            (xs ++ ys)
            (λ a m.
              push_front-SameLinks apart slab (h.slab_caches i).partial ps a partial_apart
                (ground (arith, apart_ps a, has_without a slab xs ys, rest_fs.1, m)))
            (unlinked_rest counted (h.slab_caches i).full xs slab ys from_full fs-Distinct)

      count-back :
          (a : Ptr)
          → (back a).free_count ≡ (if slab == a then count + 1 else (h.slabs a).free_count)
      count-back a =
          free_count-push_front slab (h.slab_caches i).partial a apart
          ∙ free_count-unlink slab a counted
          ∙ count-counted a

      back-IsCache : IsCache (move_to_partial mmap unmmap i slab put) i (slab ∷ ps) (xs ++ ys)
      unfolding move_to_partial
      back-IsCache = record {
        partial = rw (update_self h.slab_caches i) partial_back;
        full = rw (update_self h.slab_caches i) full_back;
        distinct = (
          ground (arith, has-append slab ps (xs ++ ys), apart_ps slab inside_fs, rest_fs.1),
          Distinct-append ps (xs ++ ys) (Distinct-parts ps (xs ++ (slab ∷ ys)) v.distinct).0
              rest_fs.0 (λ a m. ground (arith, apart_ps a, has_without a slab xs ys, m)),
        );
        some_free = λ a m. ground (arith, count-back a, v.some_free a, m);
        none_free = λ a m.
            ground (arith, count-back a, v.none_free a, has_without a slab xs ys, rest_fs.1, m);
      }

      back-words : (move_to_partial mmap unmmap i slab put).words ≡ put.words
      unfolding move_to_partial
      back-words = refl

      back-free_count : ((move_to_partial mmap unmmap i slab put).slabs slab).free_count ≡ count + 1
      unfolding move_to_partial
      back-free_count = ground (arith, count-back slab)

      -- In a cache that IsCache describes, when an object comes back to a full slab of more than
      -- one object, wherever it stands, the slab leaves the full slabs and becomes the first
      -- partial one, IsCache holds of the new lists, and the first word behind the slab's header
      -- becomes the object's address.
      pub put_object-full :
          1 < (h.slabs slab).total_count
          → IsCache (put_object mmap unmmap i slab ptr h) i (slab ∷ ps) (xs ++ ys)
            × ((put_object mmap unmmap i slab ptr h).words (free_slot slab 0) ≡ ptr)
            × (((put_object mmap unmmap i slab ptr h).slabs slab).free_count ≡ 1)
      unfolding put_object
      put_object-full more =
          let none_yet : count ≡ 0 = v.none_free slab inside_fs in
          let up = counts_up (omega (arith, none_yet)) in
          let first : (count + 1 == 1) ≡ true = ground (arith, none_yet) in
          let not_all : (count + 1 == (h.slabs slab).total_count) ≡ false =
            ground (arith, more, none_yet) in
          let at : free_slot slab count ≡ free_slot slab 0 = ground (arith, none_yet) in
          rw (up, first, not_all)
            (
              back-IsCache,
              ap (λ (w : Ptr → ℕ). w (free_slot slab 0)) back-words
                  ∙ (rw (sym at) (update_self h.words (free_slot slab count) ptr)),
              ground (arith, back-free_count, none_yet),
            )
