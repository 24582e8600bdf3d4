-- ===== src/Memory/Slab/Cache.antt =====
-- The lists of a slab cache through `kmalloc` and `kfree`: partial slabs with free objects, full slabs
-- with none, each linked both ways.
use mathlib.Core.Path.{subst}
use kernel_study.Base.{
  ℕ, ◌-◌, ◌<◌, ◌≡◌, refl, true, false, inl, inr, List, ◌∷◌, ◌++◌, some, arith, ◌==◌, ==_iff,
  if◌then◌else◌, update_self, ◌∙◌, sym, Bool-cases,
}
use kernel_study.Base.Members.{has, Distinct, has-append}
use kernel_study.Memory.Slab.{
  Ptr, null, Slab, Heap, free_slot, set_free_count, push_front, pop_front, move_to_full,
  take_object,
}
use kernel_study.Memory.Slab.Chains.{Chain, Chain-frame}
use kernel_study.Memory.Slab.Moves.{
  free_count-push_front, free_count-pop_front, free_count-set_free_count, SameLinks-set_free_count,
  moved_full, moved_partial, moved-Distinct,
}

module _ {S : Type 0} where
  -- The cache `i` has the partial slabs `ps` and the full slabs `fs`.
  pub record IsCache (h : Heap S) (i : ℕ) (ps fs : List Ptr) : Type 0 where
    pub partial : Chain h.slabs null (h.slab_caches i).partial ps
    pub full : Chain h.slabs null (h.slab_caches i).full fs
    pub distinct : Distinct (ps ++ fs)
    pub some_free : (a : Ptr) → has a ps ≡ true → 0 < (h.slabs a).free_count
    pub none_free : (a : Ptr) → has a fs ≡ true → (h.slabs a).free_count ≡ 0

module _ {S : Type 0} (h : Heap S) (i : ℕ) (slab : Ptr) (ps fs : List Ptr)
    (v : IsCache h i (slab ∷ ps) fs) where
  abbrev count : ℕ
  count = (h.slabs slab).free_count

  abbrev counted : Ptr → Slab
  counted = set_free_count slab (count - 1) h.slabs

  taken-Chain : Chain counted null slab (slab ∷ ps)
  taken-Chain =
      subst (λ (p : Ptr). Chain counted null p (slab ∷ ps)) v.partial.0
        (Chain-frame h.slabs counted null (h.slab_caches i).partial (slab ∷ ps)
          (λ a m. SameLinks-set_free_count slab (count - 1) h.slabs a) v.partial)

  taken_full : Chain counted null (h.slab_caches i).full fs
  taken_full =
      Chain-frame h.slabs counted null (h.slab_caches i).full fs
        (λ a m. SameLinks-set_free_count slab (count - 1) h.slabs a) v.full

  abbrev taken : Heap S
  taken = record h { slabs = counted }

  count-counted :
      (a : Ptr) → (counted a).free_count ≡ (if slab == a then count - 1 else (h.slabs a).free_count)
  count-counted a = free_count-set_free_count slab (count - 1) a h.slabs

  taken-IsCache : 1 < count → IsCache taken i (slab ∷ ps) fs
  taken-IsCache more = record {
    partial = subst (λ (p : Ptr). Chain counted null p (slab ∷ ps)) (sym v.partial.0) taken-Chain;
    full = taken_full;
    distinct = v.distinct;
    some_free = λ a m. ground (arith, count-counted a, v.some_free a, more);
    none_free =
        λ a m. ground (arith, count-counted a, v.none_free a, v.distinct.0, has-append slab ps fs);
  }

  abbrev moved : Ptr → Slab
  moved = push_front slab (h.slab_caches i).full (pop_front slab counted)

  count-moved :
      (a : Ptr) → (moved a).free_count ≡ (if slab == a then count - 1 else (h.slabs a).free_count)
  count-moved a =
      free_count-push_front slab (h.slab_caches i).full a (pop_front slab counted)
      ∙ free_count-pop_front slab a counted
      ∙ count-counted a

  moved-IsCache : count ≡ 1 → IsCache (move_to_full i slab taken) i ps (slab ∷ fs)
  unfolding move_to_full
  moved-IsCache one = record {
    partial =
        rw (update_self h.slab_caches i) (
          moved_partial counted slab (h.slab_caches i).full ps fs taken-Chain taken_full
            v.distinct);
    full =
        rw (update_self h.slab_caches i)
          (moved_full counted slab (h.slab_caches i).full ps fs taken-Chain taken_full v.distinct);
    distinct =
        moved-Distinct counted slab (h.slab_caches i).full ps fs taken-Chain taken_full v.distinct;
    some_free =
        λ a m. ground (arith, count-moved a, v.some_free a, v.distinct.0, has-append slab ps fs);
    none_free = λ a m. ground (arith, count-moved a, v.none_free a, one);
  }

  count-move_to_full : ((move_to_full i slab taken).slabs slab).free_count ≡ count - 1
  unfolding move_to_full
  count-move_to_full = ground (arith, count-moved slab)

  -- In a cache that IsCache describes, with a partial slab, `kmalloc` returns the last entry of
  -- the free list of the first partial slab and counts it off. A slab whose last object is taken
  -- becomes the first of the full slabs, any other stays where it is, and IsCache holds of the new
  -- lists.
  pub take_object-IsCache :
      (h' : Heap S) × (take_object i h
        ≡ some (h.words (free_slot slab ((h.slabs slab).free_count - 1)), h'))
      × IsCache h' i
          (if (h.slabs slab).free_count == 1 then ps else slab ∷ ps)
          (if (h.slabs slab).free_count == 1 then slab ∷ fs else fs)
      × ((h'.slabs slab).free_count ≡ (h.slabs slab).free_count - 1)
  unfolding take_object
  take_object-IsCache =
      let pos : 0 < count = v.some_free slab (ground arith) in
      let first : (h.slab_caches i).partial ≡ slab = v.partial.0 in
      let some_left : (count == 0) ≡ false = ground (arith, pos) in
      elim (Bool-cases (count == 1)) [
        | inl last ↦
            let one : count ≡ 1 = (==_iff _ _).0 last in
            let none_left : (count - 1 == 0) ≡ true = ground (arith, one) in
            rw (last, first, some_left, none_left)
              (move_to_full i slab taken, refl, moved-IsCache one, count-move_to_full)
        | inr more ↦
            let left : (count - 1 == 0) ≡ false = ground (arith, more, pos) in
            rw (more, first, some_left, left)
              (
                taken,
                refl,
                taken-IsCache (ground (arith, more, pos)),
                ground (arith, count-counted slab),
              )
      ]
