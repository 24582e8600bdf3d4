-- ===== src/Memory/Slab/Layout.antt =====
-- The slab that `kmalloc` makes of a fresh page when a cache has no partial slab.
use kernel_study.Base.{
  ℕ, zero, suc, ◌+◌, ◌-◌, ◌*◌, ◌/◌, ◌%◌, ◌^◌, ◌<◌, ◌≤◌, ◌≡◌, ◌≢◌, refl, Bool, true, ◌&&◌, ◌⊎◌, inl,
  inr, List, [], ◌∷◌, arith, leb, ltb, if◌then◌else◌, update, u16, ap, ◌∙◌, Bool-cases,
}
use native.Mathlib.Nat.{mul-div-le, mul-le-mul_left, le_trans, lt_trans, mul-suc}
use kernel_study.Base.Members.{has}
use kernel_study.Memory.Align.{page_size, align_down_4k, page_of_align_down}
use kernel_study.Memory.Slab.{
  Ptr, null, Slab, Heap, slab_size, free_slot, fill_free_list, objects_of, zeroed, new_slab,
}
use kernel_study.Memory.Slab.Chains.{Chain-frame}
use kernel_study.Memory.Slab.Cache.{IsCache}

-- The loop writes the addresses of the objects into the entries from `i` on, and no other entry.
pub fill_free_list_lem :
    (slab obj_size i rounds k : ℕ) (words : Ptr → ℕ)
    → fill_free_list slab obj_size i rounds words (free_slot slab k) ≡ (
        if leb i k && ltb k (i + rounds)
        then slab + slab_size + obj_size * k
        else words (free_slot slab k))
unfolding fill_free_list update
fill_free_list_lem slab obj_size i zero k words = ground arith
fill_free_list_lem slab obj_size i (suc rounds) k words = ground (
  arith,
  fill_free_list_lem slab obj_size (i + 1) rounds k
      (update words (free_slot slab i) (slab + slab_size + obj_size * i)),
)

-- The objects of a page fit behind its header.
objects_fit : (obj_size : ℕ) → obj_size * objects_of obj_size ≤ page_size - slab_size
objects_fit obj_size =
    let fit = mul-div-le (page_size - slab_size) obj_size in
    let n = (page_size - slab_size) / obj_size in
    let less : u16 n ≤ n = omega arith in le_trans (mul-le-mul_left obj_size less) fit

module _ {S : Type 0} (mmap : (npages flags : ℕ) → S → Ptr × S)
    (unmmap : Ptr → (npages : ℕ) → S → S) (h : Heap S) (i : ℕ) where
  abbrev addr : Ptr
  addr = (mmap 1 3 h.source).0

  abbrev total : ℕ
  total = objects_of (h.slab_caches i).obj_size

  abbrev made : Heap S
  made = (new_slab mmap unmmap i h).1

  pub made_slab :
      ((made.slabs addr).next ≡ null)
      × ((made.slabs addr).prev ≡ null)
      × ((made.slabs addr).free_count ≡ total - 1)
  unfolding new_slab zeroed update
  made_slab = (ground arith, ground arith, ground arith)

  made_others : (a : Ptr) → (a < addr) ⊎ (addr + page_size ≤ a) → made.slabs a ≡ h.slabs a
  unfolding new_slab zeroed update
  made_others a out = ground (arith, out)

  pub made_cache :
      ((made.slab_caches i).partial ≡ addr) × ((made.slab_caches i).full ≡ (h.slab_caches i).full)
  unfolding new_slab zeroed update
  made_cache = (ground arith, ground arith)

  made_result : (new_slab mmap unmmap i h).0 ≡ made.words (free_slot addr (total - 1))
  unfolding new_slab zeroed
  made_result = refl

  -- In a cache that IsCache describes, without partial slabs and of a class with more than one
  -- object in a page, a page that `mmap` gives, not at NULL and apart from the full slabs, becomes
  -- the only partial slab, with all objects free but one, and IsCache holds of the new lists.
  pub new_slab-IsCache :
      (fs : List Ptr)
      → IsCache h i [] fs
      → addr ≢ null
      → ((a : Ptr) → has a fs ≡ true → (a < addr) ⊎ (addr + page_size ≤ a))
      → 1 < total
      → IsCache made i (addr ∷ []) fs × ((made.slabs addr).free_count ≡ total - 1)
  new_slab-IsCache fs v ne fresh more = (
    record {
      partial = (made_cache.0, ne, made_slab.1, made_slab.0);
      full = rw made_cache.1 (
          Chain-frame h.slabs made.slabs null (h.slab_caches i).full fs
            (λ a m.
              let same = made_others a (fresh a m) in
              (ap (λ (s : Slab). s.next) same, ap (λ (s : Slab). s.prev) same))
            v.full);
      distinct = (
        elim (Bool-cases (has addr fs)) [
          | inl m ↦ absurd (ground (arith, fresh addr m))
          | inr o ↦ o
        ],
        v.distinct,
      );
      some_free = λ a m. ground (arith, made_slab.2, more, m);
      none_free =
          λ a m. ap (λ (s : Slab). s.free_count) (made_others a (fresh a m)) ∙ v.none_free a m;
    },
    made_slab.2,
  )

  -- The entry `k` of the new free list is the object `k` of the page.
  made-words :
      (k : ℕ)
      → k < total
      → made.words (free_slot addr k) ≡ addr + slab_size + (h.slab_caches i).obj_size * k
  unfolding new_slab zeroed
  made-words k lt =
      let zeros : Ptr → ℕ = (zeroed addr 1 (record h { source = (mmap 1 3 h.source).1 })).words in
      let entry = fill_free_list_lem addr (h.slab_caches i).obj_size 0 total k zeros in
      let inside : (leb 0 k && ltb k (0 + total)) ≡ true = ground (arith, lt) in
      entry
      ∙ ap
          (λ (b : Bool).
            if b
            then addr + slab_size + (h.slab_caches i).obj_size * k
            else zeros (free_slot addr k))
          inside

  -- A page behind whose header `total` objects fit holds the object `k`.
  object_inside :
      (k : ℕ)
      → k < total
      → slab_size + (h.slab_caches i).obj_size * k + (h.slab_caches i).obj_size ≤ page_size
  object_inside k lt =
      let c = (h.slab_caches i).obj_size in
      let next : suc k ≤ total = lt in
      let up : c * suc k ≤ c * total = mul-le-mul_left c next in
      let split : c * suc k ≡ c * k + c = mul-suc c k in
      let fit : c * total ≤ 4080 = objects_fit c in omega (arith, up, split, fit)

  -- For a page on a page boundary inside the address space, and objects of any size above 0: every
  -- object of the new slab lies inside the page, behind the header, and its address rounds down to
  -- the page; the objects do not overlap; and `kmalloc` returns the last of them.
  pub new_slab_objects :
      addr % page_size ≡ 0
      → addr + page_size ≤ 2 ^ 32
      → 0 < (h.slab_caches i).obj_size
      → ((k : ℕ)
          → k < total
          → (addr + slab_size ≤ made.words (free_slot addr k))
            × (made.words (free_slot addr k) + (h.slab_caches i).obj_size ≤ addr + page_size)
            × (align_down_4k (made.words (free_slot addr k)) ≡ addr))
        × ((j k : ℕ)
            → j < k
            → k < total
            → made.words (free_slot addr j) + (h.slab_caches i).obj_size
              ≤ made.words (free_slot addr k))
        × ((new_slab mmap unmmap i h).0 ≡ made.words (free_slot addr (total - 1)))
  new_slab_objects page room pos = (
    λ k lt.
        let o = made-words k lt in
        let fit = object_inside k lt in
        rw o (
          omega (arith),
          omega (arith, fit),
          rw
              (page_of_align_down (addr + slab_size + (h.slab_caches i).obj_size * k)
                (omega (arith, fit, room, pos)))
              (omega (arith, fit, page, pos)),
        ),
    λ j k lt lt'.
        let c = (h.slab_caches i).obj_size in
        let up : c * suc j ≤ c * k = mul-le-mul_left c lt in
        let split : c * suc j ≡ c * j + c = mul-suc c j in
        rw (made-words j (lt_trans lt lt'), made-words k lt') (omega (arith, up, split)),
    made_result,
  )
