-- ===== src/Memory/Kheap.antt =====
-- The parts of the kernel heap of kernel/memory.c that choose where a block goes, and the two
-- routines that fill memory.
use kernel_study.Base.{
  ltb, ap, ℕ_discrete, ◌&&◌, ◌∙◌, ℕ, zero, suc, ◌+◌, ◌-◌, ◌/◌, ◌<◌, ◌≤◌, ◌≡◌, refl, ◌⊎◌, inl, inr,
  Option, none, some, List, [], ◌∷◌, arith, leb, ◌==◌, ==_iff, if◌then◌else◌, u8, sub32, update,
  scan, scan-IsFirstRun, get_or, length, dec_le,
}

abbrev pub kheap_start : ℕ
kheap_start = 0xC0400000

-- `KHEAP_PAGES_NUM`: the heap ends at 0xE0000000.
abbrev pub kheap_pages_num : ℕ
kheap_pages_num = (0xE0000000 - 0xC0400000) / 4096

-- `free_virt_area_idx` over `kheap_pages`.
unfoldable pub free_virt_area_idx : (ℕ → ℕ) → ℕ → ℕ
free_virt_area_idx kheap_pages npages =
    sub32 (scan (λ i. kheap_pages i == 0) npages kheap_pages_num 0 0) (sub32 npages 1)

abbrev pub slab_classes : List ℕ
slab_classes = 16 ∷ 32 ∷ 64 ∷ 128 ∷ 256 ∷ 512 ∷ 1024 ∷ 2048 ∷ []

-- The loop of `size_to_class` over the classes from `i` on; `none` is -1.
unfoldable pub class_from : ℕ → ℕ → List ℕ → Option ℕ
class_from size i [] = none
class_from size i (c ∷ cs) = if leb size c then some i else class_from size (i + 1) cs

unfoldable pub size_to_class : ℕ → Option ℕ
size_to_class size = class_from size 0 slab_classes

-- The loop of `kmemcpy` over one memory, with `rounds` rounds to go from `i` on.
unfoldable pub copy_from : (ℕ → ℕ) → (to from i rounds : ℕ) → ℕ → ℕ
copy_from mem to from i zero = mem
copy_from mem to from i (suc rounds) =
    copy_from (update mem (to + i) (mem (from + i))) to from (i + 1) rounds

unfoldable pub kmemcpy : (ℕ → ℕ) → (to from size : ℕ) → ℕ → ℕ
kmemcpy mem to from size = copy_from mem to from 0 size

-- The loop of `kmemset`, with `rounds` rounds to go from `i` on.
unfoldable pub fill_from : (ℕ → ℕ) → (ptr x i rounds : ℕ) → ℕ → ℕ
fill_from mem ptr x i zero = mem
fill_from mem ptr x i (suc rounds) = fill_from (update mem (ptr + i) (u8 x)) ptr x (i + 1) rounds

unfoldable pub kmemset : (ℕ → ℕ) → (ptr x n : ℕ) → ℕ → ℕ
kmemset mem ptr x n = fill_from mem ptr x 0 n

-- `free_virt_area_idx` returns the first page of the first free run of the heap, or, if there is
-- none, an index whose run reaches one page past the end of the heap.
pub free_virt_area_idx_first :
    (kheap_pages : ℕ → ℕ) (n : ℕ)
    → 0 < n
    → n ≤ kheap_pages_num
    → let r = free_virt_area_idx kheap_pages n in
      ((r + n ≤ kheap_pages_num)
        × ((k : ℕ) → k < n → kheap_pages (r + k) ≡ 0)
        × ((t : ℕ) → t < r → ¬ ((k : ℕ) → k < n → kheap_pages (t + k) ≡ 0)))
      ⊎ ((r + n ≡ kheap_pages_num + 1)
          × ((t : ℕ) → t + n ≤ kheap_pages_num → ¬ ((k : ℕ) → k < n → kheap_pages (t + k) ≡ 0)))
unfolding free_virt_area_idx
free_virt_area_idx_first pages n pos fits =
    elim (scan-IsFirstRun (λ i. pages i == 0) n kheap_pages_num pos (omega arith)) [
      | inl f ↦
          let e : sub32 (scan (λ i. pages i == 0) n kheap_pages_num 0 0) (sub32 n 1) ≡ f.start =
            omega (arith, f.last, f.inside) in
          rw e (
            inl (
              f.inside,
              λ k h. (==_iff _ _).0 (f.is_free k h),
              λ t h run. f.first t (omega (arith, f.last)) (λ k p. (==_iff _ _).1 (run k p)),
            ))
      | inr none_free ↦
          inr (
            omega (arith, none_free.0),
            λ t h run. none_free.1 t h (λ k p. (==_iff _ _).1 (run k p)),
          )
    ]

below_cons :
    (size c : ℕ) (cs : List ℕ) (n : ℕ)
    → c < size
    → ((j : ℕ) → j < n → get_or cs j 0 < size)
    → (j : ℕ) → j < suc n
    → get_or (c ∷ cs) j 0 < size
below_cons size c cs n h below zero p = h
below_cons size c cs n h below (suc j) p = below j (omega (arith, p))

class_from-least :
    (size i : ℕ) (cs : List ℕ)
    → ((class_from size i cs ≡ none) × ((j : ℕ) → j < length cs → get_or cs j 0 < size))
      ⊎ ((k : ℕ) × (class_from size i cs ≡ some (i + k))
          × (k < length cs)
          × (size ≤ get_or cs k 0)
          × ((j : ℕ) → j < k → get_or cs j 0 < size))
unfolding class_from
class_from-least size i [] = inl (refl, λ j h. omega (arith, h))
class_from-least size i (c ∷ cs) = elim (dec_le size c) [
  | yes h ↦ inr (0, grind (arith, h), omega arith, h, λ j p. omega (arith, p))
  | no h ↦ elim (class_from-least size (i + 1) cs) [
    | inl (e, above) ↦
        inl (grind (arith, h, e), below_cons size c cs (length cs) (omega (arith, h)) above)
    | inr (k, e, inside, fits, above) ↦ inr (
      suc k,
      grind (arith, h, e),
      omega arith,
      fits,
      below_cons size c cs k (omega (arith, h)) above,
    )
  ]
]

-- `size_to_class` returns the first slab class that holds the size, and -1 exactly when the size is
-- above the largest class.
pub size_to_class_least :
    (size : ℕ)
    → ((size_to_class size ≡ none) × (2048 < size))
      ⊎ ((i : ℕ) × (size_to_class size ≡ some i)
          × (i < length slab_classes)
          × (size ≤ get_or slab_classes i 0)
          × ((j : ℕ) → j < i → get_or slab_classes j 0 < size))
unfolding size_to_class
size_to_class_least size = elim (class_from-least size 0 slab_classes) [
  | inl (e, above) ↦ inl (e, above 7 (omega arith))
  | inr (i, e, inside, fits, above) ↦ inr (i, grind (arith, e), inside, fits, above)
]

fill_from_lem :
    (mem : ℕ → ℕ) (ptr x i rounds a : ℕ)
    → fill_from mem ptr x i rounds a
      ≡ (if leb (ptr + i) a && ltb a (ptr + i + rounds) then u8 x else mem a)
unfolding fill_from update
fill_from_lem mem ptr x i zero a = ground arith
fill_from_lem mem ptr x i (suc rounds) a =
    fill_from_lem (update mem (ptr + i) (u8 x)) ptr x (i + 1) rounds a ∙ ground arith

-- `kmemset` writes the low byte of `x` to the `n` bytes from `ptr` on and to no other.
pub kmemset_lem :
    (mem : ℕ → ℕ) (ptr x n a : ℕ)
    → kmemset mem ptr x n a ≡ (if leb ptr a && ltb a (ptr + n) then u8 x else mem a)
unfolding kmemset
kmemset_lem mem ptr x n a = fill_from_lem mem ptr x 0 n a ∙ ground arith

copy_from_lem :
    (mem : ℕ → ℕ) (to from i rounds a : ℕ)
    → (to + i + rounds ≤ from + i) ⊎ (from + i + rounds ≤ to + i)
    → copy_from mem to from i rounds a
      ≡ (if leb (to + i) a && ltb a (to + i + rounds) then mem (from + (a - to)) else mem a)
unfolding copy_from update
copy_from_lem mem to from i zero a h = ground arith
copy_from_lem mem to from i (suc rounds) a h =
    let next = update mem (to + i) (mem (from + i)) in
    copy_from_lem next to from (i + 1) rounds a (ground (arith, h)) ∙ elim (ℕ_discrete (to + i) a) [
      | yes e ↦
          let d : mem (from + (a - to)) ≡ mem (from + i) = ap mem (omega (arith, e)) in
          ground (arith, d, e)
      | no ne ↦ ground (arith, h, ne)
    ]

-- `kmemcpy` copies the `n` bytes from `from` on to `to` and writes no other byte, if the two ranges do
-- not overlap.
pub kmemcpy_lem :
    (mem : ℕ → ℕ) (to from n a : ℕ)
    → (to + n ≤ from) ⊎ (from + n ≤ to)
    → kmemcpy mem to from n a
      ≡ (if leb to a && ltb a (to + n) then mem (from + (a - to)) else mem a)
unfolding kmemcpy
kmemcpy_lem mem to from n a h = copy_from_lem mem to from 0 n a (ground (arith, h)) ∙ ground arith
