-- ===== src/Memory/Pmm/Alloc.antt =====
-- What `pmm_alloc` and `pmm_free` promise, in terms of the bits of the page bitmap.
use kernel_study.Base.{
  ℕ, ◌+◌, ◌-◌, ◌*◌, ◌/◌, ◌^◌, ◌≤◌, ◌<◌, ◌≡◌, refl, inl, inr, true, arith, dec_lt, ==_iff,
  if◌then◌else◌, u32, sub32, sub64, scan, Run, IsFirstRun, scan-IsFirstRun,
}
use kernel_study.Memory.Align.{page_size}
use kernel_study.Memory.Bitmap.{IsBytes, bit_get}
use kernel_study.Memory.Pmm.{Pmm, is_free, pmm_alloc, pmm_free}
use kernel_study.Memory.Pmm.Ranges.{
  in_range, set_used_bitmaps-IsBytes, clear_bitmaps-IsBytes, bit_get-set_used_bitmaps,
  bit_get-clear_bitmaps,
}

-- A bitmap of bytes, for pages whose addresses fit `uintptr_t`.
pub record IsPmm (s : Pmm) : Type 0 where
  pub bytes : IsBytes s.bitmap
  pub small : s.bitmap_size ≤ 2 ^ 20

-- The `n` pages from `t` on lie below the end of memory and are free.
pub record FreeAt (s : Pmm) (n t : ℕ) : Type 0 where
  pub inside : t + n ≤ s.bitmap_size
  pub free : (k : ℕ) → k < n → bit_get s.bitmap (t + k) ≡ 0

-- The result of a successful allocation: the first `n` pages in a row that were free are now used,
-- and no other page has changed.
pub record Allocated (s : Pmm) (n : ℕ) (out : ℕ × Pmm) : Type 0 where
  pub page : ℕ
  pub address : out.0 ≡ page * page_size
  pub was_free : FreeAt s n page
  pub first : (t : ℕ) → FreeAt s n t → page ≤ t
  pub bits :
      (j : ℕ) → bit_get out.1.bitmap j ≡ (if in_range page n j then 1 else bit_get s.bitmap j)
  pub size : out.1.bitmap_size ≡ s.bitmap_size

module _ (n : ℕ) (s : Pmm) (v : IsPmm s) (pos : 0 < n) (word : n < 2 ^ 32) where
  free_of_bit : (i : ℕ) → bit_get s.bitmap i ≡ 0 → is_free s.bitmap i ≡ true
  free_of_bit i h = (==_iff _ _).1 h

  Run_of_FreeAt : (t : ℕ) → FreeAt s n t → Run (is_free s.bitmap) n t
  Run_of_FreeAt t h = λ k p. free_of_bit (t + k) (h.free k p)

  Allocated-at :
      (r : ℕ)
      → r ≡ scan (is_free s.bitmap) n s.bitmap_size 0 0
      → IsFirstRun (is_free s.bitmap) n s.bitmap_size r
      → Allocated s n (pmm_alloc n s)
  unfolding pmm_alloc
  Allocated-at r e h =
      let start = h.start in
      let e1 : sub32 n 1 ≡ n - 1 = omega arith in
      let e2 : sub64 r (sub32 n 1) ≡ start = omega (arith, h.last, h.inside, v.small) in
      let e3 : r + 1 - start ≡ n = omega (arith, h.last) in
      rw (← e, e2, e3)
        (record {
          page = start;
          address = omega (arith, h.inside, v.small);
          was_free = record { inside = h.inside; free = λ k p. (==_iff _ _).0 (h.is_free k p) };
          first = λ t f. elim (dec_lt t start) [
            | yes p ↦ absurd (h.first t (omega (arith, h.last)) (Run_of_FreeAt t f))
            | no p ↦ omega arith
          ];
          bits = λ j.
              bit_get-set_used_bitmaps s.bitmap start n j v.bytes
                (omega (arith, h.inside, v.small));
          size = refl;
        })

  FreeAt-of_first :
      IsFirstRun (is_free s.bitmap) n s.bitmap_size (scan (is_free s.bitmap) n s.bitmap_size 0 0)
      → (t : ℕ) × FreeAt s n t
  FreeAt-of_first h =
      (h.start, record { inside = h.inside; free = λ k p. (==_iff _ _).0 (h.is_free k p) })

  -- For a 32-bit count `n` above 0 and a bitmap of at most 2^20 pages with a run of `n` free
  -- pages below the end of memory, `pmm_alloc(n)` returns the address of the first such run,
  -- marks exactly its pages used and leaves every other page as it was.
  pub pmm_alloc-Allocated : (t : ℕ) → FreeAt s n t → Allocated s n (pmm_alloc n s)
  pmm_alloc-Allocated t f = elim (scan-IsFirstRun (is_free s.bitmap) n s.bitmap_size pos word) [
    | inl h ↦ Allocated-at (scan (is_free s.bitmap) n s.bitmap_size 0 0) refl h
    | inr h ↦ absurd (h.1 t f.inside (Run_of_FreeAt t f))
  ]

  -- For a 32-bit count `n` above 0, at most one more than the pages of memory, and a bitmap of at
  -- most 2^20 pages with no run of `n` free pages, `pmm_alloc(n)` has no error result: it returns
  -- the address `n - 1` pages below the end of memory, and marks used the pages from there to the
  -- one behind the end, whoever holds them.
  pub pmm_alloc_full :
      n ≤ s.bitmap_size + 1
      → ((t : ℕ) → ¬ FreeAt s n t)
      → ((pmm_alloc n s).0 ≡ u32 ((s.bitmap_size + 1 - n) * page_size))
        × ((j : ℕ)
            → bit_get (pmm_alloc n s).1.bitmap j
              ≡ (if in_range (s.bitmap_size + 1 - n) n j then 1 else bit_get s.bitmap j))
  unfolding pmm_alloc
  pmm_alloc_full fits none_free =
      elim (scan-IsFirstRun (is_free s.bitmap) n s.bitmap_size pos word) [
        | inl h ↦ let found = FreeAt-of_first h in absurd (none_free found.0 found.1)
        | inr h ↦
            let e1 : sub32 n 1 ≡ n - 1 = omega arith in
            let e2 : sub64 s.bitmap_size (sub32 n 1) ≡ s.bitmap_size + 1 - n =
              omega (arith, v.small) in
            let e3 : s.bitmap_size + 1 - (s.bitmap_size + 1 - n) ≡ n = omega arith in
            rw (h.0, e2, e3)
              (
                omega (arith, v.small),
                λ j.
                    bit_get-set_used_bitmaps s.bitmap (s.bitmap_size + 1 - n) n j v.bytes
                      (omega (arith, v.small)),
              )
      ]

pub pmm_alloc-IsPmm : (n : ℕ) (s : Pmm) → IsPmm s → IsPmm (pmm_alloc n s).1
unfolding pmm_alloc
pmm_alloc-IsPmm n s v = record {
  bytes = set_used_bitmaps-IsBytes s.bitmap _ _ v.bytes;
  small = v.small;
}

pub pmm_free-IsPmm : (addr n : ℕ) (s : Pmm) → IsPmm s → IsPmm (pmm_free addr n s)
unfolding pmm_free
pmm_free-IsPmm addr n s v = record {
  bytes = clear_bitmaps-IsBytes s.bitmap _ _ v.bytes;
  small = v.small;
}

-- `pmm_free` at the address of a page frees the `n` pages from there on and no other.
pub bit_get-pmm_free :
    (page n j : ℕ) (s : Pmm)
    → IsPmm s
    → page + n ≤ s.bitmap_size
    → bit_get (pmm_free (page * page_size) n s).bitmap j
      ≡ (if in_range page n j then 0 else bit_get s.bitmap j)
unfolding pmm_free
bit_get-pmm_free page n j s v h =
    let e : page * page_size / page_size ≡ page = omega arith in
    rw e (bit_get-clear_bitmaps s.bitmap page n j v.bytes (omega (arith, v.small)))
