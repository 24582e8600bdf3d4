-- ===== src/Base/Scan.antt =====
-- The first-fit scan that `pmm_alloc` and `free_virt_area_idx` of kernel/memory.c share: a counter
-- of consecutive free pages, reset at a used page, until it reaches the number that is wanted.
use kernel_study.Base.Tests.{◌==◌, if◌then◌else◌, Bool-cases, ==_iff}
use kernel_study.Base.Words.{u32}
use Prim.Native.Nat.{ℕ, zero, suc, ◌+◌, ◌-◌, ◌^◌, ◌≤◌, ◌<◌}
use mathlib.Core.Path.{◌≡◌, refl}
use mathlib.Core.Logic.{◌⊎◌, inl, inr}
use mathlib.Core.Bool.{Bool, true, false}
use native.Mathlib.Omega.{arith}
use native.Mathlib.Decide.{dec_lt}

module _ (free : ℕ → Bool) (npages : ℕ) where
  -- `for (; i < size; i++)` with `rounds` rounds left and `page_accumulator` at `acc`.
  unfoldable pub scan : (rounds i acc : ℕ) → ℕ
  scan zero i acc = i
  scan (suc rounds) i acc =
      let found = u32 (acc + 1) == npages in
      let more = scan rounds (i + 1) (u32 (acc + 1)) in
      let reset = scan rounds (i + 1) 0 in if free i then (if found then i else more) else reset

  -- The `npages` pages from `s` on are free.
  abbrev pub Run : ℕ → Type 0
  Run s = (k : ℕ) → k < npages → free (s + k) ≡ true

  -- No free run ends at or before `i`.
  abbrev pub NoRun : ℕ → Type 0
  NoRun i = (s : ℕ) → s + npages ≤ i → ¬ Run s

  -- What the scan knows on entering a round.
  record Scanning (i acc : ℕ) : Type 0 where
    short : acc < npages
    within : acc ≤ i
    run : (k : ℕ) → k < acc → free (i - acc + k) ≡ true
    edge : (acc ≡ i) ⊎ (free (i - acc - 1) ≡ false)
    none_yet : NoRun i

  -- The last page of the first free run.
  pub record IsFirstRun (size r : ℕ) : Type 0 where
    pub start : ℕ
    pub last : r + 1 ≡ start + npages
    pub inside : start + npages ≤ size
    pub is_free : Run start
    pub first : NoRun r

  move : (a b : ℕ) (v : Bool) → a ≡ b → free a ≡ v → free b ≡ v
  move a b v e h = cc

  NoRun-of_used : (i : ℕ) → 0 < npages → free i ≡ false → NoRun i → NoRun (i + 1)
  NoRun-of_used i pos used none_yet s h run = elim (dec_lt i (s + npages)) [
    | no early ↦ none_yet s (omega arith) run
    | yes late ↦
        let last : free i ≡ true =
          move (s + (npages - 1)) i true (omega arith) (run (npages - 1) (omega arith)) in
        cc
  ]

  Scanning-used : (i acc : ℕ) → free i ≡ false → Scanning i acc → Scanning (i + 1) 0
  Scanning-used i acc used st = record {
    short = omega (arith, st.short);
    within = omega arith;
    run = λ k h. absurd (omega arith);
    edge = inr (move i (i + 1 - 0 - 1) false (omega arith) used);
    none_yet = NoRun-of_used i (omega (arith, st.short)) used st.none_yet;
  }

  -- At a free page the run grows; at its full length nothing ends before it.
  NoRun-grown : (i acc : ℕ) → Scanning i acc → suc acc < npages → NoRun (i + 1)
  NoRun-grown i acc st small s h run = elim (dec_lt i (s + npages)) [
    | no early ↦ st.none_yet s (omega arith) run
    | yes late ↦ elim st.edge [
      | inl whole ↦ omega arith
      | inr before ↦
          let inside : free (i - acc - 1) ≡ true =
            move (s + (i - acc - 1 - s)) (i - acc - 1) true (omega (arith, st.within))
              (run (i - acc - 1 - s) (omega (arith, st.within))) in
          cc
    ]
  ]

  run_grown :
      (i acc : ℕ)
      → free i ≡ true
      → Scanning i acc
      → (k : ℕ) → k < suc acc
      → free (i - acc + k) ≡ true
  run_grown i acc f st k h = elim (dec_lt k acc) [
    | yes p ↦ st.run k p
    | no p ↦ move i (i - acc + k) true (omega (arith, st.within)) f
  ]

  Scanning-free :
      (i acc : ℕ) → free i ≡ true → suc acc < npages → Scanning i acc → Scanning (i + 1) (acc + 1)
  Scanning-free i acc f small st = record {
    short = omega arith;
    within = omega (arith, st.within);
    run = λ k h.
        move (i - acc + k) (i + 1 - (acc + 1) + k) true (omega arith)
          (run_grown i acc f st k (omega arith));
    edge = elim st.edge [
      | inl e ↦ inl (omega arith)
      | inr e ↦ inr (move (i - acc - 1) (i + 1 - (acc + 1) - 1) false (omega arith) e)
    ];
    none_yet = NoRun-grown i acc st small;
  }

  IsFirstRun-found :
      (size i acc : ℕ)
      → i < size
      → free i ≡ true
      → suc acc ≡ npages
      → Scanning i acc
      → IsFirstRun size i
  IsFirstRun-found size i acc h f full st = record {
    start = i - acc;
    last = omega (arith, st.within);
    inside = omega (arith, st.within);
    is_free = λ k p. run_grown i acc f st k (omega arith);
    first = st.none_yet;
  }

  scan-Scanning :
      (rounds i acc size : ℕ)
      → i + rounds ≡ size
      → npages < 2 ^ 32
      → Scanning i acc
      → IsFirstRun size (scan rounds i acc) ⊎ ((scan rounds i acc ≡ size) × NoRun size)
  unfolding scan
  scan-Scanning zero i acc size e w st =
      let e' : i ≡ size = omega arith in inr (e', rw e' at st.none_yet)
  scan-Scanning (suc rounds) i acc size e w st = elim (Bool-cases (free i)) [
    | inl f ↦ elim (Bool-cases (u32 (acc + 1) == npages)) [
      | inl full ↦
          rw (f, full)
            (inl (
              IsFirstRun-found size i acc (omega arith) f
                (omega (arith, (==_iff _ _).0 full, st.short)) st))
      | inr more ↦
          let small : suc acc < npages = ground (arith, st.short) in
          let e' : u32 (acc + 1) ≡ acc + 1 = omega arith in
          rw (f, more, e')
            (scan-Scanning rounds (i + 1) (acc + 1) size (omega arith) w
              (Scanning-free i acc f small st))
    ]
    | inr used ↦
        rw used (scan-Scanning rounds (i + 1) 0 size (omega arith) w (Scanning-used i acc used st))
  ]

  -- From the start the scan stops at the last page of the first free run, or at the end if there
  -- is no free run.
  pub scan-IsFirstRun :
      (size : ℕ)
      → 0 < npages
      → npages < 2 ^ 32
      → IsFirstRun size (scan size 0 0) ⊎ ((scan size 0 0 ≡ size) × NoRun size)
  scan-IsFirstRun size pos w = scan-Scanning size 0 0 size (omega arith) w (record {
    short = pos;
    within = omega arith;
    run = λ k h. absurd (omega arith);
    edge = inl refl;
    none_yet = λ s h run. absurd (omega arith);
  })
