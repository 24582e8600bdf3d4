-- ===== src/Scheduler/Next.antt =====
-- `next_task` over a run queue that is a ring: round robin, or a loop that never ends.
use kernel_study.Base.{
  ℕ, zero, suc, ◌<◌, ◌≤◌, ◌≡◌, refl, true, false, inl, inr, List, [], ◌∷◌, ◌++◌, Option, none, some,
  arith, if◌then◌else◌, length, length-append, Bool-cases, Option-cases, ◌∙◌, sym, ap,
}
use kernel_study.Scheduler.{Ptr, Task, Sched, can_run, next_from, next_task}
use kernel_study.Scheduler.Ring.{links, Seg, Seg-frame, Seg-append, Seg-next, has, Distinct}

-- The run queue: from the current task through `rest` and back to it, each task once.
pub record IsRing (s : Sched) (rest : List Ptr) : Type 0 where
  pub ring : Seg (links s) (links s s.current_task) rest s.current_task
  pub distinct : Distinct (s.current_task ∷ rest)

-- The first task of a list that may run: what `next_task` is to find.
unfoldable pub first_runnable : (Ptr → Task) → List Ptr → Option Ptr
first_runnable tasks [] = none
first_runnable tasks (x ∷ xs) = if can_run (tasks x).status then some x else first_runnable tasks xs

module _ (tasks : Ptr → Task) where
  pub next_from-found :
      (fuel : ℕ) (p : Ptr) (xs : List Ptr) (q r : Ptr)
      → Seg (λ a. (tasks a).next) p xs q
      → length xs ≤ fuel
      → first_runnable tasks xs ≡ some r
      → next_from tasks fuel p ≡ some r
  unfolding next_from first_runnable
  next_from-found fuel p [] q r s h e = cc
  next_from-found zero p (x ∷ xs) q r s h e = absurd (omega arith)
  next_from-found (suc fuel) p (x ∷ xs) q r s h e =
      ground (arith, next_from-found fuel (tasks x).next xs q r s.1)

  idle_member :
      (xs : List Ptr) (a : Ptr)
      → first_runnable tasks xs ≡ none
      → has a xs ≡ true
      → can_run (tasks a).status ≡ false
  unfolding first_runnable
  idle_member [] a e h = cc
  idle_member (x ∷ xs) a e h = ground (arith, idle_member xs a)

  -- No round of the loop ends among tasks that may not run and lead only to one another.
  pub next_from_spins :
      (xs : List Ptr) (fuel : ℕ) (p : Ptr)
      → first_runnable tasks xs ≡ none
      → ((a : Ptr) → has a xs ≡ true → has (tasks a).next xs ≡ true)
      → has p xs ≡ true
      → next_from tasks fuel p ≡ none
  unfolding next_from
  next_from_spins xs zero p e closed h = refl
  next_from_spins xs (suc fuel) p e closed h =
      rw (idle_member xs p e h) (next_from_spins xs fuel (tasks p).next e closed (closed p h))

Seg-head :
    (next : Ptr → Ptr) (p : Ptr) (xs : List Ptr) (y q : Ptr)
    → Seg next p (xs ++ (y ∷ [])) q
    → has p (xs ++ (y ∷ [])) ≡ true
Seg-head next p [] y q s = ground arith
Seg-head next p (x ∷ xs) y q s = ground arith

module _ (s : Sched) (rest : List Ptr) (v : IsRing s rest) where
  -- The ring as seen from the current task's successor.
  pub round_trip :
      Seg
        (links s)
        (links s s.current_task)
        (rest ++ (s.current_task ∷ []))
        (links s s.current_task)
  round_trip =
      Seg-append (links s) (links s s.current_task) rest s.current_task (s.current_task ∷ [])
        (links s s.current_task) v.ring (refl, refl)

  closed_ring :
      (a : Ptr)
      → has a (rest ++ (s.current_task ∷ [])) ≡ true
      → has (links s a) (rest ++ (s.current_task ∷ [])) ≡ true
  closed_ring a h = ground (
    arith,
    Seg-next (links s) (links s s.current_task) (rest ++ (s.current_task ∷ []))
        (links s s.current_task) a round_trip h,
    Seg-head (links s) (links s s.current_task) rest s.current_task (links s s.current_task)
        round_trip,
  )

  -- On a run queue that is a ring, with more fuel than it has other tasks, `next_task` returns
  -- the first task behind the current one that may run, the current one coming last. If no task
  -- of the ring may run, it loops for ever: no such fuel is enough.
  pub next_task-first_runnable :
      (fuel : ℕ)
      → length rest < fuel
      → next_task fuel s ≡ first_runnable s.tasks (rest ++ (s.current_task ∷ []))
  unfolding next_task
  next_task-first_runnable fuel h =
      elim (Option-cases (first_runnable s.tasks (rest ++ (s.current_task ∷ [])))) [
        | inl e ↦
            next_from_spins s.tasks (rest ++ (s.current_task ∷ [])) fuel _ e closed_ring
              (Seg-head (links s) _ rest s.current_task _ round_trip)
            ∙ sym e
        | inr found ↦
            next_from-found s.tasks fuel _ (rest ++ (s.current_task ∷ [])) _ found.0 round_trip
              (omega (arith, length-append rest (s.current_task ∷ []))) found.1
            ∙ sym found.1
      ]

-- A scheduler with the same current task and the same links has the same ring.
pub IsRing-frame :
    (s t : Sched) (rest : List Ptr)
    → t.current_task ≡ s.current_task
    → ((a : Ptr) → links t a ≡ links s a)
    → IsRing s rest
    → IsRing t rest
IsRing-frame s t rest e same v =
    let at_current : links t s.current_task ≡ links s s.current_task = same s.current_task in
    record {
      ring =
          rw (e, at_current)
            (Seg-frame (links s) (links t) (links s s.current_task) rest s.current_task
              (λ a i. same a) v.ring);
      distinct = rw e v.distinct;
    }

-- The search depends on the statuses of the listed tasks alone.
pub first_runnable-frame :
    (f g : Ptr → Task) (xs : List Ptr)
    → ((a : Ptr) → has a xs ≡ true → (g a).status ≡ (f a).status)
    → first_runnable g xs ≡ first_runnable f xs
unfolding first_runnable
first_runnable-frame f g [] same = refl
first_runnable-frame f g (x ∷ xs) same =
    rw (same x (ground arith), first_runnable-frame f g xs (λ a i. same a (ground arith))) refl

pub first_runnable-append :
    (tasks : Ptr → Task) (xs ys : List Ptr) (p : Ptr)
    → first_runnable tasks xs ≡ some p
    → first_runnable tasks (xs ++ ys) ≡ some p
unfolding first_runnable
first_runnable-append tasks [] ys p e = cc
first_runnable-append tasks (x ∷ xs) ys p e = ground (arith, first_runnable-append tasks xs ys p)

pub first_runnable-none :
    (tasks : Ptr → Task) (xs : List Ptr) (y : Ptr)
    → first_runnable tasks xs ≡ none
    → first_runnable tasks (xs ++ (y ∷ [])) ≡ (if can_run (tasks y).status then some y else none)
unfolding first_runnable
first_runnable-none tasks [] y e = refl
first_runnable-none tasks (x ∷ xs) y e = ground (arith, first_runnable-none tasks xs y)

-- A task that is found splits the list.
pub first_runnable-split :
    (tasks : Ptr → Task) (xs : List Ptr) (p : Ptr)
    → first_runnable tasks xs ≡ some p
    → (front : List Ptr) × (behind : List Ptr) × (xs ≡ front ++ (p ∷ behind))
unfolding first_runnable
first_runnable-split tasks [] p e = cc
first_runnable-split tasks (x ∷ xs) p e = elim (Bool-cases (can_run (tasks x).status)) [
  | inl runs ↦ ([], xs, ap (λ (y : Ptr). y ∷ xs) (ground arith))
  | inr waits ↦
      let rest = first_runnable-split tasks xs p (rw waits at e) in
      (x ∷ rest.0, rest.1, ap (λ (ys : List Ptr). x ∷ ys) rest.2)
]
