-- ===== src/Scheduler/Queue.antt =====
-- The queue of dead tasks is first in, first out.
use kernel_study.Base.{
  ℕ, ◌<◌, ◌≡◌, ◌≢◌, refl, ◌⊎◌, inl, inr, true, false, List, [], ◌∷◌, ◌++◌, some, arith, ◌==◌,
  length, last_of, ◌∙◌,
}
use kernel_study.Scheduler.{Ptr, null, Sched, set_next}
use kernel_study.Scheduler.Calls.{push_dead_queue, pop_dead_queue}
use kernel_study.Scheduler.Ring.{
  links, Seg, Seg-frame, Seg-append, Seg-redirect, has, has-append, has-last_of, Distinct,
  Distinct-snoc, find_before-last, links-set_next,
}

-- The dead tasks, oldest first.
pub record IsDeadQueue (s : Sched) (ds : List Ptr) : Type 0 where
  pub chain : Seg (links s) s.dead_queue ds null
  pub distinct : Distinct ds
  pub no_null : has null ds ≡ false

-- A change of the links outside the queue leaves it as it is.
pub IsDeadQueue-frame :
    (s t : Sched) (ds : List Ptr)
    → t.dead_queue ≡ s.dead_queue
    → ((a : Ptr) → has a ds ≡ true → links t a ≡ links s a)
    → IsDeadQueue s ds
    → IsDeadQueue t ds
IsDeadQueue-frame s t ds e same v = record {
  chain = rw e (Seg-frame (links s) (links t) s.dead_queue ds null same v.chain);
  distinct = v.distinct;
  no_null = v.no_null;
}

-- The scheduler after a push behind the tasks `ds`.
abbrev pub pushed : Ptr → List Ptr → Sched → Sched
pushed task [] s = record (set_next task null s) { dead_queue = task }
pushed task (d ∷ ds) s = set_next (last_of d ds) task (set_next task null s)

module _ (task : Ptr) (s : Sched) where
  pub links-pushed :
      (ds : List Ptr) (a : Ptr) → has a (task ∷ ds) ≡ false → links (pushed task ds s) a ≡ links s a
  links-pushed [] a h = ground (arith, links-set_next task null s a)
  links-pushed (d ∷ ds) a h = ground (
    arith,
    links-set_next task null s a,
    links-set_next (last_of d ds) task (set_next task null s) a,
    has-last_of d ds,
  )

  dead_queue-set_next : (p q : Ptr) (s : Sched) → (set_next p q s).dead_queue ≡ s.dead_queue
  unfolding set_next
  dead_queue-set_next p q s = refl

  pub push_dead_queue-pushed :
      (fuel : ℕ) (ds : List Ptr)
      → IsDeadQueue s ds
      → has task ds ≡ false
      → length ds < fuel
      → push_dead_queue fuel task s ≡ some (pushed task ds s)
  unfolding push_dead_queue
  push_dead_queue-pushed fuel [] v out h =
      let e : (set_next task null s).dead_queue ≡ null =
        dead_queue-set_next task null s ∙ v.chain in
      rw e refl
  push_dead_queue-pushed fuel (d ∷ ds) v out h =
      let ended = set_next task null s in
      let e : ended.dead_queue ≡ d = dead_queue-set_next task null s ∙ v.chain.0 in
      let first : (d == null) ≡ false = ground (arith, v.no_null) in
      let same : links ended d ≡ links s d = ground (arith, links-set_next task null s d) in
      let chain : Seg (links ended) (links ended d) ds null = rw same (
        Seg-frame (links s) (links ended) (links s d) ds null
          (λ a i. ground (arith, links-set_next task null s a)) v.chain.1) in
      rw
        (
          e,
          first,
          find_before-last ended.tasks null fuel d ds chain (ground (arith, v.no_null))
              (omega arith),
        )
        refl

  -- What the queue holds after a push.
  pub pushed-IsDeadQueue :
      (ds : List Ptr)
      → IsDeadQueue s ds
      → has task ds ≡ false
      → task ≢ null
      → IsDeadQueue (pushed task ds s) (ds ++ (task ∷ []))
  pushed-IsDeadQueue [] v out ne = record {
    chain = (refl, ground (arith, links-set_next task null s task));
    distinct = (refl, tt);
    no_null = ground arith;
  }
  pushed-IsDeadQueue (d ∷ ds) v out ne =
      let ended = set_next task null s in
      let after = set_next (last_of d ds) task ended in
      let same : links ended d ≡ links s d = ground (arith, links-set_next task null s d) in
      let chain : Seg (links ended) (links ended d) ds null = rw same (
        Seg-frame (links s) (links ended) (links s d) ds null
          (λ a i. ground (arith, links-set_next task null s a)) v.chain.1) in
      let moved : Seg (links after) (links after d) ds task =
        Seg-redirect (links ended) (links after) d ds null task
          (links-set_next (last_of d ds) task ended) chain v.distinct in
      let ends : links after task ≡ null = ground (
        arith,
        links-set_next (last_of d ds) task ended task,
        links-set_next task null s task,
        has-last_of d ds,
      ) in
      let e : after.dead_queue ≡ d =
        dead_queue-set_next (last_of d ds) task ended
        ∙ dead_queue-set_next task null s
        ∙ v.chain.0 in
      record {
        chain = (
          e,
          Seg-append (links after) (links after d) ds task (task ∷ []) null moved (refl, ends),
        );
        distinct = Distinct-snoc (d ∷ ds) task v.distinct out;
        no_null = rw has-append (ground (arith, v.no_null));
      }

  -- `push_dead_queue` ends, with enough fuel for the tasks of the queue, and puts the task behind
  -- all others; the links of the tasks outside the queue stay as they are.
  pub push_dead_queue-snoc :
      (fuel : ℕ) (ds : List Ptr)
      → IsDeadQueue s ds
      → has task ds ≡ false
      → task ≢ null
      → length ds < fuel
      → (s' : Sched) × (push_dead_queue fuel task s ≡ some s')
        × IsDeadQueue s' (ds ++ (task ∷ []))
        × ((a : Ptr) → has a (task ∷ ds) ≡ false → links s' a ≡ links s a)
  push_dead_queue-snoc fuel ds v out ne h = (
    pushed task ds s,
    push_dead_queue-pushed fuel ds v out h,
    pushed-IsDeadQueue ds v out ne,
    links-pushed ds,
  )

-- `pop_dead_queue` takes the oldest dead task off a queue that holds one, and says `NULL` of an
-- empty one, which stays empty.
pub pop_dead_queue-cons :
    (s : Sched) (ds : List Ptr)
    → IsDeadQueue s ds
    → let (task, s') = pop_dead_queue s in
      ((ds ≡ []) × (task ≡ null) × (s' ≡ s))
      ⊎ ((ds' : List Ptr) × (ds ≡ task ∷ ds') × (task ≢ null) × IsDeadQueue s' ds')
unfolding pop_dead_queue
pop_dead_queue-cons s [] v = inl (refl, ground (arith, v.chain), ground (arith, v.chain))
pop_dead_queue-cons s (d ∷ ds) v =
    let first : (d == null) ≡ false = ground (arith, v.no_null) in
    let out : (s.dead_queue == null) ≡ false = rw v.chain.0 first in
    rw (out, v.chain.0)
      (inr (
        ds,
        refl,
        ground arith,
        record { chain = v.chain.1; distinct = v.distinct.1; no_null = ground (arith, v.no_null) },
      ))
