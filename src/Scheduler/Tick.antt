-- ===== src/Scheduler/Tick.antt =====
-- `scheduler_tick`: preemption, and the state in which it never ends.
pub mod Steps
use mathlib.Core.Path.{subst}
use kernel_study.Base.{
  ℕ, ◌<◌, ◌≡◌, ◌≢◌, refl, true, false, inl, inr, List, [], ◌∷◌, ◌++◌, none, some, arith, ◌==◌,
  ==_self, if◌then◌else◌, length, update, ◌∙◌, Bool-cases,
}
use kernel_study.Scheduler.{
  Ptr, ready, running, scheduler_idle, CpuTaskState, Sched, returned, switched, can_run, is_idle,
  set_status, wake_idle_task, next_task, save_context, saved_context, switch_to, load_context,
  scheduler_tick, idle_pid,
}
use kernel_study.Scheduler.Ring.{
  links, Seg, Seg-frame, Seg-append, Seg-split, has, has-append, Distinct, Distinct-rotate,
  links-set_status,
}
use kernel_study.Scheduler.Next.{
  IsRing, IsRing-frame, first_runnable, first_runnable-frame, first_runnable-append,
  first_runnable-none, first_runnable-split, next_task-first_runnable,
}
use kernel_study.Scheduler.Tick.Steps.{
  woken, links-woken, current-woken, woken-IsRing, same-woken, preempted, links-preempted,
  current-preempted, status-preempted, same-preempted, saved-preempted, has-middle,
}

-- The state in which `scheduler_tick` leaves the scheduler when it switches from the current task of
-- `s` to `p`: the run queue is the same ring seen from `p`, the old task is ready and has its
-- registers saved, and the CPU is set up for `p`.
pub record Ticked (at : Ptr) (state : CpuTaskState) (s : Sched) (front behind : List Ptr) (p : Ptr)
    (s' : Sched) : Type 0 where
  pub current : s'.current_task ≡ p
  pub ring : IsRing s' (behind ++ (s.current_task ∷ front))
  pub old_status :
      (s'.tasks s.current_task).status
      ≡ (if is_idle ((woken s).tasks s.current_task).status then scheduler_idle else ready)
  pub old_context : (s'.tasks s.current_task).context ≡ saved_context at state
  pub new_status : (s.tasks p).pid ≢ idle_pid → (s'.tasks p).status ≡ running
  pub quantum : s'.quantum_tick ≡ 0
  pub page_directory : s'.loaded_cr3 ≡ (s.tasks p).cr3

module _ (at : Ptr) (state : CpuTaskState) (s : Sched) (rest : List Ptr) (v : IsRing s rest) where
  abbrev switched_to : Ptr → Sched
  switched_to p = switch_to p (preempted (at, state) (woken s))

  pre_ring : IsRing (preempted (at, state) (woken s)) rest
  pre_ring =
      IsRing-frame (woken s) (preempted (at, state) (woken s)) rest
        (current-preempted at state (woken s)) (links-preempted at state (woken s))
        (woken-IsRing s rest v)

  module _ (p : Ptr) (fuel : ℕ) (h : length rest < fuel)
      (e : first_runnable (woken s).tasks rest ≡ some p) where
    found : next_task fuel (woken s) ≡ some p
    found =
        next_task-first_runnable (woken s) rest (woken-IsRing s rest v) fuel h
        ∙ first_runnable-append (woken s).tasks rest ((woken s).current_task ∷ []) p e

    not_current : s.current_task ≢ p
    not_current =
        let split = first_runnable-split (woken s).tasks rest p e in
        let inside : has p rest ≡ true = rw split.2 (has-middle split.0 split.1 p) in
        ground (arith, v.distinct.0)

    still_first : first_runnable (preempted (at, state) (woken s)).tasks rest ≡ some p
    still_first =
        first_runnable-frame (woken s).tasks (preempted (at, state) (woken s)).tasks rest (λ a i.
          status-preempted at state (woken s) a (ground (arith, v.distinct.0, current-woken s)))
        ∙ e

    found_again : next_task fuel (preempted (at, state) (woken s)) ≡ some p
    found_again =
        next_task-first_runnable (preempted (at, state) (woken s)) rest pre_ring fuel h
        ∙ first_runnable-append (preempted (at, state) (woken s)).tasks rest
            ((preempted (at, state) (woken s)).current_task ∷ []) p still_first

    scheduler_tick-switched : scheduler_tick fuel (at, state) s ≡ some (switched (switched_to p))
    unfolding scheduler_tick load_context
    scheduler_tick-switched =
        let other : (p == (woken s).current_task) ≡ false =
          ground (arith, not_current, current-woken s) in
        rw (found, found_again, other) refl

    links-switched_to : (a : Ptr) → links (switched_to p) a ≡ links s a
    unfolding switch_to
    links-switched_to a = ground (
      arith,
      links-set_status p running (preempted (at, state) (woken s)) a,
      links-preempted at state (woken s) a,
      links-woken s a,
    )

    current-switched_to : (switched_to p).current_task ≡ p
    unfolding switch_to set_status
    current-switched_to = ground arith

    ring-switched_to :
        (front behind : List Ptr)
        → rest ≡ front ++ (p ∷ behind)
        → IsRing (switched_to p) (behind ++ (s.current_task ∷ front))
    ring-switched_to front behind split =
        let whole =
          subst (λ (ys : List Ptr). Seg (links s) (links s s.current_task) ys s.current_task) split
            v.ring in
        let parts =
          Seg-split (links s) (links s s.current_task) front p behind s.current_task whole in
        let round : Seg (links s) (links s p) (behind ++ (s.current_task ∷ front)) p =
          Seg-append (links s) (links s p) behind s.current_task (s.current_task ∷ front) p parts.1
            (refl, parts.0) in
        let at_p : links (switched_to p) p ≡ links s p = links-switched_to p in
        rw current-switched_to (record {
          ring = rw at_p (
              Seg-frame (links s) (links (switched_to p)) (links s p)
                (behind ++ (s.current_task ∷ front)) p (λ a i. links-switched_to a) round);
          distinct =
              Distinct-rotate (s.current_task ∷ front) (p ∷ behind)
                (subst (λ (ys : List Ptr). Distinct (s.current_task ∷ ys)) split v.distinct);
        })

    old-switched_to :
        (((switched_to p).tasks s.current_task).status
          ≡ (if is_idle ((woken s).tasks s.current_task).status then scheduler_idle else ready))
        × (((switched_to p).tasks s.current_task).context ≡ saved_context at state)
    unfolding switch_to set_status update
    old-switched_to =
        let saved = saved-preempted at state (woken s) in
        ground (arith, not_current, current-woken s)

    new-switched_to :
        ((s.tasks p).pid ≢ idle_pid → ((switched_to p).tasks p).status ≡ running)
        × ((switched_to p).quantum_tick ≡ 0)
        × ((switched_to p).loaded_cr3 ≡ (s.tasks p).cr3)
    unfolding switch_to set_status update
    new-switched_to = ground (arith, same-preempted at state (woken s) p, same-woken s p)

-- On a run queue that is a ring, with more fuel than it has other tasks, `scheduler_tick`
-- switches to the first task behind the current one that may run, the idle task being woken first
-- if no task is counted, provided that there is one: the run queue is the same ring seen from
-- that task, which is marked running unless it has the pid of the idle task; the old task has its
-- registers saved and is ready, or still idle; the quantum starts anew and the page directory is
-- that of the new task.
pub scheduler_tick-Ticked :
    (at : Ptr) (state : CpuTaskState) (s : Sched) (rest : List Ptr) (p : Ptr) (fuel : ℕ)
    → IsRing s rest
    → length rest < fuel
    → first_runnable (woken s).tasks rest ≡ some p
    → (s' : Sched) × (front : List Ptr) × (behind : List Ptr) × (scheduler_tick fuel (at, state) s
        ≡ some (switched s'))
      × (rest ≡ front ++ (p ∷ behind))
      × Ticked at state s front behind p s'
scheduler_tick-Ticked at state s rest p fuel v h e =
    let split = first_runnable-split (woken s).tasks rest p e in
    let old = old-switched_to at state s rest v p fuel h e in
    let new = new-switched_to at state s rest v p fuel h e in
    (
      switched_to at state s rest v p,
      split.0,
      split.1,
      scheduler_tick-switched at state s rest v p fuel h e,
      split.2,
      record {
        current = current-switched_to at state s rest v p fuel h e;
        ring = ring-switched_to at state s rest v p fuel h e split.0 split.1 split.2;
        old_status = old.0;
        old_context = old.1;
        new_status = new.0;
        quantum = new.1;
        page_directory = new.2;
      },
    )

-- On a run queue that is a ring, with more fuel than it has other tasks, of which none may run,
-- `scheduler_tick` goes on with the current task if that one may run itself; but a task that is
-- running does not count as one that may run, and then the search for a task never ends, whatever
-- the fuel.
pub scheduler_tick_alone :
    (state : Ptr × CpuTaskState) (s : Sched) (rest : List Ptr) (fuel : ℕ)
    → IsRing s rest
    → length rest < fuel
    → first_runnable (woken s).tasks rest ≡ none
    → scheduler_tick fuel state s ≡ (
        if can_run ((woken s).tasks s.current_task).status then some (returned (woken s)) else none)
unfolding scheduler_tick
scheduler_tick_alone state s rest fuel v h e =
    let w = woken s in
    let search : next_task fuel w
        ≡ (if can_run (w.tasks w.current_task).status then some w.current_task else none) =
      next_task-first_runnable w rest (woken-IsRing s rest v) fuel h
      ∙ first_runnable-none w.tasks rest w.current_task e in
    subst
      (λ (c : Ptr).
        scheduler_tick fuel state s
        ≡ (if can_run (w.tasks c).status then some (returned w) else none))
      (current-woken s)
      (rw search (elim (Bool-cases (can_run (w.tasks w.current_task).status)) [
        | inl runs ↦ rw (runs, ==_self w.current_task) refl
        | inr waits ↦ rw waits refl
      ]))
