-- ===== src/Scheduler/TaskExit.antt =====
-- `task_exit`: the current task leaves the run queue for the queue of dead tasks, and the next task
-- that may run takes over.
pub mod Steps
use mathlib.Core.Path.{subst}
use kernel_study.Base.{
  ℕ, ◌+◌, ◌<◌, ◌≤◌, ◌≡◌, ◌≢◌, refl, true, false, inl, inr, List, [], ◌∷◌, ◌++◌, none, some, arith,
  ◌==◌, if◌then◌else◌, length, last_of, update, ap, ◌∙◌, sub64, Bool-cases,
}
use kernel_study.Scheduler.{
  Ptr, null, TaskStatus, ready, running, Sched, switched, set_status, set_next, wake_idle_task,
  wake_reaper_task, next_task, next_from, save_context, switch_to, load_context,
}
use kernel_study.Scheduler.Calls.{unlink_current, task_exit}
use kernel_study.Scheduler.Ring.{
  links, Seg, Seg-frame, Seg-append, Seg-split, Seg-next, Seg-redirect, has, has-last_of, Distinct,
  Distinct-rotate, find_before-last, links-set_next, links-set_status,
}
use kernel_study.Scheduler.Next.{
  IsRing, IsRing-frame, first_runnable, first_runnable-frame, first_runnable-split, next_from-found,
  next_from_spins,
}
use kernel_study.Scheduler.Queue.{
  IsDeadQueue, IsDeadQueue-frame, pushed, links-pushed, pushed-IsDeadQueue, push_dead_queue-pushed,
}
use kernel_study.Scheduler.TaskExit.Steps.{
  links-switch_to, counted, links-counted, current-counted, kept-counted, kept-switch_to,
  kept-pushed, kept-wake_reaper_task, current-set_next, kept-set_next, links-wake_reaper_task,
  status-set_next, unlinked, unlink_current-unlinked, unlinked_ring, links-unlinked_current,
  next_task-unlinked, counted_ring, rotated,
}

-- The scheduler after the exit of the current task, when `p` takes over.
abbrev left_to : Ptr → Ptr → List Ptr → List Ptr → Sched → Sched
left_to p x xs ds s = pushed (counted s).current_task ds (switch_to p (unlinked (counted s) x xs))

module _ (s : Sched) (x : Ptr) (xs ds : List Ptr) (p : Ptr) (v : IsRing s (x ∷ xs))
    (q : IsDeadQueue s ds)
    (apart : (a : Ptr) → has a ds ≡ true → has a (s.current_task ∷ x ∷ xs) ≡ false)
    (ne : s.current_task ≢ null) where
  abbrev cv : IsRing (counted s) (x ∷ xs)
  cv = counted_ring s (x ∷ xs) v

  abbrev before_push : Sched
  before_push = switch_to p (unlinked (counted s) x xs)

  links-before_push : (a : Ptr) → links before_push a ≡ links (unlinked (counted s) x xs) a
  links-before_push a = links-switch_to p (unlinked (counted s) x xs) a

  dead_before_push : before_push.dead_queue ≡ s.dead_queue
  unfolding set_next
  dead_before_push = (kept-switch_to p (unlinked (counted s) x xs)).0 ∙ (kept-counted s).0

  queue_before_push : IsDeadQueue before_push ds
  queue_before_push =
      IsDeadQueue-frame s before_push ds dead_before_push
        (λ a i. ground (
          arith,
          links-before_push a,
          links-set_next (last_of x xs) (links (counted s) (counted s).current_task) (counted s) a,
          links-counted s a,
          has-last_of x xs,
          apart a i,
        ))
        q

  outside : has (counted s).current_task ds ≡ false
  outside = rw (current-counted s) (elim (Bool-cases (has s.current_task ds)) [
    | inl i ↦ ground (arith, apart s.current_task i)
    | inr o ↦ o
  ])

  not_null : (counted s).current_task ≢ null
  not_null = rw (current-counted s) ne

  abbrev after_exit : Sched
  after_exit = wake_reaper_task (left_to p x xs ds s)

  -- The tasks that stay in the run queue keep their links when the dead one is queued.
  links-after_exit :
      (a : Ptr) → has a (x ∷ xs) ≡ true → links after_exit a ≡ links (unlinked (counted s) x xs) a
  links-after_exit a i =
      let same : has a ((counted s).current_task ∷ ds) ≡ false = elim (Bool-cases (has a ds)) [
        | inl queued ↦ ground (arith, apart a queued)
        | inr out ↦ ground (arith, v.distinct.0, current-counted s)
      ] in
      links-wake_reaper_task (left_to p x xs ds s) a
      ∙ links-pushed (counted s).current_task before_push ds a same
      ∙ links-before_push a

  current_after_exit : after_exit.current_task ≡ p
  current_after_exit =
      (kept-wake_reaper_task (left_to p x xs ds s)).2
      ∙ (kept-pushed (counted s).current_task ds before_push).2
      ∙ (kept-switch_to p (unlinked (counted s) x xs)).3

  module _ (front behind : List Ptr) (split : x ∷ xs ≡ front ++ (p ∷ behind)) where
    ring_after_exit : IsRing after_exit (behind ++ front)
    ring_after_exit =
        let keeps : Seg (links after_exit) x (x ∷ xs) x =
          Seg-frame (links (unlinked (counted s) x xs)) (links after_exit) x (x ∷ xs) x
            links-after_exit (unlinked_ring (counted s) x xs cv) in
        rw current_after_exit (record {
          ring = rotated (links after_exit) x xs front behind p keeps split;
          distinct = Distinct-rotate front (p ∷ behind) (subst Distinct split v.distinct.1);
        })

  queue_after_exit : IsDeadQueue after_exit (ds ++ (s.current_task ∷ []))
  queue_after_exit =
      IsDeadQueue-frame (left_to p x xs ds s) after_exit (ds ++ (s.current_task ∷ []))
        (kept-wake_reaper_task (left_to p x xs ds s)).0
        (λ a i. links-wake_reaper_task (left_to p x xs ds s) a)
        (subst (λ (c : Ptr). IsDeadQueue (left_to p x xs ds s) (ds ++ (c ∷ []))) (current-counted s)
          (pushed-IsDeadQueue (counted s).current_task before_push ds queue_before_push outside
            not_null))

  load_context-before_push :
      (fuel : ℕ)
      → length (x ∷ xs) ≤ fuel
      → first_runnable (counted s).tasks (x ∷ xs) ≡ some p
      → load_context fuel none (unlinked (counted s) x xs) ≡ some before_push
  unfolding load_context save_context next_task
  load_context-before_push fuel h e =
      let u = unlinked (counted s) x xs in
      let next : links u u.current_task ≡ x =
        ap (links u)
          (current-set_next (last_of x xs) (links (counted s) (counted s).current_task) (counted s))
        ∙ links-unlinked_current (counted s) x xs cv in
      rw (next, next_task-unlinked (counted s) x xs cv fuel p h e) refl

  -- The run of `task_exit` when `p` is the task that `next_task` finds.
  task_exit-after_exit :
      (fuel : ℕ)
      → length (x ∷ xs) + length ds < fuel
      → first_runnable (counted s).tasks (x ∷ xs) ≡ some p
      → task_exit fuel s ≡ some (switched after_exit)
  unfolding task_exit
  task_exit-after_exit fuel h e =
      rw
        (
          unlink_current-unlinked (counted s) x xs cv fuel (omega arith),
          load_context-before_push fuel (omega arith) e,
          push_dead_queue-pushed (counted s).current_task before_push fuel ds queue_before_push
              outside (omega arith),
        )
        refl

-- The state in which `task_exit` leaves the scheduler when `p` takes over: the run queue is what was
-- behind `p` and then what was before it, the exiting task comes last in the queue of dead tasks,
-- the count of tasks is one less, and the reaper may run.
pub record Exited (s : Sched) (front behind ds : List Ptr) (p : Ptr) (s' : Sched) : Type 0 where
  pub current : s'.current_task ≡ p
  pub ring : IsRing s' (behind ++ front)
  pub dead : IsDeadQueue s' (ds ++ (s.current_task ∷ []))
  pub total : s'.task_total ≡ sub64 s.task_total 1
  pub reaper : (s'.tasks s.reaper_task).status ≡ ready

reaper_after_exit :
    (s : Sched) (x : Ptr) (xs ds : List Ptr) (p : Ptr)
    → let s' = wake_reaper_task (left_to p x xs ds s) in
      (s'.task_total ≡ sub64 s.task_total 1) × ((s'.tasks s.reaper_task).status ≡ ready)
reaper_after_exit s x xs ds p =
    let u = unlinked (counted s) x xs in
    let a = kept-wake_reaper_task (left_to p x xs ds s) in
    let b = kept-pushed (counted s).current_task ds (switch_to p u) in
    let c = kept-switch_to p u in
    let d = kept-counted s in
    let e = kept-set_next (last_of x xs) (links (counted s) (counted s).current_task) (counted s) in
    let reaper : (left_to p x xs ds s).reaper_task ≡ s.reaper_task = b.1 ∙ c.2 ∙ e.1 ∙ d.2 in
    (
      a.1 ∙ b.0 ∙ c.1 ∙ e.0 ∙ d.1,
      subst (λ (r : Ptr). ((wake_reaper_task (left_to p x xs ds s)).tasks r).status ≡ ready) reaper
          a.3,
    )

-- On a run queue that is a ring, apart from a queue of dead tasks, with more fuel than both have
-- tasks, `task_exit` ends in a switch to the first task behind the current one that may run, the
-- idle task being woken first if no other task is counted, provided that there is one: the run
-- queue is then the ring of the tasks that were left in it, seen from that task, the exiting task
-- comes last in the queue of dead tasks, the count is one less, and the reaper is ready.
pub task_exit-Exited :
    (s : Sched) (x : Ptr) (xs ds : List Ptr) (p : Ptr) (fuel : ℕ)
    → IsRing s (x ∷ xs)
    → IsDeadQueue s ds
    → ((a : Ptr) → has a ds ≡ true → has a (s.current_task ∷ x ∷ xs) ≡ false)
    → s.current_task ≢ null
    → length (x ∷ xs) + length ds < fuel
    → first_runnable (counted s).tasks (x ∷ xs) ≡ some p
    → (s' : Sched) × (front : List Ptr) × (behind : List Ptr) × (task_exit fuel s
        ≡ some (switched s'))
      × (x ∷ xs ≡ front ++ (p ∷ behind))
      × Exited s front behind ds p s'
task_exit-Exited s x xs ds p fuel v q apart ne h e =
    let parts = first_runnable-split (counted s).tasks (x ∷ xs) p e in
    let reaper = reaper_after_exit s x xs ds p in
    (
      wake_reaper_task (left_to p x xs ds s),
      parts.0,
      parts.1,
      task_exit-after_exit s x xs ds p v q apart ne fuel h e,
      parts.2,
      record {
        current = current_after_exit s x xs ds p v q apart ne;
        ring = ring_after_exit s x xs ds p v q apart ne parts.0 parts.1 parts.2;
        dead = queue_after_exit s x xs ds p v q apart ne;
        total = reaper.0;
        reaper = reaper.1;
      },
    )

-- `task_exit` looks for the next task before it wakes the reaper, and wakes the idle task only
-- for the last task: on a run queue that is a ring in which no other task may run, it never ends,
-- whatever the fuel above the number of those tasks.
pub task_exit_hangs :
    (s : Sched) (x : Ptr) (xs : List Ptr) (fuel : ℕ)
    → IsRing s (x ∷ xs)
    → length (x ∷ xs) < fuel
    → first_runnable (counted s).tasks (x ∷ xs) ≡ none
    → task_exit fuel s ≡ none
unfolding task_exit load_context save_context next_task
task_exit_hangs s x xs fuel v h e =
    let c = counted s in
    let cv = counted_ring s (x ∷ xs) v in
    let u = unlinked c x xs in
    let ring = unlinked_ring c x xs cv in
    let still : first_runnable u.tasks (x ∷ xs) ≡ none =
      first_runnable-frame c.tasks u.tasks (x ∷ xs)
        (λ a i. status-set_next (last_of x xs) (links c c.current_task) c a)
      ∙ e in
    let next : links u u.current_task ≡ x =
      ap (links u) (current-set_next (last_of x xs) (links c c.current_task) c)
      ∙ links-unlinked_current c x xs cv in
    let spins : next_from u.tasks fuel x ≡ none =
      next_from_spins u.tasks (x ∷ xs) fuel x still
        (λ a i. ground (arith, Seg-next (links u) x (x ∷ xs) x a ring i)) (ground arith) in
    rw (unlink_current-unlinked c x xs cv fuel h, next, spins) refl
