-- ===== src/Scheduler/TaskExit/Steps.antt =====
-- The steps of `task_exit`: what it counts and wakes, and how the current task leaves the run queue.
use mathlib.Core.Path.{subst}
use kernel_study.Base.{
  ℕ, ◌<◌, ◌≤◌, ◌≡◌, refl, List, [], ◌∷◌, ◌++◌, some, arith, ◌==◌, if◌then◌else◌, length, last_of,
  update, ◌∙◌, sub64,
}
use kernel_study.Scheduler.{
  Ptr, TaskStatus, ready, running, Sched, set_status, set_next, wake_idle_task, wake_reaper_task,
  next_from, switch_to,
}
use kernel_study.Scheduler.Calls.{unlink_current}
use kernel_study.Scheduler.Ring.{
  links, Seg, Seg-append, Seg-split, Seg-redirect, find_before-last, links-set_next,
  links-set_status,
}
use kernel_study.Scheduler.Next.{
  IsRing, IsRing-frame, first_runnable, first_runnable-frame, next_from-found,
}
use kernel_study.Scheduler.Queue.{pushed}

pub links-switch_to : (p : Ptr) (s : Sched) (a : Ptr) → links (switch_to p s) a ≡ links s a
unfolding switch_to
links-switch_to p s a = ground (arith, links-set_status p running s a)

-- The count of tasks and the idle task, at the start of `task_exit`.
abbrev pub counted : Sched → Sched
counted s =
    let left = record s { task_total = sub64 s.task_total 1 } in
    if left.task_total == 0 then wake_idle_task left else left

pub links-counted : (s : Sched) (a : Ptr) → links (counted s) a ≡ links s a
unfolding wake_idle_task
links-counted s a = ground (
  arith,
  links-set_status s.idle_task TaskStatus.scheduler_idle
      (record s { task_total = sub64 s.task_total 1 }) a,
)

pub current-counted : (s : Sched) → (counted s).current_task ≡ s.current_task
unfolding wake_idle_task set_status
current-counted s = ground arith

-- What the steps of `task_exit` leave alone.
pub kept-counted :
    (s : Sched)
    → ((counted s).dead_queue ≡ s.dead_queue)
      × ((counted s).task_total ≡ sub64 s.task_total 1)
      × ((counted s).reaper_task ≡ s.reaper_task)
unfolding wake_idle_task set_status
kept-counted s = ground arith

pub kept-switch_to :
    (p : Ptr) (s : Sched)
    → ((switch_to p s).dead_queue ≡ s.dead_queue)
      × ((switch_to p s).task_total ≡ s.task_total)
      × ((switch_to p s).reaper_task ≡ s.reaper_task)
      × ((switch_to p s).current_task ≡ p)
unfolding switch_to set_status
kept-switch_to p s = ground arith

pub kept-pushed :
    (task : Ptr) (ds : List Ptr) (s : Sched)
    → ((pushed task ds s).task_total ≡ s.task_total)
      × ((pushed task ds s).reaper_task ≡ s.reaper_task)
      × ((pushed task ds s).current_task ≡ s.current_task)
unfolding set_next
kept-pushed task [] s = (refl, refl, refl)
kept-pushed task (d ∷ ds) s = (refl, refl, refl)

pub kept-wake_reaper_task :
    (s : Sched)
    → ((wake_reaper_task s).dead_queue ≡ s.dead_queue)
      × ((wake_reaper_task s).task_total ≡ s.task_total)
      × ((wake_reaper_task s).current_task ≡ s.current_task)
      × (((wake_reaper_task s).tasks s.reaper_task).status ≡ ready)
unfolding wake_reaper_task set_status update
kept-wake_reaper_task s = (refl, refl, refl, ground arith)

pub current-set_next : (p q : Ptr) (s : Sched) → (set_next p q s).current_task ≡ s.current_task
unfolding set_next
current-set_next p q s = refl

pub kept-set_next :
    (p q : Ptr) (s : Sched)
    → ((set_next p q s).task_total ≡ s.task_total) × ((set_next p q s).reaper_task ≡ s.reaper_task)
unfolding set_next
kept-set_next p q s = (refl, refl)

pub links-wake_reaper_task : (s : Sched) (a : Ptr) → links (wake_reaper_task s) a ≡ links s a
unfolding wake_reaper_task
links-wake_reaper_task s a = links-set_status s.reaper_task ready s a

pub status-set_next :
    (p q : Ptr) (s : Sched) (a : Ptr) → ((set_next p q s).tasks a).status ≡ (s.tasks a).status
unfolding set_next update
status-set_next p q s a = ground arith

-- The run queue without its current task, if the tasks behind that are `x` and `xs`.
abbrev pub unlinked : Sched → Ptr → List Ptr → Sched
unlinked s x xs = set_next (last_of x xs) (links s s.current_task) s

module _ (s : Sched) (x : Ptr) (xs : List Ptr) (v : IsRing s (x ∷ xs)) where
  pub unlink_current-unlinked :
      (fuel : ℕ) → length (x ∷ xs) < fuel → unlink_current fuel s ≡ some (unlinked s x xs)
  unfolding unlink_current
  unlink_current-unlinked fuel h =
      rw
        (find_before-last s.tasks s.current_task fuel s.current_task (x ∷ xs) v.ring v.distinct.0 h)
        refl

  pub unlinked_ring : Seg (links (unlinked s x xs)) x (x ∷ xs) x
  unlinked_ring = (
    refl,
    Seg-redirect (links s) (links (unlinked s x xs)) x xs s.current_task x
        (λ a. ground (arith, links-set_next (last_of x xs) (links s s.current_task) s a, v.ring.0))
        v.ring.1 v.distinct.1,
  )

  pub links-unlinked_current : links (unlinked s x xs) s.current_task ≡ x
  links-unlinked_current =
      ground
        (arith, links-set_next (last_of x xs) (links s s.current_task) s s.current_task, v.ring.0)

  pub next_task-unlinked :
      (fuel : ℕ) (p : Ptr)
      → length (x ∷ xs) ≤ fuel
      → first_runnable s.tasks (x ∷ xs) ≡ some p
      → next_from (unlinked s x xs).tasks fuel x ≡ some p
  next_task-unlinked fuel p h e =
      next_from-found (unlinked s x xs).tasks fuel x (x ∷ xs) x p unlinked_ring h (
        first_runnable-frame s.tasks (unlinked s x xs).tasks (x ∷ xs)
          (λ a i. status-set_next (last_of x xs) (links s s.current_task) s a)
        ∙ e)

pub counted_ring : (s : Sched) (rest : List Ptr) → IsRing s rest → IsRing (counted s) rest
counted_ring s rest v = IsRing-frame s (counted s) rest (current-counted s) (links-counted s) v

-- The ring that is left, seen from the task `p` that takes over.
pub rotated :
    (next : Ptr → Ptr) (x : Ptr) (xs front behind : List Ptr) (p : Ptr)
    → Seg next x (x ∷ xs) x
    → x ∷ xs ≡ front ++ (p ∷ behind)
    → Seg next (next p) (behind ++ front) p
rotated next x xs front behind p s e =
    let parts =
      Seg-split next x front p behind x (subst (λ (ys : List Ptr). Seg next x ys x) e s) in
    Seg-append next (next p) behind x front p parts.1 parts.0
