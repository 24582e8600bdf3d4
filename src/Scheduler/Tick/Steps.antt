-- ===== src/Scheduler/Tick/Steps.antt =====
-- The steps of `scheduler_tick`: what it wakes, and the state that it searches again.
use kernel_study.Base.{◌≡◌, ◌≢◌, true, List, ◌∷◌, ◌++◌, some, arith, ◌==◌, if◌then◌else◌, update}
use kernel_study.Scheduler.{
  Ptr, ready, scheduler_idle, CpuTaskState, Sched, is_idle, set_status, wake_idle_task,
  save_context, saved_context,
}
use kernel_study.Scheduler.Ring.{links, has, has-append, links-set_status}
use kernel_study.Scheduler.Next.{IsRing, IsRing-frame}

-- What `scheduler_tick` does before it looks for a task.
abbrev pub woken : Sched → Sched
woken s = if s.task_total == 0 then wake_idle_task s else s

pub links-woken : (s : Sched) (a : Ptr) → links (woken s) a ≡ links s a
unfolding wake_idle_task
links-woken s a = ground (arith, links-set_status s.idle_task scheduler_idle s a)

pub current-woken : (s : Sched) → (woken s).current_task ≡ s.current_task
unfolding wake_idle_task set_status
current-woken s = ground arith

pub woken-IsRing : (s : Sched) (rest : List Ptr) → IsRing s rest → IsRing (woken s) rest
woken-IsRing s rest v = IsRing-frame s (woken s) rest (current-woken s) (links-woken s) v

pub same-woken :
    (s : Sched) (a : Ptr)
    → (((woken s).tasks a).pid ≡ (s.tasks a).pid) × (((woken s).tasks a).cr3 ≡ (s.tasks a).cr3)
unfolding wake_idle_task set_status update
same-woken s a = ground arith

-- The state that `load_context` searches: the current task is ready, unless it is the idle task in
-- its own status, and its registers are saved.
abbrev pub preempted : Ptr × CpuTaskState → Sched → Sched
preempted state w =
    save_context (some state)
      (if is_idle (w.tasks w.current_task).status then w else set_status w.current_task ready w)

module _ (at : Ptr) (state : CpuTaskState) (w : Sched) where
  pub links-preempted : (a : Ptr) → links (preempted (at, state) w) a ≡ links w a
  unfolding save_context set_status update
  links-preempted a = ground arith

  pub current-preempted : (preempted (at, state) w).current_task ≡ w.current_task
  unfolding save_context set_status
  current-preempted = ground arith

  pub status-preempted :
      (a : Ptr)
      → w.current_task ≢ a
      → ((preempted (at, state) w).tasks a).status ≡ (w.tasks a).status
  unfolding save_context set_status update
  status-preempted a ne = ground arith

  pub same-preempted :
      (a : Ptr)
      → (((preempted (at, state) w).tasks a).pid ≡ (w.tasks a).pid)
        × (((preempted (at, state) w).tasks a).cr3 ≡ (w.tasks a).cr3)
  unfolding save_context set_status update
  same-preempted a = ground arith

  pub saved-preempted :
      (((preempted (at, state) w).tasks w.current_task).status
        ≡ (if is_idle (w.tasks w.current_task).status then scheduler_idle else ready))
      × (((preempted (at, state) w).tasks w.current_task).context ≡ saved_context at state)
  unfolding save_context set_status update
  saved-preempted = ground arith

pub has-middle : (front behind : List Ptr) (p : Ptr) → has p (front ++ (p ∷ behind)) ≡ true
has-middle front behind p = rw has-append (ground arith)
