-- ===== src/Scheduler/Enqueue.antt =====
-- `enqueue_task` puts a new task at the end of the run queue.
use kernel_study.Base.{
  ℕ, ◌+◌, ◌<◌, ◌≡◌, ◌≢◌, refl, false, List, [], ◌∷◌, ◌++◌, some, arith, ◌==◌, if◌then◌else◌, length,
  last_of, u64, update, ap,
}
use kernel_study.Scheduler.{
  Ptr, null, ready, sleep, TaskType, ring0_task, ring3_task, Sched, set_status, set_next,
  sleep_idle_task,
}
use kernel_study.Scheduler.Calls.{Image, NewTask, create_task, set_kind, link_task, enqueue_task}
use kernel_study.Scheduler.Ring.{
  links, Seg, Seg-frame, Seg-append, Seg-redirect, has, Distinct, Distinct-snoc, find_before-last,
  links-set_next, links-set_status,
}
use kernel_study.Scheduler.Next.{IsRing}

links-create_task :
    (image : Image) (entry : Ptr) (kind : TaskType) (new : NewTask) (s : Sched) (a : Ptr)
    → links (create_task image entry kind new s).1 a ≡ (if new.task == a then null else links s a)
unfolding create_task set_kind update
links-create_task image entry ring0_task new s a = ground arith
links-create_task image entry ring3_task new s a = ground arith

links-link_task :
    (last task : Ptr) (s : Sched) (a : Ptr)
    → links (link_task last task s) a
      ≡ (if task == a then s.current_task else if last == a then task else links s a)
unfolding link_task sleep_idle_task
links-link_task last task s a = ground (
  arith,
  links-set_next task s.current_task (set_next last task s) a,
  links-set_next last task s a,
  links-set_status (set_next task s.current_task (set_next last task s)).idle_task sleep
      (record (set_next task s.current_task (set_next last task s)) {
        task_total = u64 ((set_next task s.current_task (set_next last task s)).task_total + 1);
      })
      a,
)

-- The ring after a task was put between its last task and the current one.
ring_insert :
    (f g : Ptr → Ptr) (cur : Ptr) (rest : List Ptr) (task : Ptr)
    → Seg f (f cur) rest cur
    → Distinct (cur ∷ rest)
    → has task (cur ∷ rest) ≡ false
    → ((a : Ptr) → g a ≡ (if task == a then cur else if last_of cur rest == a then task else f a))
    → Seg g (g cur) (rest ++ (task ∷ [])) cur
ring_insert f g cur rest task ring distinct out same =
    let mid = λ (a : Ptr). if last_of cur rest == a then task else f a in
    let moved : Seg mid (mid cur) rest task =
      Seg-redirect f mid cur rest cur task (λ a. refl) ring distinct in
    let at_cur : g cur ≡ mid cur = ground (arith, same cur) in
    let framed : Seg g (mid cur) rest task =
      Seg-frame mid g (mid cur) rest task (λ a i. ground (arith, same a)) moved in
    rw at_cur
      (Seg-append g (mid cur) rest task (task ∷ []) cur framed (refl, ground (arith, same task)))

module _ (image : Image) (entry : Ptr) (kind : TaskType) (new : NewTask) (s : Sched)
    (rest : List Ptr) where
  -- The new task lies outside the run queue, and the idle task is in it.
  pub record IsFresh : Type 0 where
    pub outside : has new.task (s.current_task ∷ rest) ≡ false
    pub not_idle : new.task ≢ s.idle_task

  abbrev created : Sched
  created = (create_task image entry kind new s).1

  abbrev queued : Sched
  queued = link_task (last_of s.current_task rest) new.task created

  created_ring :
      IsRing s rest
      → IsFresh
      → Seg (links created) (links created s.current_task) rest s.current_task
  created_ring v fresh =
      let same = links-create_task image entry kind new s in
      let at_cur : links created s.current_task ≡ links s s.current_task =
        ground (arith, same s.current_task, fresh.outside) in
      rw at_cur (
        Seg-frame (links s) (links created) (links s s.current_task) rest s.current_task
          (λ a i. ground (arith, same a, fresh.outside)) v.ring)

  current_created : created.current_task ≡ s.current_task
  unfolding create_task
  current_created = refl

  task_created : (create_task image entry kind new s).0 ≡ new.task
  unfolding create_task
  task_created = refl

  current_queued : queued.current_task ≡ s.current_task
  unfolding create_task link_task sleep_idle_task set_status set_next
  current_queued = refl

  queued_ring : IsRing s rest → IsFresh → IsRing queued (rest ++ (new.task ∷ []))
  queued_ring v fresh = rw current_queued (record {
    ring =
        ring_insert (links created) (links queued) s.current_task rest new.task
          (created_ring v fresh) v.distinct fresh.outside
          (λ a. rw (links-link_task, current_created) refl);
    distinct = Distinct-snoc (s.current_task ∷ rest) new.task v.distinct fresh.outside;
  })

  -- What `enqueue_task` does to the scheduler: the new task is ready and comes last in the run
  -- queue, the current task is the same, the idle task is put to sleep, and no other task's status
  -- changes.
  pub record Enqueued (s' : Sched) : Type 0 where
    pub ring : IsRing s' (rest ++ (new.task ∷ []))
    pub current : s'.current_task ≡ s.current_task
    pub total : s'.task_total ≡ u64 (s.task_total + 1)
    pub is_ready : (s'.tasks new.task).status ≡ ready
    pub idle_sleeps : (s'.tasks s.idle_task).status ≡ sleep
    pub others :
        (a : Ptr) → a ≢ new.task → a ≢ s.idle_task → (s'.tasks a).status ≡ (s.tasks a).status

  queued-Enqueued : IsRing s rest → IsFresh → Enqueued queued
  unfolding create_task set_kind link_task sleep_idle_task set_status set_next update
  queued-Enqueued v fresh = record {
    ring = queued_ring v fresh;
    current = refl;
    total = refl;
    is_ready = ground (arith, fresh.not_idle);
    idle_sleeps = ground (arith, fresh.not_idle);
    others = λ a p q. ground arith;
  }

  -- On a run queue that is a ring, with a new task outside it that is not the idle task and more
  -- fuel than the ring has other tasks, `enqueue_task` ends: the new task is ready and comes last
  -- in the ring, the current task is the same, the count of tasks is one more, the idle task is
  -- put to sleep, and no other task changes its status.
  pub enqueue_task-Enqueued :
      (fuel : ℕ)
      → IsRing s rest
      → IsFresh
      → length rest < fuel
      → (s' : Sched) × (enqueue_task fuel image entry kind new s ≡ some s') × Enqueued s'
  unfolding enqueue_task
  enqueue_task-Enqueued fuel v fresh h = (
    queued,
    rw
        (
          current_created,
          find_before-last created.tasks s.current_task fuel s.current_task rest
              (created_ring v fresh) v.distinct.0 h,
        )
        (ap (λ (task : Ptr). some (link_task (last_of s.current_task rest) task created))
          task_created),
    queued-Enqueued v fresh,
  )
