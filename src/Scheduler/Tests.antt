-- ===== src/Scheduler/Tests.antt =====
-- Runs of the scheduler on a run queue of four tasks.
use kernel_study.Base.{
  ℕ, ◌≡◌, refl, true, false, List, [], ◌∷◌, ◌++◌, none, some, arith, ◌==◌, if◌then◌else◌,
}
use kernel_study.Scheduler.{
  Ptr, null, TaskStatus, ready, running, sleep, ring3_task, CpuTaskState, Task, Sched, switched,
  next_task, scheduler_tick,
}
use kernel_study.Scheduler.Calls.{NewTask, Image, push_dead_queue, task_exit, enqueue_task}
use kernel_study.Scheduler.Ring.{has, links}
use kernel_study.Scheduler.Next.{IsRing, first_runnable, next_task-first_runnable}
use kernel_study.Scheduler.Enqueue.{Enqueued, enqueue_task-Enqueued}
use kernel_study.Scheduler.Queue.{IsDeadQueue, push_dead_queue-snoc}
use kernel_study.Scheduler.TaskExit.{Exited, task_exit-Exited, task_exit_hangs}
use kernel_study.Scheduler.Tick.{Ticked, scheduler_tick-Ticked, scheduler_tick_alone}

abbrev some_context : CpuTaskState
some_context = record {
  ds = 0x1B;
  edi = 0;
  esi = 0;
  ebp = 0;
  esp = 0x2F00;
  ebx = 0;
  edx = 0;
  ecx = 0;
  eax = 7;
  eip = 0x1010;
  cs = 0x23;
  eflags = 0x202;
  useresp = 0x2F00;
  userss = 0x1B;
}

abbrev task_of : ℕ → TaskStatus → Ptr → Task
task_of pid status next = record {
  pid = pid;
  context = some_context;
  cr3 = 0x5000;
  fds = λ i. 0x9000;
  total_fds = 3;
  ring0_stack_base = 0xC0401000;
  ring0_stack_size = 4096;
  ring3_stack_base = 0x2000;
  ring3_stack_size = 4096;
  entry = 0x1000;
  status = status;
  kind = ring3_task;
  next = next;
}

-- The tasks at 16 and 32, the idle task at 48, the reaper at 64, and two dead tasks at 80 and 96.
abbrev tasks_with : TaskStatus → Ptr → Task
tasks_with second p =
    if p == 16
    then task_of 2 running 32
    else (if p == 32
        then task_of 3 second 48
        else (if p == 48
            then task_of 0 sleep 64
            else (if p == 64
                then task_of 1 sleep 16
                else (if p == 80 then task_of 4 ready 96 else task_of 5 ready null))))

abbrev sched_with : TaskStatus → Sched
sched_with second = record {
  tasks = tasks_with second;
  current_task = 16;
  idle_task = 48;
  reaper_task = 64;
  dead_queue = 80;
  awaiting_stdin = null;
  task_total = 2;
  next_pid = 6;
  quantum_tick = 4;
  tss_esp0 = 0;
  loaded_cr3 = 0;
}

abbrev others : List Ptr
others = 32 ∷ 48 ∷ 64 ∷ []

sched_with-IsRing : (second : TaskStatus) → IsRing (sched_with second) others
sched_with-IsRing second = record {
  ring = (refl, (refl, (refl, refl)));
  distinct = (refl, (refl, (refl, (refl, tt))));
}

abbrev dead : List Ptr
dead = 80 ∷ 96 ∷ []

sched_with-IsDeadQueue : (second : TaskStatus) → IsDeadQueue (sched_with second) dead
sched_with-IsDeadQueue second = record {
  chain = (refl, (refl, refl));
  distinct = (refl, (refl, tt));
  no_null = refl;
}

next_task-first_runnable_example : next_task 4 (sched_with ready) ≡ some 32
unfolding first_runnable
next_task-first_runnable_example =
    next_task-first_runnable (sched_with ready) others (sched_with-IsRing ready) 4 (omega arith)

scheduler_tick-Ticked_example :
    (s' : Sched) × (front : List Ptr) × (behind : List Ptr) × (scheduler_tick 4
        (0xC0401F00, some_context)
        (sched_with ready)
      ≡ some (switched s'))
    × (others ≡ front ++ (32 ∷ behind))
    × Ticked 0xC0401F00 some_context (sched_with ready) front behind 32 s'
unfolding first_runnable
scheduler_tick-Ticked_example =
    scheduler_tick-Ticked 0xC0401F00 some_context (sched_with ready) others 32 4
      (sched_with-IsRing ready) (omega arith) refl

scheduler_tick_alone_example : scheduler_tick 4 (0xC0401F00, some_context) (sched_with sleep) ≡ none
unfolding first_runnable
scheduler_tick_alone_example =
    scheduler_tick_alone (0xC0401F00, some_context) (sched_with sleep) others 4
      (sched_with-IsRing sleep) (omega arith) refl

abbrev some_image : Image
some_image = record { kernel_page_directory = 0xC0150000; task_trampoline = 0xC0101000 }

abbrev some_task : NewTask
some_task = record {
  task = 112;
  stdin = 0x9000;
  stdout = 0x9100;
  stderr = 0x9200;
  kernel_stack = 0xC0404000;
  page_directory = 0x6000;
}

enqueue_task-Enqueued_example :
    (s' : Sched) × (enqueue_task 4 some_image null ring3_task some_task (sched_with ready)
      ≡ some s')
    × Enqueued some_image null ring3_task some_task (sched_with ready) others s'
enqueue_task-Enqueued_example =
    enqueue_task-Enqueued some_image null ring3_task some_task (sched_with ready) others 4
      (sched_with-IsRing ready) (record { outside = refl; not_idle = omega arith }) (omega arith)

push_dead_queue-snoc_example :
    (s' : Sched) × (push_dead_queue 3 16 (sched_with ready) ≡ some s')
    × IsDeadQueue s' (80 ∷ 96 ∷ 16 ∷ [])
    × ((a : Ptr) → has a (16 ∷ dead) ≡ false → links s' a ≡ links (sched_with ready) a)
push_dead_queue-snoc_example =
    push_dead_queue-snoc 16 (sched_with ready) 3 dead (sched_with-IsDeadQueue ready) refl
      (omega arith) (omega arith)

dead_outside : (a : Ptr) → has a dead ≡ true → has a (16 ∷ others) ≡ false
dead_outside a h = ground arith

task_exit-Exited_example :
    (s' : Sched) × (front : List Ptr) × (behind : List Ptr) × (task_exit 6 (sched_with ready)
      ≡ some (switched s'))
    × (others ≡ front ++ (32 ∷ behind))
    × Exited (sched_with ready) front behind dead 32 s'
unfolding first_runnable
task_exit-Exited_example =
    task_exit-Exited (sched_with ready) 32 (48 ∷ 64 ∷ []) dead 32 6 (sched_with-IsRing ready)
      (sched_with-IsDeadQueue ready) dead_outside (omega arith) (omega arith) refl

task_exit_hangs_example : task_exit 6 (sched_with sleep) ≡ none
unfolding first_runnable
task_exit_hangs_example =
    task_exit_hangs (sched_with sleep) 32 (48 ∷ 64 ∷ []) 6 (sched_with-IsRing sleep) (omega arith)
      refl
