-- ===== src/Scheduler/Calls.antt =====
-- The calls of kernel/scheduler/scheduler.c and kernel/timer.c that start, stop and wake tasks. The
-- loops over the run queue and the dead queue run on fuel, and `none` is a loop still running.
use mathlib.Core.Option
use kernel_study.Base.{
  ◌>>=◌, List, [], ◌∷◌, ◌++◌, ℕ, zero, suc, ◌+◌, Option, none, some, ◌==◌, leb, if◌then◌else◌, u8,
  u32, u64, sub32, sub64, update,
}
use kernel_study.Scheduler.{
  Ptr, null, scheduler_idle, ready, sleep, is_ring3, TaskType, ring0_task, ring3_task, CpuTaskState,
  Task, Sched, Exit, returned, switched, set_status, set_next, wake_idle_task, sleep_idle_task,
  wake_reaper_task, sleep_reaper_task, load_context, scheduler_tick, user_cs,
}

-- `await_stdin`: the trapping instruction is two bytes long and is run again on waking.
unfoldable pub await_stdin : ℕ → Ptr × CpuTaskState → Sched → Option Exit
await_stdin fuel (at, state) s =
    let asleep = set_status s.current_task sleep s in
    let idle = if s.task_total == 1 then wake_idle_task asleep else asleep in
    Option.map switched (
      load_context fuel (some (at, record state { eip = sub32 state.eip 2 }))
        (record idle { awaiting_stdin = idle.current_task }))

unfoldable pub wake_stdin_task : Sched → Sched
wake_stdin_task s =
    if s.awaiting_stdin == null
    then s
    else record (set_status s.awaiting_stdin ready s) { awaiting_stdin = null }

-- `while (p->next != target) p = p->next`, which finds the last task before `target`.
unfoldable pub find_before : (Ptr → Task) → Ptr → ℕ → Ptr → Option Ptr
find_before tasks target zero p = none
find_before tasks target (suc fuel) p =
    let rest = find_before tasks target fuel (tasks p).next in
    if (tasks p).next == target then some p else rest

unfoldable pub push_dead_queue : ℕ → Ptr → Sched → Option Sched
push_dead_queue fuel task s =
    let ended = set_next task null s in
    let behind =
      Option.map (λ last. set_next last task ended)
        (find_before ended.tasks null fuel ended.dead_queue) in
    if ended.dead_queue == null then some (record ended { dead_queue = task }) else behind

-- The popped task, `NULL` if there is none.
unfoldable pub pop_dead_queue : Sched → Ptr × Sched
pop_dead_queue s =
    if s.dead_queue == null
    then (null, s)
    else (s.dead_queue, record s { dead_queue = (s.tasks s.dead_queue).next })

-- The current task leaves the run queue.
unfoldable pub unlink_current : ℕ → Sched → Option Sched
unlink_current fuel s =
    Option.map (λ last. set_next last (s.tasks s.current_task).next s)
      (find_before s.tasks s.current_task fuel s.current_task)

unfoldable pub task_exit : ℕ → Sched → Option Exit
task_exit fuel s =
    let left = record s { task_total = sub64 s.task_total 1 } in
    let counted = if left.task_total == 0 then wake_idle_task left else left in
    let dead_task = counted.current_task in
    do
      unlinked ← unlink_current fuel counted
      loaded ← load_context fuel none unlinked
      queued ← push_dead_queue fuel dead_task loaded
      some (switched (wake_reaper_task queued))

-- What the calls of `create_task` return: the memory for the task and for its kernel stack, the
-- three open files, and the page directory of a user task.
pub record NewTask : Type 0 where
  pub task : Ptr
  pub stdin : Ptr
  pub stdout : Ptr
  pub stderr : Ptr
  pub kernel_stack : Ptr
  pub page_directory : ℕ

-- Addresses of the program image.
pub record Image : Type 0 where
  pub kernel_page_directory : ℕ
  pub task_trampoline : Ptr

abbrev pub kernel_base : ℕ
kernel_base = 0xC0000000

-- The registers of a new task. `mem` is what the memory held before, in the two fields that
-- `create_task` does not write.
unfoldable pub first_context : Image → TaskType → Ptr → CpuTaskState → CpuTaskState
first_context image ring0_task stack mem = record {
  ds = 0x10;
  edi = 0;
  esi = 0;
  ebp = 0;
  esp = u32 (stack + 4096);
  ebx = 0;
  edx = 0;
  ecx = 0;
  eax = 0;
  eip = image.task_trampoline;
  cs = 0x08;
  eflags = 0x202;
  useresp = mem.useresp;
  userss = mem.userss;
}
first_context image ring3_task stack mem = record {
  ds = 0x1B;
  edi = 0;
  esi = 0;
  ebp = 0;
  esp = 0x00002000 + 4096;
  ebx = 0;
  edx = 0;
  ecx = 0;
  eax = 0;
  eip = 0x00001000;
  cs = user_cs;
  eflags = 0x202;
  useresp = mem.useresp;
  userss = mem.userss;
}

-- The `switch` of `create_task` over the fields that depend on the kind of task; `t` has the others.
unfoldable pub set_kind : Image → Ptr → NewTask → TaskType → Task → Task
set_kind image entry new ring0_task t = record t {
  cr3 = sub32 image.kernel_page_directory kernel_base;
  entry = entry;
}
set_kind image entry new ring3_task t = record t {
  cr3 = new.page_directory;
  ring3_stack_base = 0x00002000;
  ring3_stack_size = 4096;
}

unfoldable pub create_task : Image → Ptr → TaskType → NewTask → Sched → Ptr × Sched
create_task image entry kind new s =
    let old = s.tasks new.task in
    let t = set_kind image entry new kind (record old {
      pid = s.next_pid;
      context = first_context image kind new.kernel_stack old.context;
      fds = update (update (update old.fds 0 new.stdin) 1 new.stdout) 2 new.stderr;
      total_fds = 3;
      ring0_stack_base = new.kernel_stack;
      ring0_stack_size = 4096;
      status = ready;
      kind = kind;
      next = null;
    }) in
    (new.task, record s { tasks = update s.tasks new.task t; next_pid = u64 (s.next_pid + 1) })

-- The end of `enqueue_task`: `task` goes between `last` and the current task.
unfoldable pub link_task : (last task : Ptr) → Sched → Sched
link_task last task s =
    let linked = set_next task s.current_task (set_next last task s) in
    sleep_idle_task (record linked { task_total = u64 (linked.task_total + 1) })

unfoldable pub enqueue_task : ℕ → Image → Ptr → TaskType → NewTask → Sched → Option Sched
enqueue_task fuel image entry kind new s =
    let (task, s1) = create_task image entry kind new s in
    Option.map (λ last. link_task last task s1)
      (find_before s1.tasks s1.current_task fuel s1.current_task)

-- `init_scheduler`, over the idle task and the reaper task that it creates.
unfoldable pub init_scheduler :
    Image → (idle_loop reaper_loop : Ptr) → NewTask → NewTask → Sched → Sched
init_scheduler image idle_loop reaper_loop new_idle new_reaper s =
    let (idle, s1) = create_task image idle_loop ring0_task new_idle s in
    let s2 = set_status idle scheduler_idle (record s1 { idle_task = idle }) in
    let (reaper, s3) = create_task image reaper_loop ring0_task new_reaper s2 in
    let s4 = set_status reaper sleep (record s3 { reaper_task = reaper }) in
    record (set_next reaper idle (set_next idle reaper s4)) { current_task = idle }

-- `timer_interrupt_handler`, less `ticks`, which only `uptime_seconds` reads.
unfoldable pub timer_interrupt_handler : ℕ → Ptr × CpuTaskState → Sched → Option Exit
timer_interrupt_handler fuel state s =
    let counted = record s { quantum_tick = u8 (s.quantum_tick + 1) } in
    let ticked = scheduler_tick fuel state (record counted { quantum_tick = 0 }) in
    if leb 5 counted.quantum_tick then ticked else some (returned counted)

-- What the reaper gives back for one dead task: the page directory of a user task, and the blocks
-- of the files, of the kernel stack and of the task.
pub data Freed : Type 0 where
  page_directory : ℕ → Freed
  block : Ptr → Freed

unfoldable pub free_fds : (ℕ → Ptr) → (i rounds : ℕ) → List Freed
free_fds fds i zero = []
free_fds fds i (suc rounds) = block (fds i) ∷ free_fds fds (i + 1) rounds

unfoldable pub free_task : Ptr → Task → List Freed
free_task p t =
    (if is_ring3 t.kind then page_directory t.cr3 ∷ [] else [])
    ++ (free_fds t.fds 0 t.total_fds ++ (block t.ring0_stack_base ∷ block p ∷ []))

-- The inner loop of `reaper_task_loop`, with what it has given back so far.
unfoldable pub reap : ℕ → List Freed → Sched → Option (List Freed × Sched)
reap zero freed s = none
reap (suc fuel) freed s =
    let (dead_task, s') = pop_dead_queue s in
    let rest = reap fuel (freed ++ free_task dead_task (s.tasks dead_task)) s' in
    if s.dead_queue == null then some (freed, s) else rest

-- One round of `reaper_task_loop`.
unfoldable pub reaper_round : ℕ → Sched → Option (List Freed × Exit)
reaper_round fuel s = reap fuel [] s >>= λ (freed, s').
    Option.map (λ loaded. (freed, switched loaded)) (load_context fuel none (sleep_reaper_task s'))
