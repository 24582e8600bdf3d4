-- ===== src/Scheduler.antt =====
-- kernel/scheduler/scheduler.c and the timer of kernel/timer.c over a store of tasks. A task is
-- known by its address, `NULL` is 0, and the run queue and the queue of dead tasks are linked
-- through the tasks' field `next`. What `kmalloc`, `open_file` and `mmap_ring3` return for a new
-- task is an argument.
pub mod Calls
pub mod Ring
pub mod Next
pub mod Enqueue
pub mod Queue
pub mod TaskExit
pub mod Tick
mod Tests
use mathlib.Core.Option
use kernel_study.Base.{
  ◌>>=◌, ℕ, zero, suc, ◌+◌, ◌-◌, ◌%◌, ◌^◌, Bool, true, false, not, ◌||◌, ◌&&◌, Option, none, some,
  ◌==◌, if◌then◌else◌, u32, u64, sub32, sub64, update,
}

abbrev pub Ptr : Type 0
Ptr = ℕ

abbrev pub null : Ptr
null = 0

-- `task_status_t`
pub data TaskStatus : Type 0 where
  scheduler_idle ready running sleep : TaskStatus

-- `task_type_t`
pub data TaskType : Type 0 where
  ring0_task ring3_task : TaskType

-- `cpu_task_state_t`
pub record CpuTaskState : Type 0 where
  pub ds : ℕ
  pub edi : ℕ
  pub esi : ℕ
  pub ebp : ℕ
  pub esp : ℕ
  pub ebx : ℕ
  pub edx : ℕ
  pub ecx : ℕ
  pub eax : ℕ
  pub eip : ℕ
  pub cs : ℕ
  pub eflags : ℕ
  pub useresp : ℕ
  pub userss : ℕ

-- `task_t`. The `fds` are the addresses of the open files.
pub record Task : Type 0 where
  pub pid : ℕ
  pub context : CpuTaskState
  pub cr3 : ℕ
  pub fds : ℕ → Ptr
  pub total_fds : ℕ
  pub ring0_stack_base : Ptr
  pub ring0_stack_size : ℕ
  pub ring3_stack_base : Ptr
  pub ring3_stack_size : ℕ
  pub entry : Ptr
  pub status : TaskStatus
  pub kind : TaskType
  pub next : Ptr

-- The globals of scheduler.c, the store of tasks, `quantum_tick` of timer.c, and what the CPU was
-- last given: the kernel stack in the TSS and the page directory.
pub record Sched : Type 0 where
  pub tasks : Ptr → Task
  pub current_task : Ptr
  pub idle_task : Ptr
  pub reaper_task : Ptr
  pub dead_queue : Ptr
  pub awaiting_stdin : Ptr
  pub task_total : ℕ
  pub next_pid : ℕ
  pub quantum_tick : ℕ
  pub tss_esp0 : ℕ
  pub loaded_cr3 : ℕ

-- How a handler ends: it returns to its caller, or it leaves by `restore_task_context` for the
-- current task.
pub data Exit : Type 0 where
  returned : Sched → Exit
  switched : Sched → Exit

abbrev pub is_sleep : TaskStatus → Bool
is_sleep sleep = true
is_sleep _ = false

abbrev pub is_ready : TaskStatus → Bool
is_ready ready = true
is_ready _ = false

abbrev pub is_idle : TaskStatus → Bool
is_idle scheduler_idle = true
is_idle _ = false

abbrev pub is_ring3 : TaskType → Bool
is_ring3 ring0_task = false
is_ring3 ring3_task = true

abbrev pub user_cs : ℕ
user_cs = 0x23

abbrev pub idle_pid : ℕ
idle_pid = 0

-- `p->status = st`
unfoldable pub set_status : Ptr → TaskStatus → Sched → Sched
set_status p st s = record s { tasks = update s.tasks p (record (s.tasks p) { status = st }) }

-- `p->next = q`
unfoldable pub set_next : Ptr → Ptr → Sched → Sched
set_next p q s = record s { tasks = update s.tasks p (record (s.tasks p) { next = q }) }

unfoldable pub wake_idle_task : Sched → Sched
wake_idle_task s = set_status s.idle_task scheduler_idle s

unfoldable pub sleep_idle_task : Sched → Sched
sleep_idle_task s = set_status s.idle_task sleep s

unfoldable pub wake_reaper_task : Sched → Sched
wake_reaper_task s = set_status s.reaper_task ready s

unfoldable pub sleep_reaper_task : Sched → Sched
sleep_reaper_task s = set_status s.reaper_task sleep s

abbrev pub can_run : TaskStatus → Bool
can_run st = is_ready st || is_idle st

-- The loop of `next_task`; `none` is a loop that is still running.
unfoldable pub next_from : (Ptr → Task) → ℕ → Ptr → Option Ptr
next_from tasks zero p = none
next_from tasks (suc fuel) p =
    let rest = next_from tasks fuel (tasks p).next in
    if can_run (tasks p).status then some p else rest

unfoldable pub next_task : ℕ → Sched → Option Ptr
next_task fuel s = next_from s.tasks fuel (s.tasks s.current_task).next

-- The saved registers of an interrupted task: a copy of those on the stack at address `at`, with
-- the stack pointer as it was before the interrupt. `useresp` is 48 bytes into the record.
unfoldable pub saved_context : Ptr → CpuTaskState → CpuTaskState
saved_context at state =
    if state.cs == user_cs
    then record state { esp = state.useresp }
    else record state { esp = u32 (at + 48) }

-- `state` is the address and the content of the interrupt frame, `none` for `NULL`.
unfoldable pub save_context : Option (Ptr × CpuTaskState) → Sched → Sched
save_context none s = s
save_context (some (at, state)) s = record s {
  tasks =
      update s.tasks s.current_task
        (record (s.tasks s.current_task) { context = saved_context at state });
}

-- The last part of `load_context`: `p` becomes the current task.
unfoldable pub switch_to : Ptr → Sched → Sched
switch_to p s =
    let marked = if (s.tasks p).pid == idle_pid then s else set_status p running s in
    record marked {
      current_task = p;
      quantum_tick = 0;
      tss_esp0 = u32 ((s.tasks p).ring0_stack_base + 4096);
      loaded_cr3 = (s.tasks p).cr3;
    }

unfoldable pub load_context : ℕ → Option (Ptr × CpuTaskState) → Sched → Option Sched
load_context fuel state s =
    let saved = save_context state s in Option.map (λ p. switch_to p saved) (next_task fuel saved)

-- `scheduler_tick`, without its calls of `pic_send_eoi`, which `Drivers` has.
unfoldable pub scheduler_tick : ℕ → Ptr × CpuTaskState → Sched → Option Exit
scheduler_tick fuel state s =
    let woken = if s.task_total == 0 then wake_idle_task s else s in
    next_task fuel woken >>= λ p.
    let stopped =
      if is_idle (woken.tasks woken.current_task).status
      then woken
      else set_status woken.current_task ready woken in
    let switching = Option.map switched (load_context fuel (some state) stopped) in
    if p == woken.current_task then some (returned woken) else switching
