-- ===== src/Sched/Task.antt =====
-- `struct task`, the queue and the state of kernel/sched/sched.c, and the picking of the next task.
use mex_os.Base.{
  ℕ, ◌-◌, Bool, true, false, ◌&&◌, Option, none, some, List, [], ◌∷◌, if◌then◌else◌, ltb, ◌==◌,
  add32,
}

pub data TaskState : Type 0 where
  running ready blocked zombie : TaskState

-- The registers of `struct task_context` that the kernel's C code writes.
pub record Context : Type 0 where
  pub esp : ℕ
  pub eax : ℕ
  pub eip : ℕ
  pub eflags : ℕ

-- `ptr` is the address of the structure. A `pid_t` is its bit pattern, `minus_one` for -1.
pub record Task : Type 0 where
  pub ptr : ℕ
  pub id : ℕ
  pub pid : ℕ
  pub parent_pid : ℕ
  pub state : TaskState
  pub priority : ℕ
  pub time_slice : ℕ
  pub kernel_mode : Bool
  pub kernel_stack : ℕ
  pub kernel_stack_top : ℕ
  pub user_stack : ℕ
  pub user_stack_top : ℕ
  pub cpu_ticks : ℕ
  pub exit_code : ℕ
  pub waiting_for : ℕ
  pub context : Context

-- `tss` is the argument of the last `tss_set_kernel_stack`. `switches` records the calls of
-- `switch_context`, newest first: the tasks left (0 for none) and entered. `mem` is the memory that
-- holds the stacks, by the address of each word.
pub record Sched (H : Type 0) : Type 0 where
  pub heap : H
  pub mem : ℕ → ℕ
  pub tasks : List Task
  pub current : ℕ
  pub next_tid : ℕ
  pub tick_count : ℕ
  pub tss : ℕ
  pub switches : List (ℕ × ℕ)

abbrev pub stack_size : ℕ
stack_size = 0x4000

abbrev pub is_ready : TaskState → Bool
is_ready ready = true
is_ready _ = false

abbrev pub is_running : TaskState → Bool
is_running running = true
is_running _ = false

abbrev pub is_blocked : TaskState → Bool
is_blocked blocked = true
is_blocked _ = false

abbrev pub is_zombie : TaskState → Bool
is_zombie zombie = true
is_zombie _ = false

-- The loops `while (t) { if (…) …; t = t->next; }`: the first task that passes a test, and a change
-- to it.
unfoldable pub find_task : (Task → Bool) → List Task → Option Task
find_task test [] = none
find_task test (t ∷ ts) = if test t then some t else find_task test ts

unfoldable pub modify_task : (Task → Bool) → (Task → Task) → List Task → List Task
modify_task test f [] = []
modify_task test f (t ∷ ts) = if test t then f t ∷ ts else t ∷ modify_task test f ts

unfoldable pub remove_task : (Task → Bool) → List Task → List Task
remove_task test [] = []
remove_task test (t ∷ ts) = if test t then ts else t ∷ remove_task test ts

abbrev pub has_ptr : ℕ → Task → Bool
has_ptr p t = t.ptr == p

abbrev pub has_id : ℕ → Task → Bool
has_id i t = t.id == i

abbrev pub has_pid : ℕ → Task → Bool
has_pid i t = t.pid == i

-- `task_find`
unfoldable pub task_find : ℕ → List Task → Option Task
task_find pid = find_task (has_pid pid)

-- `!best || t->priority > best->priority`
abbrev pub beats : Task → Option Task → Bool
beats t none = true
beats t (some b) = ltb b.priority t.priority

-- The loop of `pick_next_task`.
unfoldable pub pick_from : Option Task → List Task → Option Task
pick_from best [] = best
pick_from best (t ∷ ts) = pick_from (if is_ready t.state && beats t best then some t else best) ts

unfoldable pub pick_next_task : List Task → Option Task
pick_next_task = pick_from none

abbrev pub is_idle : Task → Bool
is_idle t = t.priority == 0

abbrev pub set_state : TaskState → Task → Task
set_state st t = record t { state = st }

abbrev pub dispatch : Task → Task
dispatch t = record t { state = running; time_slice = 10 }

-- One timer tick for the current task.
abbrev pub tick_task : Task → Task
tick_task t = record t { cpu_ticks = add32 t.cpu_ticks 1; time_slice = t.time_slice - 1 }

module _ {H : Type 0} where
  -- `sched_init`; the memory, the heap and the TSS are as they were.
  unfoldable pub sched_init : Sched H → Sched H
  sched_init s = record s { tasks = []; current = 0; next_tid = 1; tick_count = 0 }

  -- `*current_task`. While `current` is null or in the queue, this is what the C code reads.
  unfoldable pub current_task : Sched H → Option Task
  current_task s = if s.current == 0 then none else find_task (has_ptr s.current) s.tasks

  unfoldable pub sched_get_idle_task : Sched H → Option Task
  sched_get_idle_task s = find_task is_idle s.tasks

  -- `if (current_task && current_task->state == TASK_RUNNING) current_task->state = TASK_READY;`
  unfoldable pub demote : Sched H → List Task
  demote s = modify_task (λ t. has_ptr s.current t && is_running t.state) (set_state ready) s.tasks

  -- `schedule`, up to the switch.
  unfoldable pub schedule : Sched H → Sched H
  schedule s = elim (pick_next_task s.tasks) [
    | none ↦ s
    | some next ↦ record s {
      tasks = modify_task (has_ptr next.ptr) dispatch (demote s);
      current = next.ptr;
      tss = if next.kernel_stack == 0 then s.tss else add32 next.kernel_stack stack_size;
      switches = if s.current == next.ptr then s.switches else (s.current, next.ptr) ∷ s.switches;
    }
  ]

  unfoldable pub sched_yield : Sched H → Sched H
  sched_yield s = schedule s

  unfoldable pub sched_tick : Sched H → Sched H
  sched_tick s =
      let s' = record s { tick_count = add32 s.tick_count 1 } in
      elim (current_task s) [
        | none ↦ s'
        | some t ↦
            let s'' = record s' { tasks = modify_task (has_ptr s.current) tick_task s.tasks } in
            if t.time_slice - 1 == 0 then schedule s'' else s''
      ]

  -- The reason is not used.
  unfoldable pub sched_block : Sched H → Sched H
  sched_block s = elim (current_task s) [
    | none ↦ s
    | some t ↦
        schedule (record s { tasks = modify_task (has_ptr s.current) (set_state blocked) s.tasks })
  ]

  unfoldable pub sched_unblock : ℕ → Sched H → Sched H
  sched_unblock id s = record s { tasks = modify_task (has_id id) (set_state ready) s.tasks }
