-- ===== src/Sched/Tests.antt =====
-- The scheduler on concrete queues.
use mex_os.Base.{
  ℕ, ◌+◌, ◌*◌, ◌≡◌, ◌≢◌, ◌⊎◌, inl, inr, refl, true, false, none, some, List, [], ◌∷◌, if◌then◌else◌,
  ◌==◌, arith, minus_one,
}
use mex_os.Alloc.{Allocator}
use mex_os.Sched.Task.{
  Task, Sched, TaskState, ready, running, blocked, has_id, find_task, modify_task, pick_next_task,
  pick_from, schedule, demote, sched_init, sched_yield,
}
use mex_os.Sched.Create.{task_create}
use mex_os.Sched.Life.{task_exit, wait_round, reaped}
use mex_os.Sched.Queue.{Has, Distinct, ids}
use mex_os.Sched.Pick.{IsPicked, NoneReady, pick_next_task-IsPicked}
use mex_os.Sched.Invariant.{IsSound}
use mex_os.Sched.Running.{schedule-runs, TaskAt}
use mex_os.Sched.Steps.{here, next, creates, yields, reachable-IsSound}
use mex_os.Sched.Wait.{wait_round-task_exit}
use mex_os.Sched.Starvation.{schedules, schedules-starve}

-- An allocator that hands out one address after another and frees nothing.
instance abbrev bump : Allocator ℕ
bump = record { kmalloc = λ h n. (h, h + n); kfree = λ h p. h }

abbrev task : ℕ → ℕ → TaskState → ℕ → Task
task p parent state priority = record {
  ptr = p * 1000;
  id = p;
  pid = p;
  parent_pid = parent;
  state = state;
  priority = priority;
  time_slice = 10;
  kernel_mode = true;
  kernel_stack = p * 1000 + 100;
  kernel_stack_top = 0;
  user_stack = 0;
  user_stack_top = 0;
  cpu_ticks = 0;
  exit_code = 0;
  waiting_for = if p == 1 then minus_one else 0;
  context = record { esp = p * 1000 + 180; eax = 7; eip = 5; eflags = 0x202 };
}

abbrev queue : List Task → ℕ → Sched ℕ
queue ts c = record {
  heap = 9000;
  mem = λ b. 0;
  tasks = ts;
  current = c;
  next_tid = 4;
  tick_count = 0;
  tss = 0;
  switches = [];
}

-- Three tasks of one priority, the newest running.
abbrev three : Sched ℕ
three = queue (task 3 1 running 5 ∷ task 2 1 ready 5 ∷ task 1 0 ready 5 ∷ []) 3000

-- A parent that waits for any child, and two children.
abbrev family : Sched ℕ
family = queue (task 3 1 running 5 ∷ task 2 1 ready 5 ∷ task 1 0 blocked 5 ∷ []) 3000

alternation :
    ((schedule three).current ≡ 2000)
    × ((schedule (schedule three)).current ≡ 3000)
    × ((schedule (schedule (schedule three))).current ≡ 2000)
unfolding schedule demote modify_task pick_next_task pick_from
alternation = (refl, refl, refl)

schedules-starve_example :
    (((schedules 100 three).current ≡ 3000) ⊎ ((schedules 100 three).current ≡ 2000))
    × ((first : Task) × (second : Task) × ((schedules 100 three).tasks
          ≡ first ∷ second ∷ task 1 0 ready 5 ∷ []))
schedules-starve_example = schedules-starve 100 three 3000 2000 (task 1 0 ready 5 ∷ []) (record {
  first = task 3 1 running 5;
  second = task 2 1 ready 5;
  queue = refl;
  at_p = refl;
  at_q = refl;
  apart = omega arith;
  same = refl;
  highest = ((λ e. omega arith), tt);
  turn = inl (refl, refl, refl);
})

pick_next_task-IsPicked_example :
    ((pick_next_task three.tasks ≡ none) × NoneReady three.tasks)
    ⊎ ((b : Task) × (pick_next_task three.tasks ≡ some b) × IsPicked b three.tasks)
pick_next_task-IsPicked_example = pick_next_task-IsPicked three.tasks

schedule-runs_example :
    ((schedule three ≡ three) × NoneReady three.tasks)
    ⊎ ((b : Task) × IsPicked b three.tasks
        × ((schedule three).current ≡ b.ptr)
        × TaskAt b.ptr (schedule three).tasks (λ t. (t.state ≡ running) × (t.time_slice ≡ 10)))
schedule-runs_example = schedule-runs three

family-Distinct : Distinct (ids family.tasks)
family-Distinct = (
  (λ m. elim m [
    | inl e ↦ omega (arith, e)
    | inr n ↦ elim n [ inl e ↦ omega (arith, e) | inr z ↦ z ]
  ]),
  ((λ m. elim m [ inl e ↦ omega (arith, e) | inr z ↦ z ]), ((λ m. m), tt)),
)

wait_round-task_exit_example :
    let (w, s') = wait_round (task 1 0 blocked 5) 2 (task_exit 2 42 family) in
    (w ≡ reaped 2 42)
    × (find_task (has_id 2) s'.tasks ≡ none)
    × ((j : ℕ) → j ≢ 2 → Has j (ids family.tasks) → Has j (ids s'.tasks))
unfolding find_task
wait_round-task_exit_example =
    wait_round-task_exit (task 1 0 blocked 5) 2 42 family (task 2 1 ready 5)
      (refl, (refl, (refl, tt))) family-Distinct refl refl refl (omega arith) (omega arith)

-- A task in user mode with a stack at 100000.
abbrev user_task : Task
user_task = record (task 3 1 running 5) { kernel_mode = false; user_stack = 100000 }

abbrev user_queue : Sched ℕ
user_queue = queue (user_task ∷ task 2 1 ready 5 ∷ []) 3000

abbrev empty : Sched ℕ
empty = queue [] 0

reachable-IsSound_example : IsSound (schedule (task_create 64 4096 5 true (sched_init empty)).1)
unfolding sched_yield sched_init
reachable-IsSound_example =
    reachable-IsSound 64 empty _ (next (next here (creates 4096 5 true (λ m. m))) yields)
