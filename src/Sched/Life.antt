-- ===== src/Sched/Life.antt =====
-- `task_destroy`, `task_exit` and `task_wait` of kernel/sched/sched.c.
use mex_os.Base.{ℕ, Bool, ◌&&◌, ◌||◌, none, some, List, [], ◌∷◌, if◌then◌else◌, ◌==◌, minus_one}
use mex_os.Alloc.{Allocator}
use mex_os.Sched.Task.{
  Task, Sched, ready, blocked, zombie, current_task, find_task, modify_task, remove_task, task_find,
  has_id, has_pid, has_ptr, is_blocked, is_zombie, set_state, schedule,
}

abbrev pub become_zombie : ℕ → Task → Task
become_zombie code t = record t { state = zombie; exit_code = code }

-- `parent->waiting_for == t->pid || parent->waiting_for == -1`, of a blocked parent.
abbrev pub waits_for : ℕ → Task → Bool
waits_for pid parent =
    is_blocked parent.state && (parent.waiting_for == pid || parent.waiting_for == minus_one)

abbrev pub sleep_on : ℕ → Task → Task
sleep_on pid t = record t { waiting_for = pid; state = blocked }

-- A child of the task with pid `me` that `task_wait(pid, …)` is about.
abbrev pub is_awaited : ℕ → ℕ → Task → Bool
is_awaited me pid t = t.parent_pid == me && (pid == minus_one || t.pid == pid)

-- What one round of the loop of `task_wait` comes to: a return, or sleep until the task runs again.
pub data Wait : Type 0 where
  returned : ℕ → Wait
  reaped : ℕ → ℕ → Wait
  asleep : Wait

module _ {H : Type 0} where
  unfoldable pub task_exit : ℕ → ℕ → Sched H → Sched H
  task_exit id code s = elim (find_task (has_id id) s.tasks) [
    | none ↦ s
    | some t ↦
        let tasks = modify_task (has_id id) (become_zombie code) s.tasks in
        elim (task_find t.parent_pid tasks) [
          | none ↦ record s { tasks = tasks }
          | some parent ↦
              if waits_for t.pid parent
              then record s { tasks = modify_task (has_pid t.parent_pid) (set_state ready) tasks }
              else record s { tasks = tasks }
        ]
  ]

module _ {H : Type 0} ⦃a : Allocator H⦄ where
  abbrev pub free_unless_null : ℕ → H → H
  free_unless_null p h = if p == 0 then h else a.kfree h p

  unfoldable pub task_destroy : ℕ → Sched H → Sched H
  task_destroy id s = elim (find_task (has_id id) s.tasks) [
    | none ↦ s
    | some t ↦ record s {
      tasks = remove_task (has_id id) s.tasks;
      heap = a.kfree (free_unless_null t.user_stack (free_unless_null t.kernel_stack s.heap)) t.ptr;
    }
  ]

  -- One round for the current task `c`: `reaped pid code` returns a child's pid and writes its exit
  -- code through `status`.
  unfoldable pub wait_round : Task → ℕ → Sched H → Wait × Sched H
  wait_round c pid s = elim (find_task (λ t. is_awaited c.pid pid t && is_zombie t.state) s.tasks) [
    | some t ↦ (reaped t.pid t.exit_code, task_destroy t.id s)
    | none ↦ elim (find_task (is_awaited c.pid pid) s.tasks) [
      | none ↦ (returned minus_one, s)
      | some child ↦ (
        asleep,
        schedule (record s { tasks = modify_task (has_ptr s.current) (sleep_on pid) s.tasks }),
      )
    ]
  ]

  -- `resumes` holds, for each time the task sleeps, what the kernel does until it runs again; at
  -- the end of the list it is still asleep.
  unfoldable pub task_wait : ℕ → List (Sched H → Sched H) → Sched H → Wait × Sched H
  task_wait pid [] s = elim (current_task s) [
    | none ↦ (returned minus_one, s)
    | some c ↦ wait_round c pid s
  ]
  task_wait pid (resume ∷ resumes) s = elim (current_task s) [
    | none ↦ (returned minus_one, s)
    | some c ↦
        let (w, s') = wait_round c pid s in
        let later = task_wait pid resumes (resume s') in
        elim w [ asleep ↦ later | returned r ↦ (returned r, s') | reaped p e ↦ (reaped p e, s') ]
  ]
