-- ===== src/Sched/Create.antt =====
-- `task_create`, `task_create_user` and `task_fork` of kernel/sched/sched.c.
use mex_os.Base.{
  ℕ, ◌+◌, ◌-◌, Bool, false, not, ◌&&◌, none, some, ◌∷◌, if◌then◌else◌, ltb, leb, ◌==◌, add32, sub32,
  minus_one,
}
use mex_os.Alloc.{Allocator}
use mex_os.Sched.Task.{Task, Sched, Context, ready, stack_size, current_task}

-- `sizeof(struct task)`
abbrev pub task_size : ℕ
task_size = 100

abbrev pub write_word : (ℕ → ℕ) → ℕ → ℕ → ℕ → ℕ
write_word mem addr w b = if b == addr then w else mem b

-- `kstack[-1] = entry; kstack[-2] = 0; … kstack[-5] = 0`
abbrev pub init_kstack : (ℕ → ℕ) → ℕ → ℕ → ℕ → ℕ
init_kstack mem top entry =
    write_word
      (write_word
        (write_word (write_word (write_word mem (sub32 top 4) entry) (sub32 top 8) 0) (sub32 top 12)
          0)
        (sub32 top 16) 0)
      (sub32 top 20) 0

abbrev pub first_context : ℕ → ℕ → Context
first_context top entry = record { esp = sub32 top 20; eax = 0; eip = entry; eflags = 0x202 }

-- The address of `user_task_entry`, which the linker chooses, is a parameter.
module _ {H : Type 0} ⦃a : Allocator H⦄ (user_task_entry : ℕ) where
  -- The structure after `memset` and the first assignments.
  abbrev pub blank_task : Sched H → ℕ → ℕ → Bool → Task
  blank_task s p priority kernel_mode = record {
    ptr = p;
    id = s.next_tid;
    pid = s.next_tid;
    parent_pid = elim (current_task s) [ some c ↦ c.pid | none ↦ 0 ];
    state = ready;
    priority = priority;
    time_slice = 10;
    kernel_mode = kernel_mode;
    kernel_stack = 0;
    kernel_stack_top = 0;
    user_stack = 0;
    user_stack_top = 0;
    cpu_ticks = 0;
    exit_code = 0;
    waiting_for = 0;
    context = record { esp = 0; eax = 0; eip = 0; eflags = 0 };
  }

  -- The part for user tasks: `t` has its kernel stack at `k`.
  unfoldable pub finish_user : Sched H → Task → ℕ → ℕ → ℕ × Sched H
  finish_user s t k entry =
      let (u, h) = a.kmalloc s.heap stack_size in
      let top = add32 k stack_size in
      if u == 0 then (0, record s { heap = a.kfree (a.kfree h k) t.ptr }) else (
        t.ptr,
        record s {
          heap = h;
          mem = init_kstack s.mem top user_task_entry;
          tasks =
              record t {
                kernel_stack = k;
                kernel_stack_top = top;
                user_stack = u;
                user_stack_top = add32 u stack_size;
                context = first_context top entry;
              }
              ∷ s.tasks;
        },
      )

  unfoldable pub finish_kernel : Sched H → Task → ℕ → ℕ → ℕ × Sched H
  finish_kernel s t k entry =
      let top = add32 k stack_size in
      (
        t.ptr,
        record s {
          mem = init_kstack s.mem top entry;
          tasks =
              record t {
                kernel_stack = k;
                kernel_stack_top = top;
                context = first_context top entry;
              }
              ∷ s.tasks;
        },
      )

  -- The structure and the kernel stack; `finish` does the rest.
  unfoldable pub allocate_task :
      Sched H → Bool → ℕ → (Sched H → Task → ℕ → ℕ × Sched H) → ℕ × Sched H
  allocate_task s kernel_mode priority finish =
      let (p, h) = a.kmalloc s.heap task_size in
      if p == 0
      then (0, record s { heap = h })
      else let t = blank_task s p priority kernel_mode in
        let (k, h') = a.kmalloc h stack_size in
        let s' = record s { next_tid = add32 s.next_tid 1 } in
        if k == 0
        then (0, record s' { heap = a.kfree h' p })
        else finish (record s' { heap = h' }) t k

  -- A pointer to the task, 0 if an allocation failed.
  unfoldable pub task_create : ℕ → ℕ → Bool → Sched H → ℕ × Sched H
  task_create entry priority kernel_mode s =
      allocate_task s kernel_mode priority
        λ s' t k. if kernel_mode then finish_kernel s' t k entry else finish_user s' t k entry

  unfoldable pub task_create_user : ℕ → ℕ → Sched H → ℕ × Sched H
  task_create_user entry_point priority s =
      allocate_task s false priority λ s' t k. finish_user s' t k entry_point

-- `memcpy` of whole words.
abbrev pub copy_words : (ℕ → ℕ) → ℕ → ℕ → ℕ → ℕ → ℕ
copy_words mem dst src size b =
    if leb dst b && ltb b (dst + size) then mem (src + (b - dst)) else mem b

module _ {H : Type 0} ⦃a : Allocator H⦄ where
  -- The child before its user stack: `k` is its kernel stack.
  abbrev pub child_task : Sched H → Task → ℕ → ℕ → Task
  child_task s c p k = record c {
    ptr = p;
    id = s.next_tid;
    pid = s.next_tid;
    parent_pid = c.pid;
    state = ready;
    time_slice = 10;
    cpu_ticks = 0;
    exit_code = 0;
    waiting_for = 0;
    kernel_stack = k;
    kernel_stack_top = add32 k stack_size;
    context = record {
      esp = add32 k (sub32 c.context.esp c.kernel_stack);
      eax = 0;
      eip = c.context.eip;
      eflags = c.context.eflags;
    };
  }

  -- A user task's own user stack; `child` is complete but for that.
  unfoldable pub fork_user_stack : Sched H → Task → Task → ℕ × Sched H
  fork_user_stack s c child =
      if not c.kernel_mode && not (c.user_stack == 0)
      then (let (u, h) = a.kmalloc s.heap stack_size in
          if u == 0
          then (minus_one, record s { heap = a.kfree (a.kfree h child.kernel_stack) child.ptr })
          else (
            child.pid,
            record s {
              heap = h;
              mem = copy_words s.mem u c.user_stack stack_size;
              tasks =
                  record child { user_stack = u; user_stack_top = add32 u stack_size } ∷ s.tasks;
            },
          ))
      else (child.pid, record s { tasks = child ∷ s.tasks })

  -- The child's pid, or -1.
  unfoldable pub task_fork : Sched H → ℕ × Sched H
  task_fork s = elim (current_task s) [
    | none ↦ (minus_one, s)
    | some c ↦
        let (p, h) = a.kmalloc s.heap task_size in
        if p == 0
        then (minus_one, record s { heap = h })
        else let (k, h') = a.kmalloc h stack_size in
          let s' = record s { next_tid = add32 s.next_tid 1 } in
          if k == 0
          then (minus_one, record s' { heap = a.kfree h' p })
          else fork_user_stack
              (record s' { heap = h'; mem = copy_words s.mem k c.kernel_stack stack_size }) c
              (child_task s c p k)
  ]
