-- ===== src/Sched/Fork.antt =====
-- What `task_fork` gives the child, and when it fails.
use mex_os.Base.{
  ℕ, ◌+◌, ◌≤◌, ◌<◌, ◌≡◌, ◌≢◌, ◌⊎◌, true, ◌&&◌, not, ◌∷◌, ◌==◌, minus_one, add32, sub32,
}
use mex_os.Alloc.{Allocator}
use mex_os.Sched.Task.{Task, Sched, ready, stack_size}
use mex_os.Sched.Create.{task_size}

-- A task with a user stack, which a fork copies too.
abbrev pub HasUserStack : Task → Type 0
HasUserStack c = (not c.kernel_mode && not (c.user_stack == 0)) ≡ true

-- Two stacks do not overlap.
abbrev pub Apart : ℕ → ℕ → Type 0
Apart p q = (p + stack_size ≤ q) ⊎ (q + stack_size ≤ p)

-- The words of the stack at `p` in `mem` are those of the stack at `q` in `before`.
abbrev pub SameStack : (ℕ → ℕ) → ℕ → (ℕ → ℕ) → ℕ → Type 0
SameStack mem p before q = (i : ℕ) → i < stack_size → mem (p + i) ≡ before (q + i)

module _ {H : Type 0} ⦃a : Allocator H⦄ where
  -- The addresses that `kmalloc` gives for the structure, the kernel stack and the user stack.
  abbrev pub for_task : Sched H → ℕ
  for_task s = (a.kmalloc s.heap task_size).0

  abbrev pub for_stack : Sched H → ℕ
  for_stack s = (a.kmalloc (a.kmalloc s.heap task_size).1 stack_size).0

  abbrev pub for_user_stack : Sched H → ℕ
  for_user_stack s =
      (a.kmalloc (a.kmalloc (a.kmalloc s.heap task_size).1 stack_size).1 stack_size).0

  -- The new stacks of a task with a user stack overlap neither each other nor the parent's.
  abbrev pub AreNew : Sched H → Task → Type 0
  AreNew s c =
      HasUserStack c
      → for_user_stack s ≢ 0
      → Apart (for_user_stack s) (for_stack s) × Apart (for_stack s) c.user_stack

  -- What a successful fork of `c` leaves: a ready child in front of the queue, with the next id,
  -- the parent's registers but for a result of 0, a copy of the parent's kernel stack, a stack
  -- pointer as far into it, and a copy of the user stack if there is one.
  pub record Forked (s : Sched H) (c : Task) (pid : ℕ) (s' : Sched H) : Type 0 where
    pub child : Task
    pub queue : s'.tasks ≡ child ∷ s.tasks
    pub result : pid ≡ child.pid
    pub new_pid : child.pid ≡ s.next_tid
    pub next : s'.next_tid ≡ add32 s.next_tid 1
    pub of_parent : child.parent_pid ≡ c.pid
    pub starts_ready : child.state ≡ ready
    pub own_task : child.ptr ≡ for_task s
    pub own_stack : child.kernel_stack ≡ for_stack s
    pub allocated : (child.ptr ≢ 0) × (child.kernel_stack ≢ 0)
    pub returns_zero : child.context.eax ≡ 0
    pub same_eip : child.context.eip ≡ c.context.eip
    pub same_eflags : child.context.eflags ≡ c.context.eflags
    pub same_depth :
        child.context.esp ≡ add32 child.kernel_stack (sub32 c.context.esp c.kernel_stack)
    pub same_priority : child.priority ≡ c.priority
    pub same_mode : child.kernel_mode ≡ c.kernel_mode
    pub same_current : s'.current ≡ s.current
    pub stack_copy : SameStack s'.mem child.kernel_stack s.mem c.kernel_stack
    pub user_copy :
        HasUserStack c
        → (child.user_stack ≢ 0) × SameStack s'.mem child.user_stack s.mem c.user_stack

  -- A failed fork: one of the allocations that it needs failed, and the queue and the current task
  -- are as they were.
  pub record ForkFailed (s : Sched H) (c : Task) (pid : ℕ) (s' : Sched H) : Type 0 where
    pub reason : (for_task s ≡ 0) ⊎ ((for_stack s ≡ 0) ⊎ (HasUserStack c × (for_user_stack s ≡ 0)))
    pub result : pid ≡ minus_one
    pub queue : s'.tasks ≡ s.tasks
    pub same_current : s'.current ≡ s.current

  abbrev pub ForkCase : Sched H → Task → ℕ × Sched H → Type 0
  ForkCase s c (pid, s') = ForkFailed s c pid s' ⊎ Forked s c pid s'
