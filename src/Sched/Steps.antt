-- ===== src/Sched/Steps.antt =====
-- The scheduler as a transition system: every operation keeps the invariant.
use mex_os.Base.{
  ℕ, ◌≡◌, ◌≢◌, inl, inr, refl, sym, subst, ◌∙◌, Bool, true, false, ◌&&◌, not, some, List, [], ◌∷◌,
  ◌==◌, ==_iff, Bool-cases, Option-cases,
}
use mex_os.Alloc.{Allocator}
use mex_os.Sched.Task.{
  Task, Sched, ready, find_task, remove_task, has_ptr, has_id, is_zombie, stack_size, sched_yield,
  sched_tick, sched_block, sched_unblock, current_task, sched_init,
}
use mex_os.Sched.Create.{
  task_size, task_create, task_create_user, allocate_task, finish_kernel, finish_user, task_fork,
  fork_user_stack,
}
use mex_os.Sched.Life.{task_exit, task_destroy, wait_round, sleep_on, is_awaited}
use mex_os.Sched.Queue.{ptrs, Has, Distinct, All-remove_task}
use mex_os.Sched.Invariant.{
  IsSound, IsSoundQueue, OnlyRuns, modify-IsSound, cons-IsSound, schedule-IsSound,
}
use mex_os.Sched.Running.{
  sched_unblock-IsSound, sched_block-IsSound, sched_tick-IsSound, task_exit-IsSound,
}

Has-cons : (p q : ℕ) (qs rs : List ℕ) → (Has p qs → Has p rs) → Has p (q ∷ qs) → Has p (q ∷ rs)
Has-cons p q qs rs f (inl e) = inl e
Has-cons p q qs rs f (inr m) = inr (f m)

Has-of_removed :
    (test : Task → Bool) (p : ℕ) (ts : List Task)
    → Has p (ptrs (remove_task test ts))
    → Has p (ptrs ts)
unfolding remove_task
Has-of_removed test p [] m = m
Has-of_removed test p (t ∷ ts) m = elim (Bool-cases (test t)) [
  | inl e ↦ inr (rw (e, remove_task) at m)
  | inr e ↦
      Has-cons p t.ptr (ptrs (remove_task test ts)) (ptrs ts) (Has-of_removed test p ts)
        (rw (e, remove_task) at m)
]

remove_task-Distinct :
    (test : Task → Bool) (ts : List Task)
    → Distinct (ptrs ts)
    → Distinct (ptrs (remove_task test ts))
unfolding remove_task
remove_task-Distinct test [] d = tt
remove_task-Distinct test (t ∷ ts) d = elim (Bool-cases (test t)) [
  | inl e ↦ rw (e, remove_task) d.1
  | inr e ↦
      rw (e, remove_task)
        ((λ m. d.0 (Has-of_removed test t.ptr ts m)), remove_task-Distinct test ts d.1)
]

Has-remove_task :
    (test : Task → Bool) (p : ℕ) (ts : List Task)
    → ((t : Task) → find_task test ts ≡ some t → t.ptr ≢ p)
    → Has p (ptrs ts)
    → Has p (ptrs (remove_task test ts))
unfolding remove_task find_task
Has-remove_task test p [] h m = m
Has-remove_task test p (t ∷ ts) h (inl e) = elim (Bool-cases (test t)) [
  | inl hit ↦ absurd (h t (rw hit refl) e)
  | inr miss ↦ rw (miss, remove_task) (inl e)
]
Has-remove_task test p (t ∷ ts) h (inr m) = elim (Bool-cases (test t)) [
  | inl hit ↦ rw (hit, remove_task) m
  | inr miss ↦
      rw (miss, remove_task)
        (inr (Has-remove_task test p ts (λ u e. h u (rw (miss, find_task) e)) m))
]

-- `a` is the heap that the scheduler allocates from.
module _ {H : Type 0} ⦃a : Allocator H⦄ where
  -- The next `kmalloc` of a task does not return the address of a queued task.
  abbrev pub IsFresh : Sched H → Type 0
  IsFresh s = ¬ Has (a.kmalloc s.heap task_size).0 (ptrs s.tasks)

  -- The task that `task_destroy(id)` frees is not the current one.
  abbrev pub NotCurrent : ℕ → Sched H → Type 0
  NotCurrent id s = (t : Task) → find_task (has_id id) s.tasks ≡ some t → t.ptr ≢ s.current

  pub task_destroy-IsSound :
      (id : ℕ) (s : Sched H) → NotCurrent id s → IsSound s → IsSound (task_destroy id s)
  unfolding task_destroy
  task_destroy-IsSound id s other v = elim (Option-cases (find_task (has_id id) s.tasks)) [
    | inl e ↦ rw (e, task_destroy) v
    | inr (t, e) ↦
        rw (e, task_destroy)
          (record {
            distinct = remove_task-Distinct (has_id id) s.tasks v.distinct;
            real = λ m. v.real (Has-of_removed (has_id id) 0 s.tasks m);
            known = elim v.known [
              | inl null ↦ inl null
              | inr m ↦ inr (Has-remove_task (has_id id) s.current s.tasks other m)
            ];
            one_runs = All-remove_task (OnlyRuns s.current) (has_id id) s.tasks v.one_runs;
          })
  ]

  -- The child that a round of `task_wait` reaps does not have the current task's id.
  abbrev pub ReapsOther : Task → ℕ → Sched H → Type 0
  ReapsOther c pid s =
      (t : Task)
      → find_task (λ u. is_awaited c.pid pid u && is_zombie u.state) s.tasks ≡ some t
      → NotCurrent t.id s

  pub wait_round-IsSound :
      (c : Task) (pid : ℕ) (s : Sched H)
      → ReapsOther c pid s
      → IsSound s
      → IsSound (wait_round c pid s).1
  unfolding wait_round
  wait_round-IsSound c pid s other v =
      elim (Option-cases (find_task (λ u. is_awaited c.pid pid u && is_zombie u.state) s.tasks)) [
        | inr (t, e) ↦ rw (e, wait_round) (task_destroy-IsSound t.id s (other t e) v)
        | inl none_dead ↦ elim (Option-cases (find_task (is_awaited c.pid pid) s.tasks)) [
          | inl childless ↦ rw (none_dead, childless, wait_round) v
          | inr (child, e) ↦
              rw (none_dead, e, wait_round)
                (schedule-IsSound _ (
                  modify-IsSound (has_ptr s.current) (sleep_on pid) (λ u. refl) (λ u _. inl refl)
                    v))
        ]
      ]

  -- A task may be put in front of the queue.
  abbrev Push : Sched H → ℕ → Type 0
  Push s p = (u : Task) → u.ptr ≡ p → u.state ≡ ready → IsSoundQueue (u ∷ s.tasks) s.current

  Push-fresh : (s : Sched H) (p : ℕ) → p ≢ 0 → ¬ Has p (ptrs s.tasks) → IsSound s → Push s p
  Push-fresh s p some_ptr fresh v u e able =
      cons-IsSound u (rw able refl) (λ z. some_ptr (sym e ∙ z))
        (subst (λ q. ¬ Has q (ptrs s.tasks)) (sym e) fresh) v

  fork_user_stack-IsSound :
      (s : Sched H) (c child : Task)
      → Push s child.ptr
      → child.state ≡ ready
      → IsSound s
      → IsSound (fork_user_stack s c child).1
  unfolding fork_user_stack
  fork_user_stack-IsSound s c child push able v =
      elim (Bool-cases (not c.kernel_mode && not (c.user_stack == 0))) [
        | inr plain ↦ rw (plain, fork_user_stack) (push child refl able)
        | inl user ↦ elim (Bool-cases ((a.kmalloc s.heap stack_size).0 == 0)) [
          | inl failed ↦ rw (user, failed, fork_user_stack) v
          | inr got ↦ rw (user, got, fork_user_stack) (push _ refl able)
        ]
      ]

  pub task_fork-IsSound : (s : Sched H) → IsFresh s → IsSound s → IsSound (task_fork s).1
  unfolding task_fork
  task_fork-IsSound s fresh v =
      let p = (a.kmalloc s.heap task_size).0 in
      let h = (a.kmalloc s.heap task_size).1 in
      elim (Option-cases (current_task s)) [
        | inl e ↦ rw (e, task_fork) v
        | inr (c, e) ↦ elim (Bool-cases (p == 0)) [
          | inl failed ↦ rw (e, failed, task_fork) v
          | inr got ↦ elim (Bool-cases ((a.kmalloc h stack_size).0 == 0)) [
            | inl no_stack ↦ rw (e, got, no_stack, task_fork) v
            | inr stack ↦
                rw (e, got, stack, task_fork)
                  (fork_user_stack-IsSound _ c _
                    (Push-fresh s p (λ z. cc ((==_iff p 0).1 z)) fresh v) refl v)
          ]
        ]
      ]

  module _ (entry_address : ℕ) where
    finish_user-IsSound :
        (s : Sched H) (t : Task) (k entry : ℕ)
        → Push s t.ptr
        → t.state ≡ ready
        → IsSound s
        → IsSound (finish_user entry_address s t k entry).1
    unfolding finish_user
    finish_user-IsSound s t k entry push able v =
        elim (Bool-cases ((a.kmalloc s.heap stack_size).0 == 0)) [
          | inl failed ↦ rw (failed, finish_user) v
          | inr got ↦ rw (got, finish_user) (push _ refl able)
        ]

    allocate_task-IsSound :
        (s : Sched H) (kernel_mode : Bool) (priority : ℕ)
        (finish : Sched H → Task → ℕ → ℕ × Sched H)
        → ((s' : Sched H) (t : Task) (k : ℕ)
            → Push s' t.ptr
            → t.state ≡ ready
            → IsSound s'
            → IsSound (finish s' t k).1)
        → IsFresh s
        → IsSound s
        → IsSound (allocate_task entry_address s kernel_mode priority finish).1
    unfolding allocate_task
    allocate_task-IsSound s kernel_mode priority finish keep fresh v =
        let p = (a.kmalloc s.heap task_size).0 in
        let h = (a.kmalloc s.heap task_size).1 in
        elim (Bool-cases (p == 0)) [
          | inl failed ↦ rw (failed, allocate_task) v
          | inr got ↦ elim (Bool-cases ((a.kmalloc h stack_size).0 == 0)) [
            | inl no_stack ↦ rw (got, no_stack, allocate_task) v
            | inr stack ↦
                rw (got, stack, allocate_task)
                  (keep _ _ _ (Push-fresh s p (λ z. cc ((==_iff p 0).1 z)) fresh v) refl v)
          ]
        ]

    pub task_create-IsSound :
        (entry priority : ℕ) (kernel_mode : Bool) (s : Sched H)
        → IsFresh s
        → IsSound s
        → IsSound (task_create entry_address entry priority kernel_mode s).1
    unfolding task_create finish_kernel
    task_create-IsSound entry priority true s fresh v =
        allocate_task-IsSound s true priority _ (λ s' t k push able w. push _ refl able) fresh v
    task_create-IsSound entry priority false s fresh v =
        allocate_task-IsSound s false priority _
          (λ s' t k push able w. finish_user-IsSound s' t k entry push able w) fresh v

    pub task_create_user-IsSound :
        (entry_point priority : ℕ) (s : Sched H)
        → IsFresh s
        → IsSound s
        → IsSound (task_create_user entry_address entry_point priority s).1
    unfolding task_create_user
    task_create_user-IsSound entry_point priority s fresh v =
        allocate_task-IsSound s false priority _
          (λ s' t k push able w. finish_user-IsSound s' t k entry_point push able w) fresh v

    -- One operation of the scheduler's interface.
    pub data Step (s : Sched H) : Sched H → Type 0 where
      yields : Step s (sched_yield s)
      ticks : Step s (sched_tick s)
      blocks : Step s (sched_block s)
      unblocks : (id : ℕ) → Step s (sched_unblock id s)
      exits : (id code : ℕ) → Step s (task_exit id code s)
      destroys : (id : ℕ) → NotCurrent id s → Step s (task_destroy id s)
      waits : (c : Task) (pid : ℕ) → ReapsOther c pid s → Step s (wait_round c pid s).1
      forks : IsFresh s → Step s (task_fork s).1
      creates :
          (entry priority : ℕ) (kernel_mode : Bool)
          → IsFresh s
          → Step s (task_create entry_address entry priority kernel_mode s).1
      creates_user :
          (entry_point priority : ℕ)
          → IsFresh s
          → Step s (task_create_user entry_address entry_point priority s).1

    pub data Reach (s : Sched H) : Sched H → Type 0 where
      here : Reach s s
      next : {t u : Sched H} → Reach s t → Step t u → Reach s u

    Step-IsSound : {s t : Sched H} → Step s t → IsSound s → IsSound t
    unfolding sched_yield
    Step-IsSound {s} yields v = schedule-IsSound s v
    Step-IsSound {s} ticks v = sched_tick-IsSound s v
    Step-IsSound {s} blocks v = sched_block-IsSound s v
    Step-IsSound {s} (unblocks id) v = sched_unblock-IsSound id s v
    Step-IsSound {s} (exits id code) v = task_exit-IsSound id code s v
    Step-IsSound {s} (destroys id other) v = task_destroy-IsSound id s other v
    Step-IsSound {s} (waits c pid other) v = wait_round-IsSound c pid s other v
    Step-IsSound {s} (forks fresh) v = task_fork-IsSound s fresh v
    Step-IsSound {s} (creates entry priority kernel_mode fresh) v =
        task_create-IsSound entry priority kernel_mode s fresh v
    Step-IsSound {s} (creates_user entry_point priority fresh) v =
        task_create_user-IsSound entry_point priority s fresh v

    Reach-IsSound : {s t : Sched H} → IsSound s → Reach s t → IsSound t
    Reach-IsSound v here = v
    Reach-IsSound v (next r st) = Step-IsSound st (Reach-IsSound v r)

    init-IsSound : (s : Sched H) → IsSound (sched_init s)
    unfolding sched_init
    init-IsSound s = record { distinct = tt; real = λ m. m; known = inl refl; one_runs = tt }

    -- After `sched_init` and any sequence of scheduler operations in which `kmalloc` never returns
    -- the address of a queued task, `task_destroy` is not called for the current task and
    -- `task_wait` does not reap a child with the current task's id, no two tasks run at once: a
    -- running task is the current one, the current task is null or in the queue, and no two tasks
    -- share an address.
    pub reachable-IsSound : (s t : Sched H) → Reach (sched_init s) t → IsSound t
    reachable-IsSound s t r = Reach-IsSound (init-IsSound s) r
