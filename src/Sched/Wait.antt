-- ===== src/Sched/Wait.antt =====
-- `task_exit` against `task_wait`: the parent wakes up and gets the exit code.
use mex_os.Base.{
  ℕ, ◌≡◌, ◌≢◌, ◌⊎◌, inl, inr, refl, sym, ap, subst, ◌∙◌, Bool, true, false, ◌&&◌, none, some, List,
  [], ◌∷◌, ==_iff, All, Bool-cases, Option-cases, arith, minus_one,
}
use mex_os.Alloc.{Allocator}
use mex_os.Sched.Task.{
  Task, Sched, ready, blocked, find_task, modify_task, has_id, has_pid, task_find, is_zombie,
  set_state,
}
use mex_os.Sched.Queue.{
  Has, Distinct, ids, ids-modify_task, find-remove_task, Has-remove_id, find_passes,
}
use mex_os.Sched.Life.{
  task_exit, task_destroy, wait_round, become_zombie, waits_for, is_awaited, reaped,
}

-- The first task that passes a test, after the task with id `i` was changed to pass it.
find-modified :
    (q : Task → Bool) (f : Task → Task) (i : ℕ) (ts : List Task) {t : Task}
    → All (λ u. u.pid ≡ u.id) ts
    → q (f t) ≡ true
    → ((u : Task) → u.pid ≢ i → q u ≡ false)
    → find_task (has_id i) ts ≡ some t
    → find_task q (modify_task (has_id i) f ts) ≡ some (f t)
unfolding find_task modify_task
find-modified q f i [] a hit miss e = cc
find-modified q f i (u ∷ ts) {t} a hit miss e = elim (Bool-cases (has_id i u)) [
  | inl here ↦
      let same : some u ≡ some t = rw here at e in
      let moved : some (f u) ≡ some (f t) =
        ap (λ o. elim o [ some x ↦ some (f x) | none ↦ none ]) same in
      rw here (rw (ap (λ o. elim o [ some x ↦ q x | none ↦ false ]) moved ∙ hit) moved)
  | inr other ↦
      let not_i : u.pid ≢ i = λ z. cc ((==_iff u.id i).1 (sym a.0 ∙ z)) in
      rw other
        (rw (miss u not_i) (find-modified q f i ts a.1 hit miss (rw (other, find_task) at e)))
]

-- A change to a task that fails a test, before and after, does not matter to the test.
find-kept :
    (q test : Task → Bool) (f : Task → Task) (ts : List Task)
    → ((u : Task) → test u ≡ true → (q u ≡ false) × (q (f u) ≡ false))
    → find_task q (modify_task test f ts) ≡ find_task q ts
unfolding find_task modify_task
find-kept q test f [] h = refl
find-kept q test f (u ∷ ts) h = elim (Bool-cases (test u)) [
  | inl e ↦ ground (arith, h u e)
  | inr e ↦ ground (arith, find-kept q test f ts h)
]

find-kept_ids :
    (i pp code : ℕ) (ts : List Task)
    → pp ≢ i
    → All (λ u. u.pid ≡ u.id) ts
    → find_task (has_pid pp) (modify_task (has_id i) (become_zombie code) ts)
      ≡ find_task (has_pid pp) ts
unfolding find_task modify_task
find-kept_ids i pp code [] far a = refl
find-kept_ids i pp code (u ∷ ts) far a = elim (Bool-cases (has_id i u)) [
  | inl e ↦ ground (arith, a.0)
  | inr e ↦ ground (arith, find-kept_ids i pp code ts far a.1)
]

pub find-modify_same :
    (test : Task → Bool) (f : Task → Task) (ts : List Task) {t : Task}
    → find_task test ts ≡ some t
    → ((u : Task) → test u ≡ true → test (f u) ≡ true)
    → find_task test (modify_task test f ts) ≡ some (f t)
unfolding find_task modify_task
find-modify_same test f [] e h = cc
find-modify_same test f (u ∷ ts) {t} e h = elim (Bool-cases (test u)) [
  | inl here ↦
      let same : some u ≡ some t = rw here at e in
      rw here (rw (h u here) (ap (λ o. elim o [ some x ↦ some (f x) | none ↦ none ]) same))
  | inr miss ↦ rw miss (rw miss (find-modify_same test f ts (rw (miss, find_task) at e) h))
]

module _ {H : Type 0} where
  -- The queue after `task_exit`, for a test that no task but the one exiting passes.
  find-task_exit :
      (q : Task → Bool) (i code : ℕ) (s : Sched H) {t : Task}
      → All (λ u. u.pid ≡ u.id) s.tasks
      → find_task (has_id i) s.tasks ≡ some t
      → t.parent_pid ≢ i
      → q (become_zombie code t) ≡ true
      → ((u : Task) → u.pid ≢ i → q u ≡ false)
      → find_task q (task_exit i code s).tasks ≡ some (become_zombie code t)
  unfolding task_exit
  find-task_exit q i code s {t} ids e parent hit miss =
      let tasks = modify_task (has_id i) (become_zombie code) s.tasks in
      let found = find-modified q (become_zombie code) i s.tasks ids hit miss e in
      let kept = find-kept q (has_pid t.parent_pid) (set_state ready) tasks (λ u h.
        let far : u.pid ≢ i = λ z. parent (sym ((==_iff u.pid t.parent_pid).0 h) ∙ z) in
        (miss u far, miss (set_state ready u) far)) in
      elim (Option-cases (task_find t.parent_pid tasks)) [
        | inl f ↦ rw (e, f, task_exit) found
        | inr (p, f) ↦ elim (Bool-cases (waits_for t.pid p)) [
          | inl w ↦ rw (e, f, w, task_exit) (kept ∙ found)
          | inr n ↦ rw (e, f, n, task_exit) found
        ]
      ]

  -- No task comes or goes.
  ids-task_exit : (i code : ℕ) (s : Sched H) → ids (task_exit i code s).tasks ≡ ids s.tasks
  unfolding task_exit
  ids-task_exit i code s =
      let tasks = modify_task (has_id i) (become_zombie code) s.tasks in
      let dead : ids tasks ≡ ids s.tasks =
        ids-modify_task (has_id i) (become_zombie code) (λ u. refl) s.tasks in
      elim (Option-cases (find_task (has_id i) s.tasks)) [
        | inl e ↦ rw (e, task_exit) refl
        | inr (t, e) ↦ elim (Option-cases (task_find t.parent_pid tasks)) [
          | inl f ↦ rw (e, f, task_exit) dead
          | inr (p, f) ↦ elim (Bool-cases (waits_for t.pid p)) [
            | inl w ↦
                rw (e, f, w, task_exit)
                  (ids-modify_task (has_pid t.parent_pid) (set_state ready) (λ u. refl) tasks
                    ∙ dead)
            | inr n ↦ rw (e, f, n, task_exit) dead
          ]
        ]
      ]

  -- A blocked parent that waits for the exiting task, or for any child, becomes ready.
  pub task_exit-wakes :
      (i code : ℕ) (s : Sched H) (t parent : Task)
      → All (λ u. u.pid ≡ u.id) s.tasks
      → find_task (has_id i) s.tasks ≡ some t
      → t.pid ≡ i
      → t.parent_pid ≢ i
      → task_find t.parent_pid s.tasks ≡ some parent
      → parent.state ≡ blocked
      → (parent.waiting_for ≡ i) ⊎ (parent.waiting_for ≡ minus_one)
      → task_find t.parent_pid (task_exit i code s).tasks ≡ some (set_state ready parent)
  unfolding task_exit task_find
  task_exit-wakes i code s t parent ids e pid far found state waits =
      let tasks = modify_task (has_id i) (become_zombie code) s.tasks in
      let still : find_task (has_pid t.parent_pid) tasks ≡ some parent =
        find-kept_ids i t.parent_pid code s.tasks far ids ∙ found in
      let wakes : waits_for t.pid parent ≡ true = ground arith in
      rw (e, task_exit)
        (rw (still, task_exit)
          (rw wakes
            (find-modify_same (has_pid t.parent_pid) (set_state ready) tasks still (λ u h. h))))

module _ {H : Type 0} ⦃a : Allocator H⦄ where
  -- Destroying a task takes its id, and no other, from a queue with distinct ids.
  task_destroy-gone :
      (i : ℕ) (s : Sched H)
      → Distinct (ids s.tasks)
      → (find_task (has_id i) (task_destroy i s).tasks ≡ none)
        × ((j : ℕ) → j ≢ i → Has j (ids s.tasks) → Has j (ids (task_destroy i s).tasks))
  unfolding task_destroy
  task_destroy-gone i s d = elim (Option-cases (find_task (has_id i) s.tasks)) [
    | inl e ↦ rw (e, task_destroy) (e, λ j apart m. m)
    | inr (t, e) ↦
        rw (e, task_destroy)
          (find-remove_task i s.tasks d, λ j apart m. Has-remove_id i j s.tasks apart m)
  ]

  -- After a child exits with a code, its parent's `task_wait` for its pid gets that code and takes
  -- the child from the queue: no task has the child's id any more, and every other id is still
  -- there. The ids of the queue are distinct and are the pids, and the pid is not the one that
  -- stands for any child.
  pub wait_round-task_exit :
      (c : Task) (i code : ℕ) (s : Sched H) (t : Task)
      → All (λ u. u.pid ≡ u.id) s.tasks
      → Distinct (ids s.tasks)
      → find_task (has_id i) s.tasks ≡ some t
      → t.pid ≡ i
      → t.parent_pid ≡ c.pid
      → c.pid ≢ i
      → i ≢ minus_one
      → let (w, s') = wait_round c i (task_exit i code s) in
        (w ≡ reaped i code)
        × (find_task (has_id i) s'.tasks ≡ none)
        × ((j : ℕ) → j ≢ i → Has j (ids s.tasks) → Has j (ids s'.tasks))
  unfolding wait_round
  wait_round-task_exit c i code s t same_ids d e pid parent far not_any =
      let q = λ (u : Task). is_awaited c.pid i u && is_zombie u.state in
      let found : find_task q (task_exit i code s).tasks ≡ some (become_zombie code t) =
        find-task_exit q i code s same_ids e (λ z. far (sym parent ∙ z)) (ground arith)
          (λ u h. ground arith) in
      let s1 : Sched H = task_exit i code s in
      let kept : ids s1.tasks ≡ ids s.tasks = ids-task_exit i code s in
      let at : t.id ≡ i = ground (arith, find_passes (has_id i) s.tasks e) in
      let (gone, others) = task_destroy-gone i s1 (subst Distinct (sym kept) d) in
      let destroys : task_destroy t.id s1 ≡ task_destroy i s1 = ap (λ x. task_destroy x s1) at in
      rw (found, wait_round)
        (
          ap (λ x. reaped x code) pid,
          subst (λ z. find_task (has_id i) z.tasks ≡ none) (sym destroys) gone,
          λ j apart m.
              subst (λ z. Has j (ids z.tasks)) (sym destroys)
                (others j apart (subst (Has j) (sym kept) m)),
        )
