-- ===== src/Sched/Running.antt =====
-- Who runs after `schedule`, and that every operation keeps the invariant.
use mex_os.Base.{
  ℕ, ◌-◌, ◌≡◌, ◌⊎◌, inl, inr, refl, sym, subst, some, List, [], ◌∷◌, ◌==◌, ==_iff, Bool-cases,
  Option-cases, arith,
}
use mex_os.Sched.Task.{
  Task, Sched, ready, running, blocked, find_task, modify_task, has_ptr, has_id, has_pid, set_state,
  dispatch, demote, schedule, tick_task, sched_tick, sched_block, sched_unblock, current_task,
  task_find,
}
use mex_os.Sched.Life.{task_exit, become_zombie, waits_for}
use mex_os.Sched.Pick.{IsPicked, NoneReady, pick_next_task-IsPicked}
use mex_os.Sched.Queue.{ptrs, Has, ptrs-modify_task}
use mex_os.Sched.Invariant.{IsSound, OnlyRuns, modify-IsSound, schedule-IsSound, picked_Has}

-- The task at `p`, as the queue holds it.
abbrev pub TaskAt : ℕ → List Task → (Task → Type 0) → Type 0
TaskAt p ts P = (t : Task) × (find_task (has_ptr p) ts ≡ some t) × P t

find-modify_task :
    (p : ℕ) (f : Task → Task) (ts : List Task)
    → ((t : Task) → (f t).ptr ≡ t.ptr)
    → Has p (ptrs ts)
    → (t : Task) × (find_task (has_ptr p) (modify_task (has_ptr p) f ts) ≡ some (f t)) × (t.ptr ≡ p)
unfolding find_task modify_task
find-modify_task p f [] h m = elim m [ ]
find-modify_task p f (t ∷ ts) h (inl e) = (t, ground (arith, h t), e)
find-modify_task p f (t ∷ ts) h (inr m) = elim (Bool-cases (has_ptr p t)) [
  | inl mine ↦ (t, ground (arith, h t), (==_iff t.ptr p).0 mine)
  | inr other ↦ let (u, e, q) = find-modify_task p f ts h m in (u, ground (arith, h t), q)
]

ready_keeps : (c : ℕ) (t : Task) → OnlyRuns c t → OnlyRuns c (set_state ready t)
ready_keeps c t h = inl refl

module _ {H : Type 0} where
  ptrs-demote : (s : Sched H) → ptrs (demote s) ≡ ptrs s.tasks
  unfolding demote
  ptrs-demote s = ptrs-modify_task _ (set_state ready) (λ t. refl) s.tasks

  -- `schedule` changes nothing when no task is ready. Else it makes current the first of the ready
  -- tasks of the highest priority, which now runs with a slice of ten ticks.
  pub schedule-runs :
      (s : Sched H)
      → ((schedule s ≡ s) × NoneReady s.tasks)
        ⊎ ((b : Task) × IsPicked b s.tasks
            × ((schedule s).current ≡ b.ptr)
            × TaskAt b.ptr (schedule s).tasks (λ t. (t.state ≡ running) × (t.time_slice ≡ 10)))
  unfolding schedule
  schedule-runs s = elim (pick_next_task-IsPicked s.tasks) [
    | inl (e, h) ↦ inl (rw (e, schedule) refl, h)
    | inr (b, e, p) ↦
        let (t, found, at_b) =
          find-modify_task b.ptr dispatch (demote s) (λ u. refl)
            (subst (Has b.ptr) (sym (ptrs-demote s)) (picked_Has p)) in
        inr (b, p, rw (e, schedule) refl, (dispatch t, rw (e, schedule) found, (refl, refl)))
  ]

  pub sched_unblock-IsSound : (id : ℕ) (s : Sched H) → IsSound s → IsSound (sched_unblock id s)
  unfolding sched_unblock
  sched_unblock-IsSound id s v =
      modify-IsSound (has_id id) (set_state ready) (λ t. refl) (ready_keeps s.current) v

  pub sched_block-IsSound : (s : Sched H) → IsSound s → IsSound (sched_block s)
  unfolding sched_block
  sched_block-IsSound s v = elim (Option-cases (current_task s)) [
    | inl e ↦ rw (e, sched_block) v
    | inr (t, e) ↦
        rw (e, sched_block)
          (schedule-IsSound _ (
            modify-IsSound (has_ptr s.current) (set_state blocked) (λ u. refl) (λ u _. inl refl) v))
  ]

  pub sched_tick-IsSound : (s : Sched H) → IsSound s → IsSound (sched_tick s)
  unfolding sched_tick
  sched_tick-IsSound s v =
      let ticked = modify-IsSound (has_ptr s.current) tick_task (λ u. refl) (λ u h. h) v in
      elim (Option-cases (current_task s)) [
        | inl e ↦ rw (e, sched_tick) v
        | inr (t, e) ↦ elim (Bool-cases (t.time_slice - 1 == 0)) [
          | inl out ↦ rw (e, sched_tick, out) (schedule-IsSound _ ticked)
          | inr more ↦ rw (e, sched_tick, more) ticked
        ]
      ]

  pub task_exit-IsSound : (id code : ℕ) (s : Sched H) → IsSound s → IsSound (task_exit id code s)
  unfolding task_exit
  task_exit-IsSound id code s v =
      let dead = modify-IsSound (has_id id) (become_zombie code) (λ u. refl) (λ u _. inl refl) v in
      let tasks = modify_task (has_id id) (become_zombie code) s.tasks in
      elim (Option-cases (find_task (has_id id) s.tasks)) [
        | inl e ↦ rw (e, task_exit) v
        | inr (t, e) ↦ elim (Option-cases (task_find t.parent_pid tasks)) [
          | inl f ↦ rw (e, task_exit, f) dead
          | inr (parent, f) ↦ elim (Bool-cases (waits_for t.pid parent)) [
            | inl w ↦
                rw (e, task_exit, f, w)
                  (modify-IsSound (has_pid t.parent_pid) (set_state ready) (λ u. refl)
                    (ready_keeps s.current) dead)
            | inr n ↦ rw (e, task_exit, f, n) dead
          ]
        ]
      ]
