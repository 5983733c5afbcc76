-- ===== src/Sched/Ticks.antt =====
-- A task runs for the ticks of its time slice before `sched_tick` calls the scheduler.
use mex_os.Base.{ℕ, zero, suc, ◌+◌, ◌-◌, ◌<◌, ◌≡◌, refl, ◌∙◌, true, false, some, ◌==◌, arith, add32}
use mex_os.Sched.Task.{
  Task, Sched, current_task, sched_tick, schedule, find_task, modify_task, has_ptr, tick_task,
}
use mex_os.Sched.Wait.{find-modify_same}

unfoldable pub ticks : {H : Type 0} → ℕ → Sched H → Sched H
ticks zero s = s
ticks (suc n) s = ticks n (sched_tick s)

module _ {H : Type 0} where
  -- A tick that does not use up the slice.
  tick_within :
      (s : Sched H) (t : Task)
      → current_task s ≡ some t
      → 1 < t.time_slice
      → ((sched_tick s).current ≡ s.current)
        × ((sched_tick s).switches ≡ s.switches)
        × (current_task (sched_tick s) ≡ some (tick_task t))
  unfolding sched_tick current_task
  tick_within s t e more =
      let left : (t.time_slice - 1 == 0) ≡ false = ground arith in
      let known : (s.current == 0) ≡ false = ground arith in
      let found : find_task (has_ptr s.current) s.tasks ≡ some t = rw known at e in
      rw (known, found, sched_tick, left)
        (
          refl,
          refl,
          rw known (find-modify_same (has_ptr s.current) tick_task s.tasks found (λ u h. h)),
        )

  -- For fewer ticks than its slice the current task goes on running: nothing is switched, and its
  -- slice is shorter by the ticks.
  pub ticks-keep_running :
      (n : ℕ) (s : Sched H) (t : Task)
      → current_task s ≡ some t
      → n < t.time_slice
      → ((ticks n s).current ≡ s.current)
        × ((ticks n s).switches ≡ s.switches)
        × ((u : Task) × (current_task (ticks n s) ≡ some u)
            × (u.time_slice ≡ t.time_slice - n)
            × (u.state ≡ t.state))
  unfolding ticks
  ticks-keep_running zero s t e more = (refl, refl, (t, e, omega arith, refl))
  ticks-keep_running (suc n) s t e more =
      let (same, switches, next) = tick_within s t e (omega arith) in
      let (c, w, (u, f, left, st)) =
        ticks-keep_running n (sched_tick s) (tick_task t) next (omega arith) in
      (c ∙ same, w ∙ switches, (u, f, left ∙ omega arith, st))

  -- The queue after the current task's tick.
  abbrev pub ticked : Sched H → Sched H
  ticked s = record s {
    tick_count = add32 s.tick_count 1;
    tasks = modify_task (has_ptr s.current) tick_task s.tasks;
  }

  -- A slice of `n + 1` ticks ends in a call of `schedule` at the last of them, and not before.
  pub ticks-schedule :
      (n : ℕ) (s : Sched H) (t : Task)
      → current_task s ≡ some t
      → t.time_slice ≡ n + 1
      → (ticks n s).switches ≡ s.switches × (sched_tick (ticks n s) ≡ schedule (ticked (ticks n s)))
  unfolding sched_tick
  ticks-schedule n s t e slice =
      let (c, w, (u, f, left, st)) = ticks-keep_running n s t e (omega arith) in
      let out : (u.time_slice - 1 == 0) ≡ true = ground (arith, left) in
      (w, rw (f, sched_tick, out) refl)
