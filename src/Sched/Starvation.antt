-- ===== src/Sched/Starvation.antt =====
-- The order in which ready tasks of one priority run.
use mex_os.Base.{
  ℕ, zero, suc, ◌≡◌, ◌≢◌, ◌⊎◌, inl, inr, refl, false, some, List, [], ◌∷◌, Bool-cases, arith, ltb,
}
use mex_os.Sched.Task.{
  Task, Sched, ready, running, is_ready, modify_task, has_ptr, set_state, dispatch, demote,
  schedule, pick_next_task, pick_from,
}
use mex_os.Sched.Pick.{NoneAbove}

-- `schedule` called `n` times, as by `n` tasks that yield or use up their slices.
unfoldable pub schedules : {H : Type 0} → ℕ → Sched H → Sched H
schedules zero s = s
schedules (suc n) s = schedules n (schedule s)

pick_from_stays :
    (b : Task) (ts : List Task) → NoneAbove b.priority ts → pick_from (some b) ts ≡ some b
unfolding pick_from
pick_from_stays b [] h = refl
pick_from_stays b (t ∷ ts) h = elim (Bool-cases (is_ready t.state)) [
  | inr idle ↦ rw idle (pick_from_stays b ts h.1)
  | inl able ↦
      let lower : ltb b.priority t.priority ≡ false = ground (arith, h.0 able) in
      rw (able, lower) (pick_from_stays b ts h.1)
]

-- The two newest tasks, at `p` and `q`, have the same priority, no ready task behind them has a
-- higher one, and one of the two runs while the other is ready.
pub record TakesTurns {H : Type 0} (p q : ℕ) (rest : List Task) (s : Sched H) : Type 0 where
  pub first : Task
  pub second : Task
  pub queue : s.tasks ≡ first ∷ second ∷ rest
  pub at_p : first.ptr ≡ p
  pub at_q : second.ptr ≡ q
  pub apart : p ≢ q
  pub same : second.priority ≡ first.priority
  pub highest : NoneAbove first.priority rest
  pub turn :
      ((first.state ≡ running) × (second.state ≡ ready) × (s.current ≡ p))
      ⊎ ((first.state ≡ ready) × (second.state ≡ running) × (s.current ≡ q))

module _ {H : Type 0} (s : Sched H) (p q : ℕ) (rest : List Task) (v : TakesTurns p q rest s) where
  open v use {first, second}

  pick_second : first.state ≡ running → second.state ≡ ready → pick_next_task s.tasks ≡ some second
  unfolding pick_next_task pick_from
  pick_second a b = rw v.queue (simp (a, b) (pick_from_stays second rest (rw v.same v.highest)))

  pick_first : first.state ≡ ready → second.state ≡ running → pick_next_task s.tasks ≡ some first
  unfolding pick_next_task pick_from
  pick_first a b = rw v.queue (simp (a, b) (pick_from_stays first rest v.highest))

  to_second :
      first.state ≡ running
      → second.state ≡ ready
      → s.current ≡ p
      → modify_task (has_ptr second.ptr) dispatch (demote s)
        ≡ set_state ready first ∷ dispatch second ∷ rest
  unfolding demote modify_task
  to_second a b c = ground (arith, v.queue, v.at_p, v.at_q, v.apart)

  to_first :
      first.state ≡ ready
      → second.state ≡ running
      → s.current ≡ q
      → modify_task (has_ptr first.ptr) dispatch (demote s)
        ≡ dispatch first ∷ set_state ready second ∷ rest
  unfolding demote modify_task
  to_first a b c = ground (arith, v.queue, v.at_p, v.at_q, v.apart)

  schedule-TakesTurns : TakesTurns p q rest (schedule s)
  unfolding schedule
  schedule-TakesTurns = elim v.turn [
    | inl (a, b, c) ↦
        rw (pick_second a b, schedule)
          (record {
            first = set_state ready first;
            second = dispatch second;
            queue = to_second a b c;
            at_p = v.at_p;
            at_q = v.at_q;
            apart = v.apart;
            same = v.same;
            highest = v.highest;
            turn = inr (refl, refl, v.at_q);
          })
    | inr (a, b, c) ↦
        rw (pick_first a b, schedule)
          (record {
            first = dispatch first;
            second = set_state ready second;
            queue = to_first a b c;
            at_p = v.at_p;
            at_q = v.at_q;
            apart = v.apart;
            same = v.same;
            highest = v.highest;
            turn = inl (refl, refl, v.at_p);
          })
  ]

schedules-TakesTurns :
    {H : Type 0} (n : ℕ) (s : Sched H) (p q : ℕ) (rest : List Task)
    → TakesTurns p q rest s
    → TakesTurns p q rest (schedules n s)
unfolding schedules
schedules-TakesTurns zero s p q rest v = v
schedules-TakesTurns (suc n) s p q rest v =
    schedules-TakesTurns n (schedule s) p q rest (schedule-TakesTurns s p q rest v)

-- While the two newest tasks share the highest priority and neither blocks, they alternate: however
-- often `schedule` is called, no other task becomes current, whatever its priority below or equal
-- to theirs, and the tasks behind them stay as they are.
pub schedules-starve :
    {H : Type 0} (n : ℕ) (s : Sched H) (p q : ℕ) (rest : List Task)
    → TakesTurns p q rest s
    → (((schedules n s).current ≡ p) ⊎ ((schedules n s).current ≡ q))
      × ((first : Task) × (second : Task) × ((schedules n s).tasks ≡ first ∷ second ∷ rest))
schedules-starve n s p q rest v =
    let w = schedules-TakesTurns n s p q rest v in
    (elim w.turn [ inl (a, b, c) ↦ inl c | inr (a, b, c) ↦ inr c ], (w.first, w.second, w.queue))
