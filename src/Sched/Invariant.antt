-- ===== src/Sched/Invariant.antt =====
-- The scheduler's invariant, and `schedule` against it.
use mex_os.Base.{
  ℕ, ◌≡◌, ◌≢◌, ◌⊎◌, inl, inr, refl, sym, subst, ◌∙◌, Bool, false, ◌&&◌, List, [], ◌∷◌, ◌++◌, ==_iff,
  All, Bool-cases,
}
use mex_os.Sched.Task.{
  Task, Sched, ready, is_running, modify_task, has_ptr, set_state, dispatch, demote, schedule,
}
use mex_os.Sched.Pick.{IsPicked, pick_next_task-IsPicked}
use mex_os.Sched.Queue.{ptrs, Has, Distinct, ptrs-modify_task, All-modify_task}

-- Only the task at `c` may be running.
abbrev pub OnlyRuns : ℕ → Task → Type 0
OnlyRuns c t = (is_running t.state ≡ false) ⊎ (t.ptr ≡ c)

-- No two tasks share an address, none is at 0, the current task is null or in the queue, and no
-- other task is running.
pub record IsSoundQueue (ts : List Task) (c : ℕ) : Type 0 where
  pub distinct : Distinct (ptrs ts)
  pub real : ¬ Has 0 (ptrs ts)
  pub known : (c ≡ 0) ⊎ Has c (ptrs ts)
  pub one_runs : All (OnlyRuns c) ts

abbrev pub IsSound : {H : Type 0} → Sched H → Type 0
IsSound s = IsSoundQueue s.tasks s.current

-- A change of states that keeps every address, and lets nobody but the current task run.
pub update-IsSound :
    {ts : List Task} {c : ℕ} (us : List Task)
    → IsSoundQueue ts c
    → ptrs us ≡ ptrs ts
    → All (OnlyRuns c) us
    → IsSoundQueue us c
update-IsSound {c = c} us v e a = record {
  distinct = subst Distinct (sym e) v.distinct;
  real = subst (λ l. ¬ Has 0 l) (sym e) v.real;
  known = subst (λ l. (c ≡ 0) ⊎ Has c l) (sym e) v.known;
  one_runs = a;
}

-- One task changes, and does not start to run.
pub modify-IsSound :
    {ts : List Task} {c : ℕ} (test : Task → Bool) (f : Task → Task)
    → ((t : Task) → (f t).ptr ≡ t.ptr)
    → ((t : Task) → OnlyRuns c t → OnlyRuns c (f t))
    → IsSoundQueue ts c
    → IsSoundQueue (modify_task test f ts) c
modify-IsSound {ts} {c} test f same keep v =
    update-IsSound (modify_task test f ts) v (ptrs-modify_task test f same ts)
      (All-modify_task (OnlyRuns c) test f (λ t _ h. keep t h) ts v.one_runs)

-- A new task that does not run, at an address of its own.
pub cons-IsSound :
    {ts : List Task} {c : ℕ} (t : Task)
    → is_running t.state ≡ false
    → t.ptr ≢ 0
    → ¬ Has t.ptr (ptrs ts)
    → IsSoundQueue ts c
    → IsSoundQueue (t ∷ ts) c
cons-IsSound {ts} {c} t idle some_ptr fresh v = record {
  distinct = (fresh, v.distinct);
  real = not_null;
  known = known;
  one_runs = (inl idle, v.one_runs);
}
  where
    not_null : ¬ Has 0 (ptrs (t ∷ ts))
    not_null (inl e) = some_ptr e
    not_null (inr m) = v.real m

    known : (c ≡ 0) ⊎ Has c (ptrs (t ∷ ts))
    known = elim v.known [ inl e ↦ inl e | inr m ↦ inr (inr m) ]

abbrev NotRunning : Task → Type 0
NotRunning t = is_running t.state ≡ false

others_idle : (c : ℕ) (ts : List Task) → ¬ Has c (ptrs ts) → All (OnlyRuns c) ts → All NotRunning ts
others_idle c [] h a = tt
others_idle c (t ∷ ts) h a = (only a.0, others_idle c ts (λ m. h (inr m)) a.1)
  where
    only : OnlyRuns c t → NotRunning t
    only (inl e) = e
    only (inr e) = absurd (h (inl e))

demote_list : (c : ℕ) (ts : List Task) → List Task
demote_list c ts = modify_task (λ t. has_ptr c t && is_running t.state) (set_state ready) ts

-- After the running task is put back, none runs.
demote_list-NotRunning :
    (c : ℕ) (ts : List Task)
    → Distinct (ptrs ts)
    → All (OnlyRuns c) ts
    → All NotRunning (demote_list c ts)
unfolding demote_list modify_task
demote_list-NotRunning c [] d a = tt
demote_list-NotRunning c (t ∷ ts) d a = elim (Bool-cases (has_ptr c t)) [
  | inl mine ↦
      let rest : All NotRunning ts =
        others_idle c ts (λ m. d.0 (subst (λ p. Has p (ptrs ts)) (sym ((==_iff t.ptr c).0 mine)) m))
          a.1 in
      elim (Bool-cases (is_running t.state)) [
        | inl runs ↦ rw (mine, runs) (refl, rest)
        | inr idle ↦ rw (mine, idle) (idle_head idle (demote_list c ts) (kept rest))
      ]
  | inr other ↦
      rw other (idle_head (only a.0 other) (demote_list c ts) (demote_list-NotRunning c ts d.1 a.1))
]
  where
    idle_head : NotRunning t → (us : List Task) → All NotRunning us → All NotRunning (t ∷ us)
    idle_head e us h = (e, h)

    kept : All NotRunning ts → All NotRunning (demote_list c ts)
    kept h = All-modify_task NotRunning _ (set_state ready) (λ u _ _. refl) ts h

    only : OnlyRuns c t → has_ptr c t ≡ false → NotRunning t
    only (inl e) ne = e
    only (inr e) ne = cc ((==_iff t.ptr c).1 e)

ptrs-demote_list : (c : ℕ) (ts : List Task) → ptrs (demote_list c ts) ≡ ptrs ts
unfolding demote_list
ptrs-demote_list c ts = ptrs-modify_task _ (set_state ready) (λ t. refl) ts

Has-middle :
    (before : List Task) (b : Task) (after : List Task) → Has b.ptr (ptrs (before ++ (b ∷ after)))
Has-middle [] b after = inl refl
Has-middle (t ∷ ts) b after = inr (Has-middle ts b after)

pub picked_Has : {b : Task} {ts : List Task} → IsPicked b ts → Has b.ptr (ptrs ts)
picked_Has {b} p = subst (λ l. Has b.ptr (ptrs l)) (sym p.split) (Has-middle p.before b p.after)

-- The queue after a switch to the task at `n`.
switched : (c n : ℕ) (ts : List Task) → List Task
switched c n ts = modify_task (has_ptr n) dispatch (demote_list c ts)

switched-one_runs :
    (c n : ℕ) (ts : List Task)
    → Distinct (ptrs ts)
    → All (OnlyRuns c) ts
    → All (OnlyRuns n) (switched c n ts)
unfolding switched
switched-one_runs c n ts d a =
    All-modify_task (OnlyRuns n) (has_ptr n) dispatch (λ t h _. inr ((==_iff t.ptr n).0 h))
      (demote_list c ts) (weaken (demote_list c ts) (demote_list-NotRunning c ts d a))
  where
    weaken : (us : List Task) → All NotRunning us → All (OnlyRuns n) us
    weaken [] h = tt
    weaken (u ∷ us) h = (inl h.0, weaken us h.1)

module _ {H : Type 0} where
  -- `schedule` keeps the invariant.
  pub schedule-IsSound : (s : Sched H) → IsSound s → IsSound (schedule s)
  unfolding schedule demote switched demote_list
  schedule-IsSound s v = elim (pick_next_task-IsPicked s.tasks) [
    | inl (e, h) ↦ rw (e, schedule) v
    | inr (b, e, p) ↦
        let same : ptrs (switched s.current b.ptr s.tasks) ≡ ptrs s.tasks =
          ptrs-modify_task (has_ptr b.ptr) dispatch (λ t. refl) (demote s)
          ∙ ptrs-demote_list s.current s.tasks in
        rw (e, schedule)
          (record {
            distinct = subst Distinct (sym same) v.distinct;
            real = subst (λ l. ¬ Has 0 l) (sym same) v.real;
            known = inr (subst (Has b.ptr) (sym same) (picked_Has p));
            one_runs = switched-one_runs s.current b.ptr s.tasks v.distinct v.one_runs;
          })
  ]
