-- ===== src/Sched/Pick.antt =====
-- `pick_next_task` returns the first ready task of the highest priority.
use mex_os.Base.{
  ℕ, ◌≤◌, ◌<◌, ◌≡◌, ◌⊎◌, inl, inr, refl, ap, true, false, none, some, List, [], ◌∷◌, ◌++◌, ltb, All,
  Bool-cases, arith,
}
use mex_os.Sched.Task.{Task, is_ready, pick_from, pick_next_task}

-- No ready task of the list has a priority above `n`, or of at least `n`.
abbrev pub NoneAbove : ℕ → List Task → Type 0
NoneAbove n = All (λ t. is_ready t.state ≡ true → t.priority ≤ n)

abbrev pub AllBelow : ℕ → List Task → Type 0
AllBelow n = All (λ t. is_ready t.state ≡ true → t.priority < n)

abbrev pub NoneReady : List Task → Type 0
NoneReady = All (λ t. is_ready t.state ≡ false)

-- `b` is the first of the ready tasks of `ts` that have the highest priority.
pub record IsPicked (b : Task) (ts : List Task) : Type 0 where
  pub before : List Task
  pub after : List Task
  pub split : ts ≡ before ++ (b ∷ after)
  pub is_ready_task : is_ready b.state ≡ true
  pub none_before : AllBelow b.priority before
  pub none_after : NoneAbove b.priority after

IsPicked-cons :
    (t : Task) {b : Task} {ts : List Task}
    → (is_ready t.state ≡ true → t.priority < b.priority)
    → IsPicked b ts
    → IsPicked b (t ∷ ts)
IsPicked-cons t h p = record {
  before = t ∷ p.before;
  after = p.after;
  split = ap (◌∷◌ t) p.split;
  is_ready_task = p.is_ready_task;
  none_before = (h, p.none_before);
  none_after = p.none_after;
}

IsPicked-head :
    (t : Task) (ts : List Task)
    → is_ready t.state ≡ true
    → NoneAbove t.priority ts
    → IsPicked t (t ∷ ts)
IsPicked-head t ts r h = record {
  before = [];
  after = ts;
  split = refl;
  is_ready_task = r;
  none_before = tt;
  none_after = h;
}

-- With `best` at hand the loop keeps it, or finds a first maximum above it.
abbrev Improves : Task → List Task → Type 0
Improves best ts =
    ((pick_from (some best) ts ≡ some best) × NoneAbove best.priority ts)
    ⊎ ((b : Task) × (pick_from (some best) ts ≡ some b)
        × (best.priority < b.priority)
        × IsPicked b ts)

pick_from-Improves : (best : Task) (ts : List Task) → Improves best ts
unfolding pick_from
pick_from-Improves best [] = inl (refl, tt)
pick_from-Improves best (t ∷ ts) = elim (Bool-cases (is_ready t.state)) [
  | inr idle ↦ elim (pick_from-Improves best ts) [
    | inl (e, above) ↦ inl (rw idle e, ((λ r. cc), above))
    | inr (b, e, lt, p) ↦ inr (b, rw idle e, lt, IsPicked-cons t (λ r. cc) p)
  ]
  | inl able ↦ elim (Bool-cases (ltb best.priority t.priority)) [
    | inl higher ↦ elim (pick_from-Improves t ts) [
      | inl (e, above) ↦ inr (t, rw (able, higher) e, ground arith, IsPicked-head t ts able above)
      | inr (b, e, lt, p) ↦ inr (b, rw (able, higher) e, ground arith, IsPicked-cons t (λ r. lt) p)
    ]
    | inr lower ↦ elim (pick_from-Improves best ts) [
      | inl (e, above) ↦ inl (rw (able, lower) e, ((λ r. ground arith), above))
      | inr (b, e, lt, p) ↦ inr (b, rw (able, lower) e, lt, IsPicked-cons t (λ r. ground arith) p)
    ]
  ]
]

-- `pick_next_task` returns NULL exactly for a queue with no ready task, and else the first of the
-- ready tasks with the highest priority.
pub pick_next_task-IsPicked :
    (ts : List Task)
    → ((pick_next_task ts ≡ none) × NoneReady ts)
      ⊎ ((b : Task) × (pick_next_task ts ≡ some b) × IsPicked b ts)
unfolding pick_next_task pick_from
pick_next_task-IsPicked [] = inl (refl, tt)
pick_next_task-IsPicked (t ∷ ts) = elim (Bool-cases (is_ready t.state)) [
  | inr idle ↦ elim (pick_next_task-IsPicked ts) [
    | inl (e, h) ↦ inl (rw idle e, (idle, h))
    | inr (b, e, p) ↦ inr (b, rw idle e, IsPicked-cons t (λ r. cc) p)
  ]
  | inl able ↦ elim (pick_from-Improves t ts) [
    | inl (e, above) ↦ inr (t, rw able e, IsPicked-head t ts able above)
    | inr (b, e, lt, p) ↦ inr (b, rw able e, IsPicked-cons t (λ r. lt) p)
  ]
]
