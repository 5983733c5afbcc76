-- ===== src/Sched/Queue.antt =====
-- What the loops over the task queue leave alone.
use mex_os.Base.{
  ℕ, ◌≡◌, ◌⊎◌, inl, inr, refl, ap, sym, subst, ◌∙◌, ◌==◌, ◌≢◌, false, Bool, true, Option, none,
  some, List, [], ◌∷◌, All, Bool-cases, arith,
}
use mex_os.Sched.Task.{Task, has_id, find_task, modify_task, remove_task}

-- The addresses of the tasks, in order.
abbrev pub ptrs : List Task → List ℕ
ptrs [] = []
ptrs (t ∷ ts) = t.ptr ∷ ptrs ts

abbrev pub Has : ℕ → List ℕ → Type 0
Has p [] = ⊥
Has p (q ∷ qs) = (q ≡ p) ⊎ Has p qs

abbrev pub Distinct : List ℕ → Type 0
Distinct [] = Unit
Distinct (p ∷ ps) = (¬ Has p ps) × Distinct ps

pub ptrs-modify_task :
    (test : Task → Bool) (f : Task → Task)
    → ((t : Task) → (f t).ptr ≡ t.ptr)
    → (ts : List Task) → ptrs (modify_task test f ts) ≡ ptrs ts
unfolding modify_task
ptrs-modify_task test f h [] = refl
ptrs-modify_task test f h (t ∷ ts) = elim (Bool-cases (test t)) [
  | inl e ↦ rw e (ap (λ p. p ∷ ptrs ts) (h t))
  | inr e ↦ rw e (ap (◌∷◌ t.ptr) (ptrs-modify_task test f h ts))
]

module _ {κ} (P : Task → Type κ) where
  pub All-modify_task :
      (test : Task → Bool) (f : Task → Task)
      → ((t : Task) → test t ≡ true → P t → P (f t))
      → (ts : List Task) → All P ts
      → All P (modify_task test f ts)
  unfolding modify_task
  All-modify_task test f h [] a = tt
  All-modify_task test f h (t ∷ ts) a = elim (Bool-cases (test t)) [
    | inl e ↦ rw e (h t e a.0, a.1)
    | inr e ↦ rw e (a.0, All-modify_task test f h ts a.1)
  ]

  pub All-remove_task :
      (test : Task → Bool) (ts : List Task) → All P ts → All P (remove_task test ts)
  unfolding remove_task
  All-remove_task test [] a = tt
  All-remove_task test (t ∷ ts) a = elim (Bool-cases (test t)) [
    | inl e ↦ rw e a.1
    | inr e ↦ rw e (a.0, All-remove_task test ts a.1)
  ]

-- The ids of the tasks, in order.
abbrev pub ids : List Task → List ℕ
ids [] = []
ids (t ∷ ts) = t.id ∷ ids ts

pub ids-modify_task :
    (test : Task → Bool) (f : Task → Task)
    → ((t : Task) → (f t).id ≡ t.id)
    → (ts : List Task) → ids (modify_task test f ts) ≡ ids ts
unfolding modify_task
ids-modify_task test f h [] = refl
ids-modify_task test f h (t ∷ ts) = elim (Bool-cases (test t)) [
  | inl e ↦ rw e (ap (λ p. p ∷ ids ts) (h t))
  | inr e ↦ rw e (ap (◌∷◌ t.id) (ids-modify_task test f h ts))
]

find-absent : (i : ℕ) (ts : List Task) → ¬ Has i (ids ts) → find_task (has_id i) ts ≡ none
unfolding find_task
find-absent i [] absent = refl
find-absent i (t ∷ ts) absent =
    let other : (t.id == i) ≡ false = ground (arith, λ (e : t.id ≡ i). absent (inl e)) in
    rw other (find-absent i ts (λ m. absent (inr m)))

-- Where ids are distinct, no task of the id is left behind the removal of one.
pub find-remove_task :
    (i : ℕ) (ts : List Task)
    → Distinct (ids ts)
    → find_task (has_id i) (remove_task (has_id i) ts) ≡ none
unfolding find_task remove_task
find-remove_task i [] d = refl
find-remove_task i (t ∷ ts) d = elim (Bool-cases (t.id == i)) [
  | inl e ↦
      let at : t.id ≡ i = ground (arith, e) in
      rw e (find-absent i ts (subst (λ x. ¬ Has x (ids ts)) at d.0))
  | inr e ↦ rw (e, e) (find-remove_task i ts d.1)
]

pub Has-remove_id :
    (i j : ℕ) (ts : List Task) → j ≢ i → Has j (ids ts) → Has j (ids (remove_task (has_id i) ts))
unfolding remove_task
Has-remove_id i j [] apart m = m
Has-remove_id i j (t ∷ ts) apart m = elim (Bool-cases (t.id == i)) [
  | inl e ↦
      rw e (elim m [ inl at ↦ absurd (apart (sym at ∙ ground (arith, e))) | inr later ↦ later ])
  | inr e ↦ rw e (elim m [ inl at ↦ inl at | inr later ↦ inr (Has-remove_id i j ts apart later) ])
]

pub Has-of_find :
    (test : Task → Bool) (ts : List Task) {t : Task}
    → find_task test ts ≡ some t
    → Has t.ptr (ptrs ts)
unfolding find_task
Has-of_find test [] e = cc
Has-of_find test (u ∷ ts) {t} e = elim (Bool-cases (test u)) [
  | inl h ↦ inl (let same : some u ≡ some t = rw h at e in ap (λ o. ptr_or o) same)
  | inr h ↦ inr (Has-of_find test ts (rw h at e))
]
  where
    ptr_or : Option Task → ℕ
    ptr_or none = 0
    ptr_or (some x) = x.ptr

pub find_passes :
    (test : Task → Bool) (ts : List Task) {t : Task} → find_task test ts ≡ some t → test t ≡ true
unfolding find_task
find_passes test [] e = cc
find_passes test (u ∷ ts) {t} e = ground (arith, find_passes test ts {t = t})
