-- ===== src/Sched/Sleep.antt =====
-- What `sched_block` of kernel/sched/sched.c makes of the task that calls it.
use mex_os.Base.{
  ℕ, ◌≡◌, ◌≢◌, inl, inr, refl, sym, ap, ◌∙◌, subst, Bool, true, false, ◌&&◌, some, none, List, [],
  ◌∷◌, ◌++◌, ◌==◌, ==_iff, Bool-cases, arith,
}
use mex_os.Sched.Task.{
  Task, Sched, ready, blocked, is_ready, is_running, find_task, modify_task, has_ptr, has_id,
  set_state, dispatch, demote, schedule, sched_block, current_task,
}
use mex_os.Sched.Queue.{ptrs, Has, Distinct, ptrs-modify_task, find_passes}
use mex_os.Sched.Pick.{pick_next_task-IsPicked}
use mex_os.Sched.Wait.{find-modify_same}

found_is : (u : Task) {t : Task} → some u ≡ some t → u ≡ t
found_is u e = ap (λ o. elim o [ some x ↦ x | none ↦ u ]) e

-- A change of the task that is the first at its address and the first of its id.
find_id-modify_ptr :
    (p i : ℕ) (f : Task → Task) (ts : List Task) {t : Task}
    → ((u : Task) → (f u).id ≡ u.id)
    → find_task (has_ptr p) ts ≡ some t
    → find_task (has_id i) ts ≡ some t
    → find_task (has_id i) (modify_task (has_ptr p) f ts) ≡ some (f t)
unfolding find_task modify_task
find_id-modify_ptr p i f [] same hit e = cc
find_id-modify_ptr p i f (u ∷ ts) {t} same hit e =
    let at_p : has_ptr p t ≡ true = find_passes (has_ptr p) (u ∷ ts) hit in
    let of_i : has_id i t ≡ true = find_passes (has_id i) (u ∷ ts) e in
    elim (Bool-cases (has_ptr p u)) [
      | inl here ↦
          let is : u ≡ t = found_is u (rw here at hit) in
          let mine : has_id i (f u) ≡ true = ap (λ x. x == i) (same u) ∙ ap (has_id i) is ∙ of_i in
          rw here (rw mine (ap (λ x. some (f x)) is))
      | inr miss ↦ elim (Bool-cases (has_id i u)) [
        | inl mine ↦
            let is : u ≡ t = found_is u (rw mine at e) in
            let f : false ≡ true = sym miss ∙ ap (has_ptr p) is ∙ at_p in cc
        | inr other ↦ rw miss (
            rw other (
              find_id-modify_ptr p i f ts same (rw (miss, find_task) at hit)
                (rw (other, find_task) at e)))
      ]
    ]

-- A change of tasks that fail a test that the task with the id passes.
find_id-modify_other :
    (i : ℕ) (test : Task → Bool) (f : Task → Task) (ts : List Task) {t : Task}
    → ((u : Task) → (f u).id ≡ u.id)
    → test t ≡ false
    → find_task (has_id i) ts ≡ some t
    → find_task (has_id i) (modify_task test f ts) ≡ some t
unfolding find_task modify_task
find_id-modify_other i test f [] same miss e = cc
find_id-modify_other i test f (u ∷ ts) {t} same miss e = elim (Bool-cases (has_id i u)) [
  | inl mine ↦
      let is : u ≡ t = found_is u (rw mine at e) in
      let kept : test u ≡ false = ap test is ∙ miss in rw kept (rw mine (ap some is))
  | inr other ↦ elim (Bool-cases (test u)) [
    | inl changes ↦
        let still : has_id i (f u) ≡ false = ap (λ x. x == i) (same u) ∙ other in
        rw changes (rw still (rw (other, find_task) at e))
    | inr stays ↦
        rw stays
          (rw other (find_id-modify_other i test f ts same miss (rw (other, find_task) at e)))
  ]
]

Has-behind :
    (before : List Task) (b : Task) (after : List Task) → Has b.ptr (ptrs (before ++ (b ∷ after)))
Has-behind [] b after = inl refl
Has-behind (t ∷ ts) b after = inr (Has-behind ts b after)

-- A task of a queue with distinct addresses is found by its address.
find-middle :
    (before : List Task) (b : Task) (after : List Task)
    → Distinct (ptrs (before ++ (b ∷ after)))
    → find_task (has_ptr b.ptr) (before ++ (b ∷ after)) ≡ some b
unfolding find_task
find-middle [] b after d =
    let self : has_ptr b.ptr b ≡ true = (==_iff b.ptr b.ptr).1 refl in rw self refl
find-middle (t ∷ ts) b after d = elim (Bool-cases (has_ptr b.ptr t)) [
  | inl same ↦
      let e : t.ptr ≡ b.ptr = (==_iff t.ptr b.ptr).0 same in
      absurd (d.0 (subst (λ p. Has p (ptrs (ts ++ (b ∷ after)))) (sym e) (Has-behind ts b after)))
  | inr other ↦ rw other (find-middle ts b after d.1)
]

module _ {H : Type 0} where
  -- `schedule` leaves a blocked task as it is.
  schedule-blocked :
      (i : ℕ) (s : Sched H) (u : Task)
      → Distinct (ptrs s.tasks)
      → find_task (has_ptr u.ptr) s.tasks ≡ some u
      → find_task (has_id i) s.tasks ≡ some u
      → u.state ≡ blocked
      → find_task (has_id i) (schedule s).tasks ≡ some u
  unfolding schedule demote
  schedule-blocked i s u d hit e sleeps = elim (pick_next_task-IsPicked s.tasks) [
    | inl (none_ready, _) ↦ rw (none_ready, schedule) e
    | inr (b, picked, p) ↦
        let found : find_task (has_ptr b.ptr) s.tasks ≡ some b =
          subst (λ ts. find_task (has_ptr b.ptr) ts ≡ some b) (sym p.split)
            (find-middle p.before b p.after (subst (λ ts. Distinct (ptrs ts)) p.split d)) in
        let apart : u.ptr ≢ b.ptr = λ same.
          (let is : u ≡ b =
              found_is u (sym hit ∙ ap (λ q. find_task (has_ptr q) s.tasks) same ∙ found) in
            let f : true ≡ false =
              sym p.is_ready_task ∙ ap (λ x. is_ready x.state) (sym is) ∙ ap is_ready sleeps in
            cc) in
        let not_demoted : (has_ptr s.current u && is_running u.state) ≡ false =
          ground (arith, ap is_running sleeps) in
        let not_picked : has_ptr b.ptr u ≡ false = ground (arith, apart) in
        rw (picked, schedule)
          (find_id-modify_other i (has_ptr b.ptr) dispatch (demote s) (λ x. refl) not_picked
            (find_id-modify_other i (λ x. has_ptr s.current x && is_running x.state)
              (set_state ready) s.tasks (λ x. refl) not_demoted e))
  ]

  -- The current task is blocked after `sched_block`, whatever runs next.
  pub sched_block-blocked :
      (i : ℕ) (s : Sched H) (t : Task)
      → Distinct (ptrs s.tasks)
      → current_task s ≡ some t
      → find_task (has_id i) s.tasks ≡ some t
      → find_task (has_id i) (sched_block s).tasks ≡ some (set_state blocked t)
  unfolding sched_block current_task
  sched_block-blocked i s t d caller e = elim (Bool-cases (s.current == 0)) [
    | inl null ↦ let f : none ≡ some t = rw (null, current_task) at caller in cc
    | inr there ↦
        let hit : find_task (has_ptr s.current) s.tasks ≡ some t =
          rw (there, current_task) at caller in
        let at : t.ptr ≡ s.current =
          (==_iff t.ptr s.current).0 (find_passes (has_ptr s.current) s.tasks hit) in
        let tasks : List Task = modify_task (has_ptr s.current) (set_state blocked) s.tasks in
        let still : find_task (has_ptr t.ptr) tasks ≡ some (set_state blocked t) =
          subst (λ p. find_task (has_ptr p) tasks ≡ some (set_state blocked t)) (sym at)
            (find-modify_same (has_ptr s.current) (set_state blocked) s.tasks hit (λ u h. h)) in
        rw (caller, sched_block)
          (schedule-blocked i (record s { tasks = tasks }) (set_state blocked t)
            (subst Distinct
              (sym (ptrs-modify_task (has_ptr s.current) (set_state blocked) (λ u. refl) s.tasks))
              d)
            still (find_id-modify_ptr s.current i (set_state blocked) s.tasks (λ u. refl) hit e)
            refl)
  ]
