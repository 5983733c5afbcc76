-- ===== src/Log/Ring.antt =====
-- The ring of log entries as a list, oldest first.
use mex_os.Base.{
  ℕ, zero, suc, ◌+◌, ◌%◌, ◌<◌, ◌≤◌, ◌≡◌, ◌≢◌, refl, ap, ◌∙◌, List, [], ◌∷◌, ◌++◌, get_or, set,
  length, get_elem?, get_or-set_self, get_or-set_ne, arith, none, some, if◌then◌else◌, ltb,
}
use mex_os.Log.{Entry, Log, blank_entry}

-- The `n` entries from slot `start` on, round the end of the 128 slots.
abbrev pub entries_from : List Entry → ℕ → ℕ → List Entry
entries_from buffer start zero = []
entries_from buffer start (suc n) =
    get_or buffer start blank_entry ∷ entries_from buffer ((start + 1) % 128) n

-- All slots are there, the head is one of them, and a log that is not full starts at slot 0.
pub record IsRing (l : Log) : Type 0 where
  pub has_slots : length l.buffer ≡ 128
  pub head_in : l.head < 128
  pub count_in : l.count ≤ 128
  pub from_start : l.count ≢ 128 → l.head ≡ l.count

abbrev pub oldest : Log → ℕ
oldest l = if ltb l.count 128 then 0 else l.head

abbrev pub entries : Log → List Entry
entries l = entries_from l.buffer (oldest l) l.count

pub length-entries_from :
    (buffer : List Entry) (start n : ℕ) → length (entries_from buffer start n) ≡ n
length-entries_from buffer start zero = refl
length-entries_from buffer start (suc n) = ap suc (length-entries_from buffer ((start + 1) % 128) n)

-- An entry written behind the last one comes last.
pub entries_from-set :
    (buffer : List Entry) (e : Entry) (n start end : ℕ)
    → length buffer ≡ 128
    → start < 128
    → n < 128
    → end ≡ (start + n) % 128
    → entries_from (set buffer end e) start (suc n) ≡ entries_from buffer start n ++ (e ∷ [])
entries_from-set buffer e zero start end full inside room at =
    let same : end ≡ start = omega arith in
    ap (λ x. x ∷ [])
      (ap (λ k. get_or (set buffer k e) start blank_entry) same
        ∙ get_or-set_self buffer start e blank_entry (omega arith))
entries_from-set buffer e (suc n) start end full inside room at =
    let apart : end ≢ start = omega arith in
    let later =
      entries_from-set buffer e n ((start + 1) % 128) end full (omega arith) (omega arith)
        (omega arith) in
    ap (λ x. x ∷ entries_from (set buffer end e) ((start + 1) % 128) (suc n))
      (get_or-set_ne buffer end start e blank_entry apart)
    ∙ ap (◌∷◌ (get_or buffer start blank_entry)) later

-- Entry `i` counted from the first slot.
pub get_elem?-entries_from :
    (buffer : List Entry) (start n i : ℕ)
    → start < 128
    → i < n
    → get_elem? (entries_from buffer start n) i
      ≡ some (get_or buffer ((start + i) % 128) blank_entry)
get_elem?-entries_from buffer start zero i inside below = let z : ⊥ = omega arith in elim z [ ]
get_elem?-entries_from buffer start (suc n) zero inside below =
    ap (λ k. some (get_or buffer k blank_entry)) (omega arith)
get_elem?-entries_from buffer start (suc n) (suc i) inside below =
    let at : ((start + 1) % 128 + i) % 128 ≡ (start + suc i) % 128 = omega arith in
    get_elem?-entries_from buffer ((start + 1) % 128) n i (omega arith) (omega arith)
    ∙ ap (λ k. some (get_or buffer k blank_entry)) at

pub get_elem?-eq-none {ℓ} :
    {A : Type ℓ} (xs : List A) (i : ℕ) → length xs ≤ i → get_elem? xs i ≡ none
get_elem?-eq-none [] i past = refl
get_elem?-eq-none (x ∷ xs) zero past = let z : ⊥ = omega arith in elim z [ ]
get_elem?-eq-none (x ∷ xs) (suc i) past = get_elem?-eq-none xs i (omega arith)
