-- ===== src/Pmm/Runs.antt =====
-- `bitmap_first_free_s` finds the lowest start of `size` clear bits.
use mex_os.Base.{
  ℕ, zero, suc, ◌+◌, ◌-◌, ◌*◌, ◌/◌, ◌^◌, ◌≤◌, ◌<◌, ◌≡◌, refl, ap, sym, subst, ◌∙◌, inl, inr, Bool,
  true, false, not, Option, none, some, ◌==◌, ==_iff, Bool-cases, arith, ℕ_discrete, add32,
}
use mex_os.Base.Bits.{bit, bit-ones}
use mex_os.Pmm.Bitmap.{
  Words, is_set, bitmap_test, run_from, first_run, first_free_s_from, bitmap_first_free_s,
  bitmap_first_free,
}
use mex_os.Pmm.Bits.{is_used, is_set-bit, bitmap_test_lem}
use mex_os.Pmm.Scan.{
  FirstClear, FirstClear-skip, FirstClear-widen, bitmap_first_free-FirstClear, block_bit, word_bit,
}

-- The `size` blocks from `start` on are free; block numbers are `uint32_t`.
abbrev pub FreeRun : Words → ℕ → ℕ → Type 0
FreeRun m size start = (d : ℕ) → d < size → is_used m (add32 start d) ≡ false

run_from_sound :
    (n k free : ℕ) (m : Words) (start size : ℕ)
    → k + n ≡ size
    → free ≤ k
    → run_from n k free m start size ≡ true
    → (free ≡ k) × ((d : ℕ) → k ≤ d → d < size → is_used m (add32 start d) ≡ false)
unfolding run_from
run_from_sound zero k free m start size e le h = cc
run_from_sound (suc n) k free m start size e le h =
    elim (Bool-cases (bitmap_test m (add32 start k))) [
      | inl taken ↦
          let again : run_from n (k + 1) free m start size ≡ true = ground arith in
          absurd (
            omega (
              arith,
              (run_from_sound n (k + 1) free m start size (omega arith) (omega arith) again).0,
            ))
      | inr clear ↦
          let here : is_used m (add32 start k) ≡ false =
            sym (bitmap_test_lem m (add32 start k)) ∙ clear in
          elim (Bool-cases (free + 1 == size)) [
            | inl last ↦
                let total : free + 1 ≡ size = (==_iff _ _).0 last in
                (omega arith, λ d p q. ap (λ x. is_used m (add32 start x)) (omega arith) ∙ here)
            | inr more ↦
                let again : run_from n (k + 1) (free + 1) m start size ≡ true = ground arith in
                let ih =
                  run_from_sound n (k + 1) (free + 1) m start size (omega arith) (omega arith)
                    again in
                (
                  omega (arith, ih.0),
                  λ d p q. elim (ℕ_discrete k d) [
                    | yes same ↦ ap (λ x. is_used m (add32 start x)) (sym same) ∙ here
                    | no other ↦ ih.1 d (omega arith) q
                  ],
                )
          ]
    ]

run_from_complete :
    (n k : ℕ) (m : Words) (start size : ℕ)
    → k + n ≡ size
    → k < size
    → ((d : ℕ) → k ≤ d → d < size → is_used m (add32 start d) ≡ false)
    → run_from n k k m start size ≡ true
unfolding run_from
run_from_complete zero k m start size e lt free = absurd (omega arith)
run_from_complete (suc n) k m start size e lt free =
    let clear : bitmap_test m (add32 start k) ≡ false =
      bitmap_test_lem m (add32 start k) ∙ free k (omega arith) lt in
    elim (Bool-cases (k + 1 == size)) [
      | inl last ↦ rw (clear, last) refl
      | inr more ↦
          rw (clear, more)
            (run_from_complete n (k + 1) m start size (omega arith) (ground arith)
              (λ d p q. free d (omega arith) q))
    ]

-- Whether some block of the run is taken, as the code counts.
abbrev busy : Words → ℕ → ℕ → Bool
busy m size f = not (run_from size 0 0 m f size)

free_of_busy : (m : Words) (size f : ℕ) → busy m size f ≡ false → FreeRun m size f
free_of_busy m size f h d p =
    (run_from_sound size 0 0 m f size (omega arith) (omega arith) (ground arith)).1 d (omega arith)
      p

not_free_of_busy : (m : Words) (size f : ℕ) → 0 < size → busy m size f ≡ true → ¬ FreeRun m size f
not_free_of_busy m size f pos h free =
    cc (run_from_complete size 0 m f size (omega arith) pos (λ d p q. free d q))

busy_of_used :
    (m : Words) (size f : ℕ) → f < 2 ^ 32 → 0 < size → is_used m f ≡ true → busy m size f ≡ true
busy_of_used m size f w pos h = elim (Bool-cases (busy m size f)) [
  | inl e ↦ e
  | inr e ↦
      let at_start : add32 f 0 ≡ f = omega arith in
      let clear : is_used m (add32 f 0) ≡ false = free_of_busy m size f e 0 pos in
      cc (ap (is_used m) at_start)
]

first_run_lem :
    (n j : ℕ) (m : Words) (i size : ℕ)
    → j + n ≤ 32
    → i * 32 + 32 ≤ 2 ^ 32
    → 0 < size
    → FirstClear (busy m size) (i * 32 + j) (i * 32 + (j + n)) (first_run n j m i size)
unfolding first_run
first_run_lem zero j m i size le fit pos = λ f p q. absurd (omega arith)
first_run_lem (suc n) j m i size le fit pos =
    let start = i * 32 + j in
    let hi = i * 32 + (j + suc n) in
    let rest = first_run n (j + 1) m i size in
    let ih : FirstClear (busy m size) (i * 32 + (j + 1)) hi rest =
      subst (λ k. FirstClear (busy m size) (i * 32 + (j + 1)) k rest) (omega arith)
        (first_run_lem n (j + 1) m i size (omega arith) fit pos) in
    let past : busy m size start ≡ true → FirstClear (busy m size) start hi rest = λ b.
      FirstClear-skip (busy m size) start (i * 32 + (j + 1)) hi rest (omega arith)
        (λ f p q. ap (busy m size) (omega arith) ∙ b) ih in
    let bit_j : is_set (m i) j ≡ is_used m start =
      is_set-bit (m i) j (omega arith) ∙ sym (word_bit m i j (omega arith)) in
    elim (Bool-cases (is_used m start)) [
      | inl taken ↦ rw (bit_j, taken) (past (busy_of_used m size start (omega arith) pos taken))
      | inr clear ↦ elim (Bool-cases (run_from size 0 0 m start size)) [
        | inl run ↦
            rw (bit_j, clear, run)
              (omega arith, omega arith, ap not run, λ f p q. absurd (omega arith))
        | inr none_here ↦ rw (bit_j, clear, none_here) (past (ap not none_here))
      ]
    ]

scan_runs :
    (m : Words) (i hi size : ℕ) (rest o : Option ℕ)
    → i * 32 + 32 ≤ hi
    → FirstClear (busy m size) (i * 32) (i * 32 + 32) o
    → FirstClear (busy m size) (i * 32 + 32) hi rest
    → FirstClear (busy m size) (i * 32) hi (elim o [ some s ↦ some s | none ↦ rest ])
scan_runs m i hi size rest none le c h =
    FirstClear-skip (busy m size) (i * 32) (i * 32 + 32) hi rest (omega arith) c h
scan_runs m i hi size rest (some s) le c h =
    FirstClear-widen (busy m size) (i * 32) (i * 32 + 32) hi s le c

first_free_s_from_lem :
    (n i : ℕ) (m : Words) (size : ℕ)
    → (i + n) * 32 ≤ 2 ^ 32
    → 0 < size
    → FirstClear (busy m size) (i * 32) ((i + n) * 32) (first_free_s_from n i m size)
unfolding first_free_s_from
first_free_s_from_lem zero i m size fit pos = λ f p q. absurd (omega arith)
first_free_s_from_lem (suc n) i m size fit pos =
    let hi = (i + suc n) * 32 in
    let rest = first_free_s_from n (i + 1) m size in
    let later : FirstClear (busy m size) (i * 32 + 32) hi rest =
      subst (λ k. FirstClear (busy m size) k hi rest) (omega arith)
        (subst (λ k. FirstClear (busy m size) ((i + 1) * 32) k rest) (omega arith)
          (first_free_s_from_lem n (i + 1) m size (omega arith) pos)) in
    elim (Bool-cases (m i == 0xFFFFFFFF)) [
      | inl full ↦ rw full (
          FirstClear-skip (busy m size) (i * 32) (i * 32 + 32) hi rest (omega arith)
            (λ f p q. busy_of_used m size f (omega arith) pos (
              block_bit m i f p q
              ∙ ap (λ x. bit x (f - i * 32)) ((==_iff (m i) 0xFFFFFFFF).0 full)
              ∙ bit-ones (f - i * 32) (omega arith)))
            later)
      | inr some_clear ↦ rw some_clear (
          scan_runs m i hi size rest (first_run 32 0 m i size) (omega arith)
            (subst (λ k. FirstClear (busy m size) k (i * 32 + 32) (first_run 32 0 m i size))
              (omega arith) (first_run_lem 32 0 m i size (omega arith) (omega arith) pos))
            later)
    ]

-- `o` is the lowest start below `hi` of `size` free blocks, `none` if there is none.
abbrev pub FirstRun : Words → ℕ → ℕ → Option ℕ → Type 0
FirstRun m size hi none = (f : ℕ) → f < hi → ¬ FreeRun m size f
FirstRun m size hi (some r) = (r < hi) × FreeRun m size r × ((f : ℕ) → f < r → ¬ FreeRun m size f)

FirstRun-of_FirstClear :
    (m : Words) (size hi : ℕ) (o : Option ℕ)
    → 0 < size
    → FirstClear (busy m size) 0 hi o
    → FirstRun m size hi o
FirstRun-of_FirstClear m size hi none pos h =
    λ f p. not_free_of_busy m size f pos (h f (omega arith) p)
FirstRun-of_FirstClear m size hi (some r) pos h =
    (h.1, free_of_busy m size r h.2, λ f p. not_free_of_busy m size f pos (h.3 f (omega arith) p))

one_run : (m : Words) (f : ℕ) → f < 2 ^ 32 → is_used m f ≡ busy m 1 f
one_run m f w = elim (Bool-cases (is_used m f)) [
  | inl taken ↦ taken ∙ sym (busy_of_used m 1 f w (omega arith) taken)
  | inr clear ↦
      let first : (d : ℕ) → 0 ≤ d → d < 1 → is_used m (add32 f d) ≡ false =
        λ d p q. ap (is_used m) (omega arith) ∙ clear in
      clear ∙ sym (ap not (run_from_complete 1 0 m f 1 (omega arith) (omega arith) first))
]

FirstClear-cong :
    (p q : ℕ → Bool) (hi : ℕ) (o : Option ℕ)
    → ((f : ℕ) → f < hi → p f ≡ q f)
    → FirstClear p 0 hi o
    → FirstClear q 0 hi o
FirstClear-cong p q hi none e h = λ f a b. sym (e f b) ∙ h f a b
FirstClear-cong p q hi (some r) e h =
    (h.0, h.1, sym (e r h.1) ∙ h.2, λ f a b. sym (e f (omega arith)) ∙ h.3 f a b)

-- The search for a run of `size` blocks, one included, returns the lowest start, and fails only
-- if no run starts in the words that it covers.
pub bitmap_first_free_s-FirstRun :
    (m : Words) (max_blocks size : ℕ)
    → max_blocks ≤ 2 ^ 32
    → 0 < size
    → FirstRun m size (max_blocks / 32 * 32) (bitmap_first_free_s m max_blocks size)
unfolding bitmap_first_free_s
bitmap_first_free_s-FirstRun m max_blocks size fit pos =
    let hi = max_blocks / 32 * 32 in
    let some_size : (size == 0) ≡ false = ground arith in
    elim (Bool-cases (size == 1)) [
      | inl one ↦
          let e : 1 ≡ size = sym ((==_iff size 1).0 one) in
          rw (some_size, one)
            (FirstRun-of_FirstClear m size hi (bitmap_first_free m max_blocks) pos (
              subst (λ k. FirstClear (busy m k) 0 hi (bitmap_first_free m max_blocks)) e
                (FirstClear-cong (is_used m) (busy m 1) hi (bitmap_first_free m max_blocks)
                  (λ f p. one_run m f (omega arith)) (bitmap_first_free-FirstClear m max_blocks))))
      | inr more ↦
          rw (some_size, more)
            (FirstRun-of_FirstClear m size hi (first_free_s_from (max_blocks / 32) 0 m size) pos (
              subst
                (λ k. FirstClear (busy m size) 0 k (first_free_s_from (max_blocks / 32) 0 m size))
                (omega arith) (first_free_s_from_lem (max_blocks / 32) 0 m size (omega arith) pos)))
    ]
