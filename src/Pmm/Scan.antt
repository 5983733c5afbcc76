-- ===== src/Pmm/Scan.antt =====
-- `bitmap_first_free` finds the lowest clear bit of the whole words of the bitmap, whichever
-- words its first test skips.
use mex_os.Base.{
  ℕ, zero, suc, ◌+◌, ◌-◌, ◌*◌, ◌/◌, ◌%◌, ◌≤◌, ◌<◌, ◌≡◌, refl, ap, subst, ◌∙◌, inl, inr, Bool, true,
  false, Option, none, some, ◌==◌, ==_iff, Bool-cases, arith, dec_lt,
}
use mex_os.Base.Bits.{bit, bit-ones}
use mex_os.Pmm.Bitmap.{Words, first_clear, first_free_from, bitmap_first_free}
use mex_os.Pmm.Bits.{is_used, is_set-bit}

-- `o` is the lowest number in `[lo, hi)` that is not used, `none` if all are.
abbrev pub FirstClear : (ℕ → Bool) → ℕ → ℕ → Option ℕ → Type 0
FirstClear used lo hi none = (f : ℕ) → lo ≤ f → f < hi → used f ≡ true
FirstClear used lo hi (some r) =
    (lo ≤ r) × (r < hi) × (used r ≡ false) × ((f : ℕ) → lo ≤ f → f < r → used f ≡ true)

pub FirstClear-skip :
    (used : ℕ → Bool) (lo mid hi : ℕ) (o : Option ℕ)
    → lo ≤ mid
    → ((f : ℕ) → lo ≤ f → f < mid → used f ≡ true)
    → FirstClear used mid hi o
    → FirstClear used lo hi o
FirstClear-skip used lo mid hi none le below h =
    λ f p q. elim (dec_lt f mid) [ yes lt ↦ below f p lt | no ge ↦ h f (omega arith) q ]
FirstClear-skip used lo mid hi (some r) le below h = (
  omega arith,
  h.1,
  h.2,
  λ f p q. elim (dec_lt f mid) [ yes lt ↦ below f p lt | no ge ↦ h.3 f (omega arith) q ],
)

first_clear_lem : (n j w : ℕ) → j + n ≤ 32 → FirstClear (bit w) j (j + n) (first_clear n j w)
unfolding first_clear
first_clear_lem zero j w h = λ f p q. absurd (omega arith)
first_clear_lem (suc n) j w h = elim (Bool-cases (bit w j)) [
  | inl e ↦
      rw (is_set-bit w j (omega arith), e)
        (FirstClear-skip (bit w) j (j + 1) (j + suc n) (first_clear n (j + 1) w) (omega arith)
          (λ f p q. rw (eq_between f j p q) e)
          (rw shift (first_clear_lem n (j + 1) w (omega arith))))
  | inr e ↦
      rw (is_set-bit w j (omega arith), e)
        (omega arith, omega arith, e, λ f p q. absurd (omega arith))
]
  where
    shift : j + suc n ≡ j + 1 + n
    shift = omega arith

    eq_between : (f i : ℕ) → i ≤ f → f < i + 1 → f ≡ i
    eq_between f i p q = omega arith

-- The bits of one word are the blocks from `i * 32` on.
pub word_bit : (m : Words) (i j : ℕ) → j < 32 → is_used m (i * 32 + j) ≡ bit (m i) j
word_bit m i j h =
    let word : (i * 32 + j) / 32 ≡ i = omega arith in
    let place : (i * 32 + j) % 32 ≡ j = omega arith in rw (word, place) refl

pub block_bit :
    (m : Words) (i f : ℕ) → i * 32 ≤ f → f < i * 32 + 32 → is_used m f ≡ bit (m i) (f - i * 32)
block_bit m i f p q = ap (is_used m) (omega arith) ∙ word_bit m i (f - i * 32) (omega arith)

first_in_word :
    (m : Words) (i j : ℕ)
    → FirstClear (bit (m i)) 0 32 (some j)
    → FirstClear (is_used m) (i * 32) (i * 32 + 32) (some (i * 32 + j))
first_in_word m i j h = (
  omega arith,
  omega arith,
  word_bit m i j (omega arith) ∙ h.2,
  λ f p q. block_bit m i f p (omega arith) ∙ h.3 (f - i * 32) (omega arith) (omega arith),
)

pub FirstClear-widen :
    (used : ℕ → Bool) (lo hi wide r : ℕ)
    → hi ≤ wide
    → FirstClear used lo hi (some r)
    → FirstClear used lo wide (some r)
FirstClear-widen used lo hi wide r le h = (h.0, omega arith, h.2, h.3)

-- One word, given what the search of the later words finds.
module _ (m : Words) (i hi : ℕ) (rest : Option ℕ) where
  past_word :
      i * 32 + 32 ≤ hi
      → ((f : ℕ) → i * 32 ≤ f → f < i * 32 + 32 → is_used m f ≡ true)
      → FirstClear (is_used m) ((i + 1) * 32) hi rest
      → FirstClear (is_used m) (i * 32) hi rest
  past_word le full h =
      FirstClear-skip (is_used m) (i * 32) ((i + 1) * 32) hi rest (omega arith)
        (λ f p q. full f p (omega arith)) h

  scan_word :
      (o : Option ℕ)
      → i * 32 + 32 ≤ hi
      → FirstClear (bit (m i)) 0 32 o
      → FirstClear (is_used m) ((i + 1) * 32) hi rest
      → FirstClear (is_used m) (i * 32) hi (elim o [ some j ↦ some (i * 32 + j) | none ↦ rest ])
  scan_word none le c h =
      past_word le (λ f p q. block_bit m i f p q ∙ c (f - i * 32) (omega arith) (omega arith)) h
  scan_word (some j) le c h =
      FirstClear-widen (is_used m) (i * 32) (i * 32 + 32) hi (i * 32 + j) le (first_in_word m i j c)

first_free_from_lem :
    (n i : ℕ) (m : Words) → FirstClear (is_used m) (i * 32) ((i + n) * 32) (first_free_from n i m)
unfolding first_free_from
first_free_from_lem zero i m = λ f p q. absurd (omega arith)
first_free_from_lem (suc n) i m =
    let hi = (i + suc n) * 32 in
    let rest = first_free_from n (i + 1) m in
    let e : (i + 1 + n) * 32 ≡ hi = omega arith in
    let later : FirstClear (is_used m) ((i + 1) * 32) hi rest =
      subst (λ k. FirstClear (is_used m) ((i + 1) * 32) k rest) e
        (first_free_from_lem n (i + 1) m) in
    elim (Bool-cases (m i == 0xFFFFFFFF)) [
      | inl full ↦ rw full (
          past_word m i hi rest (omega arith)
            (λ f p q.
              block_bit m i f p q
              ∙ ap (λ x. bit x (f - i * 32)) ((==_iff (m i) 0xFFFFFFFF).0 full)
              ∙ bit-ones (f - i * 32) (omega arith))
            later)
      | inr some_clear ↦ rw some_clear (
          scan_word m i hi rest (first_clear 32 0 (m i)) (omega arith)
            (first_clear_lem 32 0 (m i) (omega arith)) later)
    ]

-- The search returns the lowest free block of the words it covers, and fails only if all are
-- taken.
pub bitmap_first_free-FirstClear :
    (m : Words) (max_blocks : ℕ)
    → FirstClear (is_used m) 0 (max_blocks / 32 * 32) (bitmap_first_free m max_blocks)
unfolding bitmap_first_free
bitmap_first_free-FirstClear m max_blocks =
    subst (λ k. FirstClear (is_used m) 0 k (first_free_from (max_blocks / 32) 0 m)) (omega arith)
      (first_free_from_lem (max_blocks / 32) 0 m)
