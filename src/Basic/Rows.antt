-- ===== src/Basic/Rows.antt =====
-- The rows of the program of kernel/ui/basic.c as bytes: what the loop of `basic_add_line` that moves
-- them with `strncpy` of kernel/lib/string.c leaves of their texts.
use mex_os.Base.{
  ℕ, zero, suc, ◌+◌, ◌*◌, ◌<◌, ◌≤◌, ◌≡◌, ◌≢◌, inl, inr, refl, sym, ap, ◌∙◌, List, [], ◌∷◌, length,
  arith,
}
use mex_os.Text.{Text}
use mex_os.Str.{Bytes, strncpy}
use mex_os.Str.Memory.{IsPadded, strncpy-IsPadded}
use mex_os.Basic.{Line, emptied, moved_up}

-- `program[i]`, where the array is at `base`: rows of BASIC_MAX_LINE_LEN bytes.
abbrev pub row : ℕ → ℕ → ℕ
row base i = base + 128 * i

-- `for (i = index + n; i > index; i--)` with the `strncpy` of its rounds, the last round outermost.
unfoldable pub shift_rows : ℕ → ℕ → ℕ → Bytes → Bytes
shift_rows base index zero m = m
shift_rows base index (suc n) m =
    strncpy (row base (index + 1)) (row base index) 128 (shift_rows base (index + 1) n m)

-- A text and its final 0 are at `a`.
abbrev pub IsText : Bytes → ℕ → Text → Type 0
IsText m a [] = m a ≡ 0
IsText m a (c ∷ s) = (m a ≡ c) × (c ≢ 0) × IsText m (a + 1) s

-- The texts of the lines are in the rows from `i` on.
abbrev pub Holds : ℕ → ℕ → List Line → Bytes → Type 0
Holds base i [] m = Unit
Holds base i (l ∷ ls) m =
    IsText m (row base i) l.text × (length l.text < 128) × Holds base (i + 1) ls m

IsText-ends : (m : Bytes) (a : ℕ) (s : Text) → IsText m a s → m (a + length s) ≡ 0
IsText-ends m a [] t = let e : a + 0 ≡ a = omega arith in ap m e ∙ t
IsText-ends m a (c ∷ s) t =
    let e : a + suc (length s) ≡ a + 1 + length s = omega arith in
    ap m e ∙ IsText-ends m (a + 1) s t.2

IsText-chars : (m : Bytes) (a i : ℕ) (s : Text) → IsText m a s → i < length s → m (a + i) ≢ 0
IsText-chars m a i [] t below z = absurd (omega arith)
IsText-chars m a zero (c ∷ s) t below z =
    let e : a ≡ a + 0 = omega arith in t.1 (sym t.0 ∙ ap m e ∙ z)
IsText-chars m a (suc i) (c ∷ s) t below z =
    let e : a + 1 + i ≡ a + suc i = omega arith in
    IsText-chars m (a + 1) i s t.2 (omega (arith, below)) (ap m e ∙ z)

-- The same bytes, with their final 0, are the same text.
IsText-moved :
    (m m' : Bytes) (a d : ℕ) (s : Text)
    → ((i : ℕ) → i < length s → m' (d + i) ≡ m (a + i))
    → m' (d + length s) ≡ 0
    → IsText m a s
    → IsText m' d s
IsText-moved m m' a d [] same ends t = let e : d ≡ d + 0 = omega arith in ap m' e ∙ ends
IsText-moved m m' a d (c ∷ s) same ends t =
    let at_d : d ≡ d + 0 = omega arith in
    let at_a : a + 0 ≡ a = omega arith in
    (
      ap m' at_d ∙ same 0 (omega arith) ∙ ap m at_a ∙ t.0,
      t.1,
      IsText-moved m m' (a + 1) (d + 1) s
          (λ i below.
            (let e : d + 1 + i ≡ d + suc i = omega arith in
              let f : a + suc i ≡ a + 1 + i = omega arith in
              ap m' e ∙ same (suc i) (omega (arith, below)) ∙ ap m f))
          (let e : d + 1 + length s ≡ d + suc (length s) = omega arith in ap m' e ∙ ends) t.2,
    )

Holds-kept :
    (base i : ℕ) (ls : List Line) (m m' : Bytes)
    → ((a : ℕ) → row base i ≤ a → m' a ≡ m a)
    → Holds base i ls m
    → Holds base i ls m'
Holds-kept base i [] m m' same h = tt
Holds-kept base i (l ∷ ls) m m' same h = (
  IsText-moved m m' (row base i) (row base i) l.text (λ k below. same _ (omega arith))
      (same _ (omega arith) ∙ IsText-ends m (row base i) l.text h.0) h.0,
  h.1,
  Holds-kept base (i + 1) ls m m' (λ a le. same a (omega (arith, le))) h.2,
)

-- The rows after the move of the lines from row `i` on.
pub record IsMoved (base i : ℕ) (ls : List Line) (m m' : Bytes) : Type 0 where
  pub moved : Holds base (i + 1) (moved_up ls) m'
  pub behind : 0 < length ls → m' (row base (i + 1 + length ls)) ≡ 0
  pub before : (a : ℕ) → a < row base (i + 1) → m' a ≡ m a

-- The last round moves one row to a place where the others have been moved away from.
one_more :
    (base i : ℕ) (l : Line) (ls : List Line) (m m1 : Bytes)
    → Holds base i (l ∷ ls) m
    → IsMoved base (i + 1) ls m m1
    → IsMoved base i (l ∷ ls) m (strncpy (row base (i + 1)) (row base i) 128 m1)
unfolding moved_up emptied
one_more base i l ls m m1 h w =
    let d : ℕ = row base (i + 1) in
    let s : ℕ = row base i in
    let m2 : Bytes = strncpy d s 128 m1 in
    let there : IsText m1 s l.text =
      IsText-moved m m1 s s l.text (λ k below. w.before _ (omega (arith, below, h.1)))
        (w.before _ (omega (arith, h.1)) ∙ IsText-ends m s l.text h.0) h.0 in
    let p : IsPadded (length l.text) 128 d s m1 m2 =
      strncpy-IsPadded d s (length l.text) 128 m1 h.1 (IsText-ends m1 s l.text there)
        (λ k below. IsText-chars m1 s k l.text there below) (inl (omega (arith, h.1))) in
    let next_zero : m2 (row base (i + 1 + 1)) ≡ 0 =
      (let at : row base (i + 1 + 1) ≡ d + 128 = omega arith in
        ap m2 at ∙ p.zeros 128 (omega (arith, h.1)) (omega arith)) in
    record {
      moved = (
        IsText-moved m1 m2 s d l.text p.text
            (p.zeros (length l.text) (omega arith) (omega (arith, h.1))) there,
        h.1,
        rest ls w.moved next_zero (λ a le. p.outside a (inr (omega (arith, le)))),
      );
      behind = λ _. last ls w.behind next_zero (λ a le. p.outside a (inr (omega (arith, le))));
      before = λ a below. p.outside a (inl below) ∙ w.before a (omega (arith, below));
    }
  where
    rest :
        {m2 : Bytes} (ls : List Line)
        → Holds base (i + 1 + 1) (moved_up ls) m1
        → m2 (row base (i + 1 + 1)) ≡ 0
        → ((a : ℕ) → row base (i + 1 + 1) < a → m2 a ≡ m1 a)
        → Holds base (i + 1 + 1) (emptied ls) m2
    rest [] held z same = tt
    rest {m2} (r ∷ rs) held z same = (
      z,
      omega arith,
      Holds-kept base (i + 1 + 1 + 1) (emptied rs) m1 m2 (λ a le. same a (omega (arith, le)))
          held.2,
    )

    last :
        {m2 : Bytes} (ls : List Line)
        → (0 < length ls → m1 (row base (i + 1 + 1 + length ls)) ≡ 0)
        → m2 (row base (i + 1 + 1)) ≡ 0
        → ((a : ℕ) → row base (i + 1 + 1) < a → m2 a ≡ m1 a)
        → m2 (row base (i + 1 + suc (length ls))) ≡ 0
    last {m2} [] before z same = z
    last {m2} (r ∷ rs) before z same =
        let at : row base (i + 1 + suc (suc (length rs))) ≡ row base (i + 1 + 1 + suc (length rs)) =
          omega arith in
        ap m2 at ∙ same _ (omega arith) ∙ before (omega arith)

-- When the rows of the lines from `index` on, which hold texts shorter than a row, are moved up one
-- by one with `strncpy`, the first of the texts is in the next row, every other row that was moved
-- starts with a 0, and so does what follows the last of them; bytes below the moved rows stay.
pub shift_rows-IsMoved :
    (base index : ℕ) (ls : List Line) (m : Bytes)
    → Holds base index ls m
    → IsMoved base index ls m (shift_rows base index (length ls) m)
unfolding shift_rows moved_up
shift_rows-IsMoved base index [] m h = record {
  moved = tt;
  behind = λ z. absurd (omega (arith, z));
  before = λ a below. refl;
}
shift_rows-IsMoved base index (l ∷ ls) m h =
    one_more base index l ls m (shift_rows base (index + 1) (length ls) m) h
      (shift_rows-IsMoved base (index + 1) ls m h.2)
