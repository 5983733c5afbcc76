-- ===== src/Text.antt =====
-- C strings as lists of characters without the final 0: `strncpy` into an array of one more than
-- `n` bytes, `strcmp` against 0, and splitting at a character.
use mex_os.Base.{
  ℕ, zero, suc, ◌≡◌, refl, Bool, true, false, ◌&&◌, Option, none, some, List, [], ◌∷◌,
  if◌then◌else◌, ◌==◌, ==_iff, arith, Bool-cases, inl, inr, length, ◌≤◌,
}

abbrev pub Text : Type 0
Text = List ℕ

-- The first `n` characters.
abbrev pub clip : ℕ → Text → Text
clip zero s = []
clip (suc n) [] = []
clip (suc n) (c ∷ s) = c ∷ clip n s

-- `strcmp(s, t) == 0`
unfoldable pub same_text : Text → Text → Bool
same_text [] [] = true
same_text [] (d ∷ t) = false
same_text (c ∷ s) [] = false
same_text (c ∷ s) (d ∷ t) = (c == d) && same_text s t

-- The text before and after the last `c`.
unfoldable pub split_last : ℕ → Text → Option (Text × Text)
split_last c [] = none
split_last c (d ∷ s) = elim (split_last c s) [
  | some (before, after) ↦ some (d ∷ before, after)
  | none ↦ if d == c then some ([], s) else none
]

abbrev push_head : ℕ → List Text → List Text
push_head d [] = (d ∷ []) ∷ []
push_head d (s ∷ ss) = (d ∷ s) ∷ ss

-- The parts between one `c` and the next.
unfoldable pub split : ℕ → Text → List Text
split c [] = [] ∷ []
split c (d ∷ s) = if d == c then [] ∷ split c s else push_head d (split c s)

pub same_text_refl : (s : Text) → same_text s s ≡ true
unfolding same_text
same_text_refl [] = refl
same_text_refl (c ∷ s) =
    let here : (c == c) ≡ true = (==_iff c c).1 refl in rw (here, same_text_refl s) refl

pub same_text_sound : (s t : Text) → same_text s t ≡ true → s ≡ t
unfolding same_text
same_text_sound [] [] e = refl
same_text_sound [] (d ∷ t) e = cc
same_text_sound (c ∷ s) [] e = cc
same_text_sound (c ∷ s) (d ∷ t) e = elim (Bool-cases (c == d)) [
  | inl same ↦
      let heads : c ≡ d = (==_iff c d).0 same in
      let tails : s ≡ t = same_text_sound s t (rw same at e) in cc
  | inr differ ↦ let f : false ≡ true = rw differ at e in cc
]

pub length-clip : (n : ℕ) (s : Text) → length (clip n s) ≤ n
length-clip zero s = omega arith
length-clip (suc n) [] = omega arith
length-clip (suc n) (c ∷ s) = omega (arith, length-clip n s)
