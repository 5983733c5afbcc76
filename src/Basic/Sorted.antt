-- ===== src/Basic/Sorted.antt =====
-- The program of kernel/ui/basic.c stays in the order of its line numbers.
use mex_os.Base.{
  ℕ, ◌+◌, ◌≤◌, ◌<◌, ◌≡◌, inl, inr, refl, true, false, ◌&&◌, Option, none, some, List, [], ◌∷◌,
  if◌then◌else◌, ltb, leb, ◌==◌, length, arith, Bool-cases,
}
use mex_os.Text.{Text, clip}
use mex_os.Basic.{
  Line, Basic, max_lines, emptied, moved_up, insert_line, goes_before, basic_add_line,
}

-- The numbers ascend from `low` on, no two the same.
abbrev pub IsSorted : ℕ → List Line → Type 0
IsSorted low [] = Unit
IsSorted low (l ∷ ls) = (low ≤ l.number) × IsSorted (l.number + 1) ls

-- The text of the line of a number.
pub line_text : ℕ → List Line → Option Text
line_text number [] = none
line_text number (l ∷ ls) = if l.number == number then some l.text else line_text number ls

emptied-IsSorted : (low : ℕ) (ls : List Line) → IsSorted low ls → IsSorted low (emptied ls)
unfolding emptied
emptied-IsSorted low [] s = tt
emptied-IsSorted low (l ∷ ls) s = (s.0, emptied-IsSorted (l.number + 1) ls s.1)

insert_line-IsSorted :
    (low number : ℕ) (text : Text) (ls : List Line)
    → low ≤ number
    → IsSorted low ls
    → IsSorted low (insert_line number text ls)
unfolding insert_line moved_up
insert_line-IsSorted low number text [] le s = (le, tt)
insert_line-IsSorted low number text (l ∷ ls) le s = elim (Bool-cases (l.number == number)) [
  | inl same ↦ rw (same, insert_line) s
  | inr other ↦ elim (Bool-cases (ltb number l.number)) [
    | inl before ↦
        rw (other, before, insert_line, moved_up)
          (le, (ground (arith, before), emptied-IsSorted (l.number + 1) ls s.1))
    | inr behind ↦
        rw (other, behind, insert_line)
          (
            s.0,
            insert_line-IsSorted (l.number + 1) number text ls (ground (arith, other, behind)) s.1,
          )
  ]
]

line_text-insert_line :
    (number : ℕ) (text : Text) (ls : List Line)
    → line_text number (insert_line number text ls) ≡ some (clip 127 text)
unfolding insert_line line_text
line_text-insert_line number text [] =
    let self : (number == number) ≡ true = ground arith in rw self refl
line_text-insert_line number text (l ∷ ls) = elim (Bool-cases (l.number == number)) [
  | inl same ↦ rw (same, insert_line, same, line_text) refl
  | inr other ↦ elim (Bool-cases (ltb number l.number)) [
    | inl before ↦
        let self : (number == number) ≡ true = ground arith in
        rw (other, before, insert_line) (rw (self, line_text) refl)
    | inr behind ↦
        rw (other, behind, insert_line)
          (rw (other, line_text) (line_text-insert_line number text ls))
  ]
]

-- Adding a line to a program of fewer than 99 lines in order succeeds, keeps the order, and puts the
-- text, cut to 127 characters, under the number.
pub basic_add_line-IsSorted :
    (number : ℕ) (text : Text) (b : Basic)
    → IsSorted 0 b.program
    → length b.program < 99
    → ((basic_add_line number text b).0 ≡ true)
      × IsSorted 0 (basic_add_line number text b).1.program
      × (line_text number (basic_add_line number text b).1.program ≡ some (clip 127 text))
unfolding basic_add_line
basic_add_line-IsSorted number text b s room =
    let space : leb max_lines (length b.program) ≡ false = ground (arith, room) in
    let no_cut : (goes_before number b.program && (length b.program == 99)) ≡ false =
      ground (arith, room) in
    rw (space, no_cut, basic_add_line)
      (
        refl,
        insert_line-IsSorted 0 number text b.program (omega arith) s,
        line_text-insert_line number text b.program,
      )
