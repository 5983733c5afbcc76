-- ===== src/Basic.antt =====
-- The program store and the variables of the interpreter, kernel/ui/basic.c and basic.h.
pub mod Sorted
pub mod Rows
mod Tests
use mex_os.Base.{
  ℕ, zero, suc, ◌+◌, ◌-◌, ◌*◌, ◌/◌, ◌%◌, ◌^◌, Bool, true, false, not, ◌&&◌, ◌||◌, Option, none,
  some, List, [], ◌∷◌, if◌then◌else◌, ltb, leb, ◌==◌, get_or, set, replicate, length, add32, sub32,
  mul32, minus_one,
}
use mex_os.Text.{Text, clip}

pub record Line : Type 0 where
  pub number : ℕ
  pub text : Text

-- `program` is the first `line_count` entries of the arrays `line_numbers` and `program`.
pub record Basic : Type 0 where
  pub variables : List ℕ
  pub program : List Line

unfoldable pub skip_spaces : Text → Text
skip_spaces [] = []
skip_spaces (c ∷ s) =
    let rest = skip_spaces s in if (c == b' ') || (c == b'\t') then rest else c ∷ s

abbrev is_digit : ℕ → Bool
is_digit c = leb b'0' c && leb c b'9'

abbrev is_letter : ℕ → Bool
is_letter c = leb b'A' c && leb c b'Z'

-- The loop of `str_to_int`, in 32 bits.
unfoldable pub digits_from : ℕ → Text → ℕ
digits_from result [] = result
digits_from result (c ∷ s) =
    let more = digits_from (add32 (mul32 result 10) (c - b'0')) s in
    if is_digit c then more else result

abbrev unsigned_or_negated : Text → ℕ
unsigned_or_negated [] = 0
unsigned_or_negated (c ∷ s) = if c == b'-' then sub32 0 (digits_from 0 s) else digits_from 0 (c ∷ s)

unfoldable pub str_to_int : Text → ℕ
str_to_int s = unsigned_or_negated (skip_spaces s)

abbrev value_of : List ℕ → Text → ℕ
value_of variables [] = 0
value_of variables (c ∷ s) =
    if is_letter c
    then get_or variables (c - b'A') 0
    else if (c == b'-') || is_digit c
    then str_to_int (c ∷ s)
    else 0

unfoldable pub evaluate_expression : List ℕ → Text → ℕ
evaluate_expression variables s = value_of variables (skip_spaces s)

-- What stands behind `=`, if there is one.
abbrev behind_equals : Text → Option Text
behind_equals [] = none
behind_equals (c ∷ s) = if c == b'=' then some s else none

abbrev assign : Basic → Text → Option Basic
assign b [] = none
assign b (c ∷ s) = elim (behind_equals (skip_spaces s)) [
  | none ↦ none
  | some value ↦
      if is_letter c
      then some (record b {
        variables = set b.variables (c - b'A') (evaluate_expression b.variables value);
      })
      else none
]

-- `none` for -1.
unfoldable pub execute_let : Text → Basic → Option Basic
execute_let s b = assign b (skip_spaces s)

unfoldable pub basic_init : Basic
basic_init = record { variables = replicate 26 0; program = [] }

unfoldable pub basic_clear_program : Basic → Basic
basic_clear_program b = record b { program = [] }

abbrev pub max_lines : ℕ
max_lines = 100

abbrev pub new_line : ℕ → Text → Line
new_line number text = record { number = number; text = clip 127 text }

-- The texts in the rows behind the first that is moved up: the `strncpy` that moves the row before
-- ends with a 0 at the start of such a row, as `shift_rows` of Basic/Rows.antt derives byte by byte.
unfoldable pub emptied : List Line → List Line
emptied [] = []
emptied (l ∷ ls) = record l { text = [] } ∷ emptied ls

unfoldable pub moved_up : List Line → List Line
moved_up [] = []
moved_up (l ∷ ls) = l ∷ emptied ls

-- The line goes before the first of a higher number, or in the place of that of the same number.
unfoldable pub insert_line : ℕ → Text → List Line → List Line
insert_line number text [] = new_line number text ∷ []
insert_line number text (l ∷ ls) =
    let rest = insert_line number text ls in
    if l.number == number
    then record l { text = clip 127 text } ∷ ls
    else if ltb number l.number
    then new_line number text ∷ moved_up (l ∷ ls)
    else l ∷ rest

-- Whether the line goes in front of another; else it replaces one or is put last.
unfoldable pub goes_before : ℕ → List Line → Bool
goes_before number [] = false
goes_before number (l ∷ ls) =
    let rest = goes_before number ls in
    if l.number == number then false else if ltb number l.number then true else rest

-- The row behind the last is the first number: its lowest byte becomes 0.
abbrev first_cut : List Line → List Line
first_cut [] = []
first_cut (l ∷ ls) = record l { number = l.number - l.number % 256 } ∷ ls

-- An insertion in front of one of 99 lines moves a line into the last row. The first number is then
-- cut before it is moved itself.
abbrev insert_cut : ℕ → Text → List Line → List Line
insert_cut number text [] = []
insert_cut number text (l ∷ ls) =
    if ltb number l.number
    then new_line number text ∷ moved_up (first_cut (l ∷ ls))
    else first_cut (insert_line number text (l ∷ ls))

abbrev place_line : ℕ → Text → List Line → List Line
place_line number text ls =
    if goes_before number ls && (length ls == 99)
    then insert_cut number text ls
    else insert_line number text ls

-- Whether it returned 0.
unfoldable pub basic_add_line : ℕ → Text → Basic → Bool × Basic
basic_add_line number text b =
    if leb max_lines (length b.program)
    then (false, b)
    else (true, record b { program = place_line number text b.program })
