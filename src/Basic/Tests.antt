-- ===== src/Basic/Tests.antt =====
-- A small program of kernel/ui/basic.c.
use mex_os.Base.{ℕ, ◌≡◌, refl, true, some, List, [], ◌∷◌, replicate, if◌then◌else◌, ◌==◌, arith}
use mex_os.Text.{Text, clip}
use mex_os.Basic.{
  Line, Basic, basic_add_line, execute_let, skip_spaces, digits_from, str_to_int,
  evaluate_expression,
}
use mex_os.Basic.Sorted.{IsSorted, line_text, basic_add_line-IsSorted}
use mex_os.Basic.Rows.{Holds, IsMoved, shift_rows, shift_rows-IsMoved}
use mex_os.Str.{Bytes}

abbrev print_a : Text
print_a = b'P' ∷ b'R' ∷ b'I' ∷ b'N' ∷ b'T' ∷ b' ' ∷ b'A' ∷ []

abbrev line : ℕ → Line
line n = record { number = n; text = print_a }

abbrev two_lines : Basic
two_lines = record { variables = replicate 26 0; program = line 10 ∷ line 20 ∷ [] }

two_lines-IsSorted : IsSorted 0 two_lines.program
two_lines-IsSorted = (omega arith, (omega arith, tt))

basic_add_line-IsSorted_example :
    ((basic_add_line 5 print_a two_lines).0 ≡ true)
    × IsSorted 0 (basic_add_line 5 print_a two_lines).1.program
    × (line_text 5 (basic_add_line 5 print_a two_lines).1.program ≡ some (clip 127 print_a))
basic_add_line-IsSorted_example =
    basic_add_line-IsSorted 5 print_a two_lines two_lines-IsSorted (omega arith)

-- Two rows with the texts `A` and `B`; every other byte is 0.
abbrev two_rows : Bytes
two_rows a = if a == 0 then b'A' else if a == 128 then b'B' else 0

abbrev short_line : ℕ → ℕ → Line
short_line n c = record { number = n; text = c ∷ [] }

abbrev short_lines : List Line
short_lines = short_line 10 b'A' ∷ short_line 20 b'B' ∷ []

two_rows-Holds : Holds 0 0 short_lines two_rows
two_rows-Holds = (
  (refl, (λ e. omega (arith, e)), refl),
  omega arith,
  ((refl, (λ e. omega (arith, e)), refl), omega arith, tt),
)

shift_rows-IsMoved_example : IsMoved 0 0 short_lines two_rows (shift_rows 0 0 2 two_rows)
shift_rows-IsMoved_example = shift_rows-IsMoved 0 0 short_lines two_rows two_rows-Holds

-- `B = 42`
let_passes :
    execute_let (b'B' ∷ b' ' ∷ b'=' ∷ b' ' ∷ b'4' ∷ b'2' ∷ []) two_lines
    ≡ some (record two_lines { variables = 0 ∷ 42 ∷ replicate 24 0 })
unfolding execute_let skip_spaces evaluate_expression str_to_int digits_from
let_passes = refl
