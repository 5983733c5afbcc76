-- ===== src/Base/Words.antt =====
-- `uint32_t` and `int` arithmetic: words below `2 ^ 32`, with the wrap written out. An `int` is
-- its bit pattern where it is only stored, compared for equality or cast.
use Prim.Native.Nat.{ℕ, ◌+◌, ◌-◌, ◌*◌, ◌/◌, ◌%◌, ◌^◌}
use mathlib.Core.Bool.{Bool}
use mex_os.Base.Tests.{ltb, if◌then◌else◌}

abbrev pub u32 : ℕ
u32 = 2 ^ 32

abbrev pub add32 : ℕ → ℕ → ℕ
add32 a b = (a + b) % 2 ^ 32

abbrev pub sub32 : ℕ → ℕ → ℕ
sub32 a b = (a + 2 ^ 32 - b) % 2 ^ 32

abbrev pub mul32 : ℕ → ℕ → ℕ
mul32 a b = (a * b) % 2 ^ 32

-- `(int)x < 0`
abbrev pub is_negative : ℕ → Bool
is_negative x = if ltb x (2 ^ 31) then Bool.false else Bool.true

-- `(int)x / d` for a positive `d`, rounded towards zero, as a bit pattern.
abbrev pub int_div : ℕ → ℕ → ℕ
int_div x d = if ltb x (2 ^ 31) then x / d else (2 ^ 32 - (2 ^ 32 - x) / d) % 2 ^ 32

-- The pattern of `-1`.
abbrev pub minus_one : ℕ
minus_one = 0xFFFFFFFF
