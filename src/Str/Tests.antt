-- ===== src/Str/Tests.antt =====
-- The string routines on concrete memory.
use mex_os.Base.{ℕ, ◌+◌, ◌≡◌, ◌≢◌, ◌<◌, refl, [], ◌∷◌, arith, if◌then◌else◌, ◌==◌, sub32}
use mex_os.Str.{Bytes, strncpy, copy_text, fill, int_to_str_pad, digits_of, low_digits}

-- "hi" at 100, and 7 everywhere else.
abbrev hi : Bytes
hi a = if a == 100 then 104 else if a == 101 then 105 else if a == 102 then 0 else 7

letters : (i : ℕ) → i < 2 → hi (100 + i) ≢ 0
letters i below = ground arith

-- Four bytes are asked for, and the fifth is overwritten.
fifth_byte : strncpy 200 100 4 hi 204 ≡ 0
unfolding strncpy copy_text fill
fifth_byte = refl

padded : int_to_str_pad 405 5 ≡ 48 ∷ 48 ∷ 52 ∷ 48 ∷ 53 ∷ []
unfolding int_to_str_pad digits_of low_digits
padded = refl

-- A negative number comes out as zeros.
negative : int_to_str_pad (sub32 0 7) 2 ≡ 48 ∷ 48 ∷ []
unfolding int_to_str_pad digits_of low_digits
negative = refl
