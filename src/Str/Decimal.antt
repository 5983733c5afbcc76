-- ===== src/Str/Decimal.antt =====
-- The digits of `int_to_str_pad`, kernel/lib/string.c.
use mex_os.Base.{
  ℕ, zero, suc, ◌^◌, ◌+◌, ◌-◌, ◌*◌, ◌/◌, ◌<◌, ◌≡◌, inl, inr, refl, sym, ap, ◌∙◌, List, [], ◌∷◌,
  ◌++◌, arith, ◌==◌, ==_iff, false, Bool-cases, min, length, replicate, is_negative,
}
use native.Mathlib.Nat.{pow-suc}
use mex_os.Str.{low_digits, reversed, digits_of, int_to_str_pad}

-- The number that a string of decimal digits stands for, read from left to right after `acc`.
unfoldable pub read_decimal : ℕ → List ℕ → ℕ
read_decimal acc [] = acc
read_decimal acc (c ∷ cs) = read_decimal (acc * 10 + (c - 48)) cs

-- The number that digits stand for whose first is the last of the number.
abbrev low_value : List ℕ → ℕ
low_value [] = 0
low_value (c ∷ cs) = c - 48 + low_value cs * 10

read_last :
    (acc c : ℕ) (cs : List ℕ)
    → read_decimal acc (cs ++ (c ∷ [])) ≡ read_decimal acc cs * 10 + (c - 48)
unfolding read_decimal
read_last acc c [] = refl
read_last acc c (d ∷ cs) = read_last (acc * 10 + (d - 48)) c cs

read_reversed : (cs : List ℕ) → read_decimal 0 (reversed cs) ≡ low_value cs
unfolding read_decimal
read_reversed [] = refl
read_reversed (c ∷ cs) = omega (arith, read_last 0 c (reversed cs), read_reversed cs)

low_value-low_digits :
    (left value : ℕ) → value < 10 ^ left → low_value (low_digits left value) ≡ value
unfolding low_digits
low_value-low_digits zero value small = omega (arith, small)
low_value-low_digits (suc left) value small = elim (Bool-cases (value == 0)) [
  | inl none_left ↦ let z : value ≡ 0 = (==_iff _ _).0 none_left in rw none_left (sym z)
  | inr more ↦
      let power = pow-suc 10 left in
      let ih = low_value-low_digits left (value / 10) (omega (arith, small, power)) in
      rw more (omega (arith, ih))
]

-- Zeros at the end of the digits, which come first when they are written, do not count.
low_value-append : (cs : List ℕ) (n : ℕ) → low_value (cs ++ replicate n 48) ≡ low_value cs
low_value-append [] zero = refl
low_value-append [] (suc n) = omega (arith, low_value-append [] n)
low_value-append (c ∷ cs) n = ap (λ k. c - 48 + k * 10) (low_value-append cs n)

-- What `int_to_str_pad` writes of a number that is not negative reads as that number, whatever the
-- width.
pub read_decimal-int_to_str_pad :
    (value width : ℕ) → value < 2 ^ 31 → read_decimal 0 (int_to_str_pad value width) ≡ value
unfolding int_to_str_pad digits_of
read_decimal-int_to_str_pad value width positive =
    read_reversed _
    ∙ low_value-append (digits_of value) (min width 11 - length (digits_of value))
    ∙ digits
  where
    digits : low_value (digits_of value) ≡ value
    digits = elim (Bool-cases (value == 0)) [
      | inl none_left ↦ let z : value ≡ 0 = (==_iff _ _).0 none_left in rw none_left (sym z)
      | inr more ↦
          let sign : is_negative value ≡ false = ground (arith, positive) in
          rw (more, sign) (low_value-low_digits 11 value (omega (arith, positive)))
    ]
