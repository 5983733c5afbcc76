-- ===== src/Pmm/Bits.antt =====
-- What the bitmap's operations do to each block's bit.
use mex_os.Base.{
  ℕ, ◌+◌, ◌*◌, ◌/◌, ◌%◌, ◌^◌, ◌<◌, ◌≡◌, refl, fun_ext, inl, inr, Bool, true, false, if◌then◌else◌,
  ◌==◌, Bool-cases, arith,
}
use mex_os.Base.Bits.{
  bit, bit-bit_or, bit-bit_and, bit_or-lt, bit_and-lt, bit_and-pow, bit_ext, shl_one-lt,
  bit-shl_one, bit-not_shl_one, shl_one, not_shl_one,
}
use native.Mathlib.Nat.{one-le-pow}
use mex_os.Pmm.Bitmap.{Words, is_set, bitmap_set, bitmap_unset, bitmap_test}

-- Bit `f` of the bitmap: block `f` is taken.
abbrev pub is_used : Words → ℕ → Bool
is_used m f = bit (m (f / 32)) (f % 32)

-- Every word is a `uint32_t`.
abbrev pub AreWords : Words → Type 0
AreWords m = (i : ℕ) → m i < 2 ^ 32

pub is_set-bit : (w j : ℕ) → j < 32 → is_set w j ≡ bit w j
unfolding is_set
is_set-bit w j h = elim (Bool-cases (bit w j)) [
  | inl e ↦ rw (bit_and-pow, e) (ground (arith, one-le-pow j 2 (omega arith)))
  | inr e ↦ rw (bit_and-pow, e) refl
]

pub bitmap_test_lem : (m : Words) (f : ℕ) → bitmap_test m f ≡ is_used m f
unfolding bitmap_test
bitmap_test_lem m f = is_set-bit (m (f / 32)) (f % 32) (omega arith)

pub is_used-bitmap_set :
    (m : Words) (b f : ℕ) → is_used (bitmap_set m b) f ≡ (if f == b then true else is_used m f)
unfolding bitmap_set
is_used-bitmap_set m b f =
    ground
      (arith, bit-bit_or (m (b / 32)) (shl_one (b % 32)) (f % 32), bit-shl_one (b % 32) (f % 32))

pub is_used-bitmap_unset :
    (m : Words) (b f : ℕ) → is_used (bitmap_unset m b) f ≡ (if f == b then false else is_used m f)
unfolding bitmap_unset
is_used-bitmap_unset m b f = ground (
  arith,
  bit-bit_and (m (b / 32)) (not_shl_one (b % 32)) (f % 32),
  bit-not_shl_one (b % 32) (f % 32),
)

pub bitmap_set-AreWords : (m : Words) (b : ℕ) → AreWords m → AreWords (bitmap_set m b)
unfolding bitmap_set
bitmap_set-AreWords m b h i = ground (
  arith,
  h i,
  bit_or-lt 32 (m (b / 32)) (shl_one (b % 32)) (h (b / 32)) (shl_one-lt (b % 32) (omega arith)),
)

pub bitmap_unset-AreWords : (m : Words) (b : ℕ) → AreWords m → AreWords (bitmap_unset m b)
unfolding bitmap_unset
bitmap_unset-AreWords m b h i =
    ground (arith, h i, bit_and-lt 32 (m (b / 32)) (not_shl_one (b % 32)) (h (b / 32)))

-- Two bitmaps with the same bits are the same words.
pub Words_ext :
    (m n : Words) → AreWords m → AreWords n → ((f : ℕ) → is_used m f ≡ is_used n f) → m ≡ n
Words_ext m n hm hn h = fun_ext λ i. bit_ext 32 (m i) (n i) (hm i) (hn i) λ j hj.
    let word : (i * 32 + j) / 32 ≡ i = omega arith in
    let place : (i * 32 + j) % 32 ≡ j = omega arith in
    let e : is_used m (i * 32 + j) ≡ is_used n (i * 32 + j) = h (i * 32 + j) in
    rw (word, place) at e
