-- ===== src/Base/Bits.antt =====
-- The bits of a `uint32_t`: `|`, `&` and `~` read one bit at a time.
use Prim.Native.Nat.{
  ℕ, zero, suc, ◌+◌, ◌-◌, ◌*◌, ◌/◌, ◌%◌, ◌^◌, ◌≤◌, ◌<◌, min, max, bit_and, bit_or, digits,
  bit_and-bitwise, bit_or-bitwise,
}
use mathlib.Core.Path.{◌≡◌, refl, ap, ◌∙◌}
use mathlib.Core.Logic.{inl, inr}
use mathlib.Core.Bool.{Bool, true, false, not, ◌&&◌, ◌||◌}
use native.Mathlib.Omega.{arith}
use native.Mathlib.Decide.{ℕ_discrete}
use native.Mathlib.Nat.{pow-suc, one-le-pow}
use mex_os.Base.Tests.{Bool-cases, ◌==◌, ==_iff, if◌then◌else◌, ltb, ltb→lt}

-- The recursion that the native bit operations stand for, for any operation on one binary digit.
module _ (rest_of : ℕ → ℕ) (join : ℕ → ℕ → ℕ) where
  abbrev loop : ℕ → ℕ → ℕ → ℕ
  loop n a b = digits rest_of join n a b

  -- Its fuel does not matter, once it covers the first number.
  loop_fuel : (n m a b : ℕ) → a ≤ min n m → loop n a b ≡ loop m a b
  loop_fuel (suc n) (suc m) (suc a) b p =
      let deeper = loop_fuel n m (suc a / 2) (b / 2) (omega arith) in
      ap (λ w. w * 2 + join (suc a % 2) (b % 2)) deeper
  loop_fuel zero zero a b p = refl
  loop_fuel zero (suc m) zero b p = refl
  loop_fuel (suc n) zero zero b p = refl
  loop_fuel (suc n) (suc m) zero b p = refl
  loop_fuel zero (suc m) (suc a) b p = absurd (omega arith)
  loop_fuel (suc n) zero (suc a) b p = absurd (omega arith)

  -- So one digit may be taken off both numbers, whatever the fuel that the halves are given.
  loop_step :
      (a b : ℕ)
      → loop (suc a) (suc a) b ≡ loop (suc a / 2) (suc a / 2) (b / 2) * 2 + join (suc a % 2) (b % 2)
  loop_step a b =
      ap (λ w. w * 2 + join (suc a % 2) (b % 2))
        (loop_fuel a (suc a / 2) (suc a / 2) (b / 2) (omega arith))

zero-bit_and : (b : ℕ) → bit_and 0 b ≡ 0
zero-bit_and b = bit_and-bitwise 0 b

zero-bit_or : (b : ℕ) → bit_or 0 b ≡ b
zero-bit_or b = bit_or-bitwise 0 b

bit_and_digit : (a b : ℕ) → bit_and a b ≡ bit_and (a / 2) (b / 2) * 2 + min (a % 2) (b % 2)
bit_and_digit zero b = omega (arith, zero-bit_and b, zero-bit_and (b / 2))
bit_and_digit (suc a) b =
    let halves = bit_and-bitwise (suc a / 2) (b / 2) in
    omega (arith, bit_and-bitwise (suc a) b, loop_step (λ w. zero) min a b, halves)

bit_or_digit : (a b : ℕ) → bit_or a b ≡ bit_or (a / 2) (b / 2) * 2 + max (a % 2) (b % 2)
bit_or_digit zero b = omega (arith, zero-bit_or b, zero-bit_or (b / 2))
bit_or_digit (suc a) b =
    let halves = bit_or-bitwise (suc a / 2) (b / 2) in
    omega (arith, bit_or-bitwise (suc a) b, loop_step (λ w. w) max a b, halves)

-- Bit `j` of `w`.
pub bit : ℕ → ℕ → Bool
bit w zero = w % 2 == 1
bit w (suc j) = bit (w / 2) j

pub bit-bit_or : (a b j : ℕ) → bit (bit_or a b) j ≡ bit a j || bit b j
unfolding bit
bit-bit_or a b zero = ground (arith, bit_or_digit a b)
bit-bit_or a b (suc j) =
    ap (λ w. bit w j) (omega (arith, bit_or_digit a b)) ∙ bit-bit_or (a / 2) (b / 2) j

pub bit-bit_and : (a b j : ℕ) → bit (bit_and a b) j ≡ bit a j && bit b j
unfolding bit
bit-bit_and a b zero = ground (arith, bit_and_digit a b)
bit-bit_and a b (suc j) =
    ap (λ w. bit w j) (omega (arith, bit_and_digit a b)) ∙ bit-bit_and (a / 2) (b / 2) j

bit-zero : (j : ℕ) → bit 0 j ≡ false
unfolding bit
bit-zero zero = refl
bit-zero (suc j) = bit-zero j

halve_lt : (n a : ℕ) → a < 2 ^ suc n → a / 2 < 2 ^ n
halve_lt n a h = omega (arith, pow-suc 2 n)

-- `n` bounds the first number.
bit_and-zero : (n a : ℕ) → a ≤ n → bit_and a 0 ≡ 0
bit_and-zero zero a h = let e : a ≡ 0 = omega arith in rw e (zero-bit_and 0)
bit_and-zero (suc n) a h = omega (arith, bit_and_digit a 0, bit_and-zero n (a / 2) (omega arith))

bit_or-zero : (n a : ℕ) → a ≤ n → bit_or a 0 ≡ a
bit_or-zero zero a h = let e : a ≡ 0 = omega arith in rw e (zero-bit_or 0)
bit_or-zero (suc n) a h = omega (arith, bit_or_digit a 0, bit_or-zero n (a / 2) (omega arith))

-- `w & (1 << j)` is `1 << j` or 0.
pub bit_and-pow : (w j : ℕ) → bit_and w (2 ^ j) ≡ (if bit w j then 2 ^ j else 0)
unfolding bit
bit_and-pow w zero = ground (arith, bit_and_digit w 1, bit_and-zero (w / 2) (w / 2))
bit_and-pow w (suc j) =
    let half : 2 ^ suc j / 2 ≡ 2 ^ j = omega (arith, pow-suc 2 j) in
    let even : 2 ^ suc j % 2 ≡ 0 = omega (arith, pow-suc 2 j) in
    bit_and_digit w (2 ^ suc j)
    ∙ rw (half, even, bit_and-pow (w / 2) j, pow-suc)
        (elim (Bool-cases (bit (w / 2) j)) [
          | inl e ↦ rw e (omega arith)
          | inr e ↦ rw e (omega arith)
        ])

-- A word is determined by its bits.
pub bit_ext : (n a b : ℕ) → a < 2 ^ n → b < 2 ^ n → ((j : ℕ) → j < n → bit a j ≡ bit b j) → a ≡ b
unfolding bit
bit_ext zero a b ha hb h = omega arith
bit_ext (suc n) a b ha hb h =
    let halves : a / 2 ≡ b / 2 =
      bit_ext n (a / 2) (b / 2) (halve_lt n a ha) (halve_lt n b hb)
        (λ j hj. h (suc j) (omega arith)) in
    let low : (a % 2 == 1) ≡ (b % 2 == 1) = h 0 (omega arith) in ground arith

pub bit_or-lt : (n a b : ℕ) → a < 2 ^ n → b < 2 ^ n → bit_or a b < 2 ^ n
bit_or-lt zero a b ha hb =
    let ea : a ≡ 0 = omega arith in let eb : b ≡ 0 = omega arith in rw (ea, eb) (omega arith)
bit_or-lt (suc n) a b ha hb = omega (
  arith,
  bit_or_digit a b,
  pow-suc 2 n,
  bit_or-lt n (a / 2) (b / 2) (halve_lt n a ha) (halve_lt n b hb),
)

pub bit_and-lt : (n a b : ℕ) → a < 2 ^ n → bit_and a b < 2 ^ n
bit_and-lt zero a b ha = let ea : a ≡ 0 = omega arith in rw ea (omega (arith, zero-bit_and b))
bit_and-lt (suc n) a b ha =
    omega (arith, bit_and_digit a b, pow-suc 2 n, bit_and-lt n (a / 2) (b / 2) (halve_lt n a ha))

-- A test that holds at every number below `n`, found by running it.
every : (ℕ → Bool) → ℕ → Bool
every test zero = true
every test (suc n) = every test n && test n

every_passes : (test : ℕ → Bool) (n x : ℕ) → x < n → every test n ≡ true → test x ≡ true
unfolding every
every_passes test zero x below run = absurd (omega arith)
every_passes test (suc n) x below run = elim (ℕ_discrete x n) [
  | yes last ↦ ground (arith, ap test last)
  | no earlier ↦ every_passes test n x (omega arith) (ground arith)
]

abbrev eqb : Bool → Bool → Bool
eqb true b = b
eqb false b = not b

eqb→eq : (a b : Bool) → eqb a b ≡ true → a ≡ b
eqb→eq a b h = ground arith

-- `1 << j` and `~(1 << j)` in 32 bits.
abbrev pub shl_one : ℕ → ℕ
shl_one j = 2 ^ j

abbrev pub not_shl_one : ℕ → ℕ
not_shl_one j = 2 ^ 32 - 1 - 2 ^ j

one_table : every (λ j. every (λ k. eqb (bit (shl_one j) k) (j == k)) 32) 32 ≡ true
unfolding every bit
one_table = refl

not_table : every (λ j. every (λ k. eqb (bit (not_shl_one j) k) (not (j == k))) 32) 32 ≡ true
unfolding every bit
not_table = refl

bound_table : every (λ j. ltb (shl_one j) (2 ^ 32)) 32 ≡ true
unfolding every
bound_table = refl

pub shl_one-lt : (j : ℕ) → j < 32 → shl_one j < 2 ^ 32
shl_one-lt j h = ltb→lt _ _ (every_passes _ 32 j h bound_table)

pub bit-shl_one : (j k : ℕ) → j < 32 → k < 32 → bit (shl_one j) k ≡ (j == k)
bit-shl_one j k hj hk = eqb→eq _ _ (every_passes _ 32 k hk (every_passes _ 32 j hj one_table))

pub bit-not_shl_one : (j k : ℕ) → j < 32 → k < 32 → bit (not_shl_one j) k ≡ not (j == k)
bit-not_shl_one j k hj hk = eqb→eq _ _ (every_passes _ 32 k hk (every_passes _ 32 j hj not_table))

-- A word that is not all ones has a clear bit.
all_ones : (n w : ℕ) → w < 2 ^ n → ((j : ℕ) → j < n → bit w j ≡ true) → w + 1 ≡ 2 ^ n
unfolding bit
all_ones zero w h full = omega arith
all_ones (suc n) w h full =
    let low : (w % 2 == 1) ≡ true = full 0 (omega arith) in
    omega (
      arith,
      pow-suc 2 n,
      (==_iff (w % 2) 1).0 low,
      all_ones n (w / 2) (halve_lt n w h) (λ j hj. full (suc j) (omega arith)),
    )

pub eq-ones : (w : ℕ) → w < 2 ^ 32 → ((j : ℕ) → j < 32 → bit w j ≡ true) → w ≡ 0xFFFFFFFF
eq-ones w h full = omega (arith, all_ones 32 w h full)

ones_table : every (bit 0xFFFFFFFF) 32 ≡ true
unfolding every bit
ones_table = refl

pub bit-ones : (j : ℕ) → j < 32 → bit 0xFFFFFFFF j ≡ true
bit-ones j h = every_passes (bit 0xFFFFFFFF) 32 j h ones_table

-- The low `k` bits of a word whose low `k` bits are ones.
pub bit_low_ones : (k x j : ℕ) → j < k → bit (x * 2 ^ k + (2 ^ k - 1)) j ≡ true
unfolding bit
bit_low_ones zero x j h = absurd (omega arith)
bit_low_ones (suc k) x zero h =
    let odd : (x * 2 ^ suc k + (2 ^ suc k - 1)) % 2 ≡ 1 =
      rw pow-suc (omega (arith, one-le-pow k 2 (omega arith))) in
    rw odd refl
bit_low_ones (suc k) x (suc j) h =
    let half : (x * 2 ^ suc k + (2 ^ suc k - 1)) / 2 ≡ x * 2 ^ k + (2 ^ k - 1) =
      rw pow-suc (omega (arith, one-le-pow k 2 (omega arith))) in
    rw half (bit_low_ones k x j (omega arith))

-- `a | f` for a multiple of `2 ^ k` and a number below it.
pub bit_or-aligned : (k a f : ℕ) → f < 2 ^ k → bit_or (a * 2 ^ k) f ≡ a * 2 ^ k + f
bit_or-aligned zero a f below =
    let none_low : f ≡ 0 = omega arith in
    rw none_low (bit_or-zero (a * 1) (a * 1) (omega arith) ∙ omega arith)
bit_or-aligned (suc k) a f below =
    let half : a * 2 ^ suc k / 2 ≡ a * 2 ^ k = rw pow-suc (omega arith) in
    let even : a * 2 ^ suc k % 2 ≡ 0 = rw pow-suc (omega arith) in
    let double : a * 2 ^ suc k ≡ a * 2 ^ k * 2 = rw pow-suc (omega arith) in
    let deeper = bit_or-aligned k a (f / 2) (omega (arith, pow-suc 2 k, below)) in
    omega
      (arith, bit_or_digit (a * 2 ^ suc k) f, ap (λ w. bit_or w (f / 2)) half, deeper, even, double)
