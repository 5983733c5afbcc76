-- ===== src/Pmm/Count.antt =====
-- The number of set bits, which `pmm_used_blocks` is meant to be.
use mex_os.Base.{
  ℕ, zero, suc, ◌+◌, ◌≤◌, ◌<◌, ◌≡◌, refl, ap, ◌∙◌, Bool, true, false, if◌then◌else◌, ◌==◌, arith,
  ℕ_discrete,
}
use mex_os.Pmm.Bitmap.{Words, bitmap_set, bitmap_unset}
use mex_os.Pmm.Bits.{is_used, is_used-bitmap_set, is_used-bitmap_unset}

-- The taken blocks below `n`.
abbrev pub count_used : (ℕ → Bool) → ℕ → ℕ
count_used used zero = 0
count_used used (suc n) = (if used n then 1 else 0) + count_used used n

pub count_used-le : (used : ℕ → Bool) (n : ℕ) → count_used used n ≤ n
count_used-le used zero = omega arith
count_used-le used (suc n) = ground (arith, count_used-le used n)

pub count_used-cong :
    (p q : ℕ → Bool) (n : ℕ) → ((f : ℕ) → f < n → p f ≡ q f) → count_used p n ≡ count_used q n
count_used-cong p q zero h = refl
count_used-cong p q (suc n) h =
    ground (arith, h n (omega arith), count_used-cong p q n (λ f l. h f (omega arith)))

-- One bit more.
count_used-mark :
    (p q : ℕ → Bool) (n b : ℕ)
    → b < n
    → p b ≡ false
    → ((f : ℕ) → q f ≡ (if f == b then true else p f))
    → count_used q n ≡ count_used p n + 1
count_used-mark p q zero b lt clear h = absurd (omega arith)
count_used-mark p q (suc n) b lt clear h = elim (ℕ_discrete b n) [
  | yes e ↦ ground (arith, ap p e, h n, count_used-cong q p n (λ f l. h f ∙ ground arith))
  | no ne ↦ ground (arith, h n, count_used-mark p q n b (omega arith) clear h)
]

pub count_used-lt : (p : ℕ → Bool) (n b : ℕ) → b < n → p b ≡ false → count_used p n < n
count_used-lt p zero b lt clear = absurd (omega arith)
count_used-lt p (suc n) b lt clear = elim (ℕ_discrete b n) [
  | yes e ↦ ground (arith, ap p e, count_used-le p n)
  | no ne ↦ ground (arith, count_used-lt p n b (omega arith) clear)
]

pub count-bitmap_set :
    (m : Words) (n b : ℕ)
    → b < n
    → is_used m b ≡ false
    → count_used (is_used (bitmap_set m b)) n ≡ count_used (is_used m) n + 1
count-bitmap_set m n b lt clear =
    count_used-mark (is_used m) (is_used (bitmap_set m b)) n b lt clear (is_used-bitmap_set m b)

pub count-bitmap_unset :
    (m : Words) (n b : ℕ)
    → b < n
    → is_used m b ≡ true
    → count_used (is_used m) n ≡ count_used (is_used (bitmap_unset m b)) n + 1
count-bitmap_unset m n b lt set_before =
    count_used-mark (is_used (bitmap_unset m b)) (is_used m) n b lt
      (ground (arith, is_used-bitmap_unset m b b))
      (λ f. elim (ℕ_discrete f b) [
        | yes e ↦ ground (arith, ap (is_used m) e)
        | no ne ↦ ground (arith, is_used-bitmap_unset m b f)
      ])

pub count_used-all : (p : ℕ → Bool) (n : ℕ) → ((f : ℕ) → f < n → p f ≡ true) → count_used p n ≡ n
count_used-all p zero h = refl
count_used-all p (suc n) h =
    ground (arith, h n (omega arith), count_used-all p n (λ f l. h f (omega arith)))
