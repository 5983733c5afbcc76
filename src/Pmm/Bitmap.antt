-- ===== src/Pmm/Bitmap.antt =====
-- `bitmap_set`, `bitmap_unset`, `bitmap_test` and the two searches of kernel/mm/pmm.c, over the
-- words in memory from `pmm_bitmap` on.
use mex_os.Base.{
  ℕ, zero, suc, ◌+◌, ◌-◌, ◌*◌, ◌/◌, ◌%◌, ◌^◌, bit_and, bit_or, Bool, true, false, not, Option, none,
  some, if◌then◌else◌, ◌==◌, leb, add32,
}
use mex_os.Base.Bits.{shl_one, not_shl_one}

-- `pmm_bitmap[i]` for each `i`. The array has no end of its own: a read past the bitmap gives the
-- word that lies there.
abbrev pub Words : Type 0
Words = ℕ → ℕ

abbrev pub write : Words → ℕ → ℕ → Words
write m i w k = if k == i then w else m k

-- `pmm_bitmap[bit / 32] |= (1 << (bit % 32))`
unfoldable pub bitmap_set : Words → ℕ → Words
bitmap_set m b = write m (b / 32) (bit_or (m (b / 32)) (shl_one (b % 32)))

-- `pmm_bitmap[bit / 32] &= ~(1 << (bit % 32))`
unfoldable pub bitmap_unset : Words → ℕ → Words
bitmap_unset m b = write m (b / 32) (bit_and (m (b / 32)) (not_shl_one (b % 32)))

-- `(w & (1 << j)) != 0`
unfoldable pub is_set : ℕ → ℕ → Bool
is_set w j = not (bit_and w (shl_one j) == 0)

unfoldable pub bitmap_test : Words → ℕ → Bool
bitmap_test m b = is_set (m (b / 32)) (b % 32)

-- The loop `for (int j = 0; j < 32; j++)` over one word, with `n` rounds left.
unfoldable pub first_clear : ℕ → ℕ → ℕ → Option ℕ
first_clear zero j w = none
first_clear (suc n) j w = let rest = first_clear n (j + 1) w in if is_set w j then rest else some j

-- The loop over the words, with `n` words left; `none` is the result `-1`.
unfoldable pub first_free_from : ℕ → ℕ → Words → Option ℕ
first_free_from zero i m = none
first_free_from (suc n) i m =
    let rest = first_free_from n (i + 1) m in
    if m i == 0xFFFFFFFF
    then rest
    else elim (first_clear 32 0 (m i)) [ some j ↦ some (i * 32 + j) | none ↦ rest ]

unfoldable pub bitmap_first_free : Words → ℕ → Option ℕ
bitmap_first_free m max_blocks = first_free_from (max_blocks / 32) 0 m

-- The loop `for (uint32_t k = 0; k < size; k++)`, with `n` rounds left: it counts the clear bits
-- from `start` on and succeeds when they are `size`.
unfoldable pub run_from : ℕ → ℕ → ℕ → Words → ℕ → ℕ → Bool
run_from zero k free m start size = false
run_from (suc n) k free m start size =
    let free' = if bitmap_test m (add32 start k) then free else free + 1 in
    let rest = run_from n (k + 1) free' m start size in if free' == size then true else rest

-- The loop over the bits of one word, with `n` rounds left.
unfoldable pub first_run : ℕ → ℕ → Words → ℕ → ℕ → Option ℕ
first_run zero j m i size = none
first_run (suc n) j m i size =
    let rest = first_run n (j + 1) m i size in
    let start = i * 32 + j in
    if is_set (m i) j then rest else if run_from size 0 0 m start size then some start else rest

unfoldable pub first_free_s_from : ℕ → ℕ → Words → ℕ → Option ℕ
first_free_s_from zero i m size = none
first_free_s_from (suc n) i m size =
    let rest = first_free_s_from n (i + 1) m size in
    if m i == 0xFFFFFFFF
    then rest
    else elim (first_run 32 0 m i size) [ some s ↦ some s | none ↦ rest ]

unfoldable pub bitmap_first_free_s : Words → ℕ → ℕ → Option ℕ
bitmap_first_free_s m max_blocks size =
    if size == 0
    then none
    else if size == 1
    then bitmap_first_free m max_blocks
    else first_free_s_from (max_blocks / 32) 0 m size

-- `memset(pmm_bitmap, 0xFF, size)`: the low bytes of a word come first in memory.
unfoldable pub fill_ones : Words → ℕ → Words
fill_ones m size i =
    if leb (i * 4 + 4) size
    then 0xFFFFFFFF
    else if leb size (i * 4)
    then m i
    else m i / 256 ^ (size - i * 4) * 256 ^ (size - i * 4) + (256 ^ (size - i * 4) - 1)
