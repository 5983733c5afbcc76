-- ===== src/Diskfs/Blocks.antt =====
-- Allocation of blocks and inodes in the bitmaps of kernel/fs/diskfs.c.
use mex_os.Base.{
  ℕ, zero, suc, ◌+◌, ◌/◌, ◌%◌, ◌^◌, ◌<◌, ◌≡◌, inl, inr, refl, sym, ap, ◌∙◌, subst, fun_ext, bit_and,
  bit_or, Bool, true, false, Option, none, some, if◌then◌else◌, leb, ◌==◌, arith, Bool-cases,
  Option-cases, add32, sub32, ℕ_discrete,
}
use mex_os.Base.Bits.{
  bit, bit-bit_or, bit-bit_and, bit_or-lt, bit_and-lt, bit_and-pow, bit_ext, bit-shl_one,
  bit-not_shl_one, shl_one, not_shl_one,
}
use native.Mathlib.Nat.{one-le-pow, pow-le-pow_right}
use mex_os.Pmm.Scan.{FirstClear, FirstClear-skip}
use mex_os.Diskfs.Layout.{Bytes, Superblock}
use mex_os.Diskfs.State.{
  Disk, bitmap_set, bitmap_clear, bitmap_test, find_free_from, bitmap_find_free, alloc_block,
  free_block,
}

-- Bit `f` of a bitmap.
abbrev pub is_taken : Bytes → ℕ → Bool
is_taken b f = bit (b (f / 8)) (f % 8)

-- Every byte is one.
abbrev pub AreBytes : Bytes → Type 0
AreBytes b = (k : ℕ) → b k < 2 ^ 8

bitmap_test_lem : (b : Bytes) (f : ℕ) → bitmap_test b f ≡ is_taken b f
unfolding bitmap_test
bitmap_test_lem b f = elim (Bool-cases (bit (b (f / 8)) (f % 8))) [
  | inl e ↦ rw (bit_and-pow, e) (ground (arith, one-le-pow (f % 8) 2 (omega arith)))
  | inr e ↦ rw (bit_and-pow, e) refl
]

is_taken-bitmap_set :
    (b : Bytes) (i f : ℕ) → is_taken (bitmap_set b i) f ≡ (if f == i then true else is_taken b f)
unfolding bitmap_set
is_taken-bitmap_set b i f =
    ground (arith, bit-bit_or (b (i / 8)) (shl_one (i % 8)) (f % 8), bit-shl_one (i % 8) (f % 8))

is_taken-bitmap_clear :
    (b : Bytes) (i f : ℕ) → is_taken (bitmap_clear b i) f ≡ (if f == i then false else is_taken b f)
unfolding bitmap_clear
is_taken-bitmap_clear b i f =
    ground (
      arith,
      bit-bit_and (b (i / 8)) (not_shl_one (i % 8)) (f % 8),
      bit-not_shl_one (i % 8) (f % 8),
    )

find_free_from-FirstClear :
    (b : Bytes) (i n : ℕ) → FirstClear (is_taken b) i (i + n) (find_free_from b i n)
unfolding find_free_from
find_free_from-FirstClear b i zero = λ f p q. absurd (omega arith)
find_free_from-FirstClear b i (suc n) = elim (Bool-cases (is_taken b i)) [
  | inl e ↦
      let shift : i + 1 + n ≡ i + suc n = omega arith in
      let later =
        subst (λ m. FirstClear (is_taken b) (i + 1) m (find_free_from b (i + 1) n)) shift
          (find_free_from-FirstClear b (i + 1) n) in
      rw (bitmap_test_lem b i ∙ e, find_free_from)
        (FirstClear-skip (is_taken b) i (i + 1) (i + suc n) (find_free_from b (i + 1) n)
          (omega arith)
          (λ f p q. (let same : i ≡ f = omega arith in subst (λ k. is_taken b k ≡ true) same e))
          later)
  | inr e ↦
      rw (bitmap_test_lem b i ∙ e, find_free_from)
        (omega arith, omega arith, e, λ f p q. absurd (omega arith))
]

pow_below : (j : ℕ) → j < 8 → shl_one j < 2 ^ 8
pow_below j h = omega (arith, pow-le-pow_right {n = 2} (omega arith) {i = j} {j = 7} (omega arith))

bitmap_clear-bitmap_set :
    (b : Bytes) (i : ℕ) → AreBytes b → is_taken b i ≡ false → bitmap_clear (bitmap_set b i) i ≡ b
unfolding bitmap_set bitmap_clear
bitmap_clear-bitmap_set b i bytes clear = fun_ext λ k. elim (ℕ_discrete k (i / 8)) [
  | no apart ↦ let other : (k == i / 8) ≡ false = ground (arith, apart) in rw other refl
  | yes same ↦
      let here : (k == i / 8) ≡ true = ground (arith, same) in
      let self : (i / 8 == i / 8) ≡ true = ground arith in
      let w = b (i / 8) in
      let set_bound =
        bit_or-lt 8 w (shl_one (i % 8)) (bytes (i / 8)) (pow_below (i % 8) (omega arith)) in
      let equal : bit_and (bit_or w (shl_one (i % 8))) (not_shl_one (i % 8)) ≡ w =
        bit_ext 8 _ w (bit_and-lt 8 _ (not_shl_one (i % 8)) set_bound) (bytes (i / 8)) (λ j hj.
          (bit-bit_and (bit_or w (shl_one (i % 8))) (not_shl_one (i % 8)) j
            ∙ ground (
              arith,
              bit-bit_or w (shl_one (i % 8)) j,
              bit-shl_one (i % 8) j,
              bit-not_shl_one (i % 8) j,
              clear,
              hj,
            ))) in
      rw (here, self) (equal ∙ ap b (sym same))
]

-- Whether a result is the number `f`.
abbrev pub is_some_of : ℕ → Option ℕ → Bool
is_some_of f none = false
is_some_of f (some g) = f == g

module _ {A : Type 0} where
  -- `alloc_block` takes the lowest block that is free, of those that the disk has; it sets that
  -- bit and no other, and fails only if there is none.
  pub alloc_block-lowest :
      (d : Disk A)
      → FirstClear (is_taken d.block_bitmap) 0 d.superblock.total_blocks (alloc_block d).0
        × ((f : ℕ)
            → is_taken (alloc_block d).1.block_bitmap f
              ≡ (if is_some_of f (alloc_block d).0 then true else is_taken d.block_bitmap f))
  unfolding alloc_block
  alloc_block-lowest d =
      let all : 0 + d.superblock.total_blocks ≡ d.superblock.total_blocks = omega arith in
      let lowest =
        subst
          (λ n.
            FirstClear (is_taken d.block_bitmap) 0 n
              (bitmap_find_free d.block_bitmap d.superblock.total_blocks))
          all (find_free_from-FirstClear d.block_bitmap 0 d.superblock.total_blocks) in
      elim (Option-cases (bitmap_find_free d.block_bitmap d.superblock.total_blocks)) [
        | inl e ↦ rw (e, alloc_block) (rw e at lowest, λ f. refl)
        | inr (block, e) ↦
            rw (e, alloc_block) (rw e at lowest, λ f. is_taken-bitmap_set d.block_bitmap block f)
      ]

  -- Freeing the block just allocated gives back the state before.
  pub free_block-alloc :
      (d d' : Disk A) (block : ℕ)
      → AreBytes d.block_bitmap
      → d.superblock.free_blocks < 2 ^ 32
      → alloc_block d ≡ (some block, d')
      → free_block block d' ≡ d
  unfolding alloc_block free_block
  free_block-alloc d d' block bytes word e =
      elim (Option-cases (bitmap_find_free d.block_bitmap d.superblock.total_blocks)) [
        | inl none_free ↦
            let x : Option ℕ × Disk A = (none, d) in
            let f : x ≡ (some block, d') = rw (none_free, alloc_block) at e in
            let g : none ≡ some block = ap (λ p. p.0) f in cc g
        | inr (found, free) ↦
            let lowest = find_free_from-FirstClear d.block_bitmap 0 d.superblock.total_blocks in
            let (_, below, clear, _) : FirstClear (is_taken d.block_bitmap) 0
                (0 + d.superblock.total_blocks) (some found) =
              rw free at lowest in
            let sb : Superblock = record (d.superblock) {
              free_blocks = sub32 d.superblock.free_blocks 1;
            } in
            let taken : Disk A = record d {
              block_bitmap = bitmap_set d.block_bitmap found;
              superblock = sb;
            } in
            let x : Option ℕ × Disk A = (some found, taken) in
            let f : x ≡ (some block, d') = rw (free, alloc_block) at e in
            let inside : leb d.superblock.total_blocks found ≡ false = ground (arith, below) in
            let bits = bitmap_clear-bitmap_set d.block_bitmap found bytes clear in
            let count : add32 (sub32 d.superblock.free_blocks 1) 1 ≡ d.superblock.free_blocks =
              omega (arith, word) in
            let back : free_block found taken ≡ d = rw (inside, bits, count, free_block) refl in
            let same : found ≡ block =
              (let g : some found ≡ some block = ap (λ p. p.0) f in ground (arith, g)) in
            ap (λ s. free_block s d') (sym same)
            ∙ ap (free_block found) (sym (ap (λ p. p.1) f))
            ∙ back
      ]
