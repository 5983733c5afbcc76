-- ===== src/Pmm/Valid.antt =====
-- Setting up the memory manager leaves it valid.
use mex_os.Base.{
  ℕ, zero, suc, ◌+◌, ◌-◌, ◌*◌, ◌/◌, ◌%◌, ◌^◌, ◌≤◌, ◌<◌, ◌≡◌, ap, sym, subst, ◌∙◌, inl, inr, true,
  false, Bool-cases, arith, leb, dec_le, ℕ_discrete, add32, sub32, int_div,
}
use mex_os.Pmm.{
  Pmm, block_size, init, init_region, init_region_loop, deinit_region, deinit_region_loop, rounds,
}
use mex_os.Pmm.Bitmap.{Words, bitmap_set, bitmap_unset, fill_ones}
use mex_os.Pmm.Bits.{
  is_used, AreWords, is_used-bitmap_set, is_used-bitmap_unset, bitmap_set-AreWords,
  bitmap_unset-AreWords,
}
use mex_os.Pmm.Count.{
  count_used-le, count_used-lt, count_used-cong, count_used-all, count-bitmap_set,
  count-bitmap_unset,
}
use mex_os.Pmm.Alloc.{IsValid}
use mex_os.Pmm.Regions.{fill_ones-bit}

-- The loop of `pmm_init_region` keeps the count right over blocks that were all taken, block 0
-- not among them.
init_region_loop-IsValid :
    (n align : ℕ) (p : Pmm)
    → IsValid p
    → 0 < align
    → align + n ≤ p.max_blocks
    → ((f : ℕ) → align ≤ f → f < align + n → is_used p.bitmap f ≡ true)
    → IsValid (init_region_loop n align p)
unfolding init_region_loop
init_region_loop-IsValid zero align p v pos fit taken = v
init_region_loop-IsValid (suc n) align p v pos fit taken =
    let e : add32 align 1 ≡ align + 1 = omega (arith, v.sized) in
    let q = record p {
      bitmap = bitmap_unset p.bitmap align;
      used_blocks = sub32 p.used_blocks 1;
    } in
    let count =
      count-bitmap_unset p.bitmap p.max_blocks align (omega arith)
        (taken align (omega arith) (omega arith)) in
    let w : IsValid q = record {
      are_words = bitmap_unset-AreWords p.bitmap align v.are_words;
      sized = v.sized;
      counted = omega (arith, v.counted, v.sized, count_used-le (is_used p.bitmap) p.max_blocks);
      null_taken = ground (arith, is_used-bitmap_unset p.bitmap align 0, v.null_taken);
    } in
    subst (λ k. IsValid (init_region_loop n k q)) (sym e)
      (init_region_loop-IsValid n (align + 1) q w (omega arith) (omega arith) (λ f a b.
        ground (arith, is_used-bitmap_unset p.bitmap align f, taken f (omega arith) (omega arith))))

deinit_region_loop-IsValid :
    (n align : ℕ) (p : Pmm)
    → IsValid p
    → align + n ≤ p.max_blocks
    → ((f : ℕ) → align ≤ f → f < align + n → is_used p.bitmap f ≡ false)
    → IsValid (deinit_region_loop n align p)
unfolding deinit_region_loop
deinit_region_loop-IsValid zero align p v fit free = v
deinit_region_loop-IsValid (suc n) align p v fit free =
    let e : add32 align 1 ≡ align + 1 = omega (arith, v.sized) in
    let q = record p { bitmap = bitmap_set p.bitmap align; used_blocks = add32 p.used_blocks 1 } in
    let clear = free align (omega arith) (omega arith) in
    let count = count-bitmap_set p.bitmap p.max_blocks align (omega arith) clear in
    let w : IsValid q = record {
      are_words = bitmap_set-AreWords p.bitmap align v.are_words;
      sized = v.sized;
      counted = omega (
        arith,
        v.counted,
        v.sized,
        count_used-lt (is_used p.bitmap) p.max_blocks align (omega arith) clear,
      );
      null_taken = ground (arith, is_used-bitmap_set p.bitmap align 0, v.null_taken);
    } in
    subst (λ k. IsValid (deinit_region_loop n k q)) (sym e)
      (deinit_region_loop-IsValid n (align + 1) q w (omega arith) (λ f a b.
        ground (arith, is_used-bitmap_set p.bitmap align f, free f (omega arith) (omega arith))))

set_null-IsValid : (p : Pmm) → IsValid p → IsValid (record p { bitmap = bitmap_set p.bitmap 0 })
set_null-IsValid p v =
    let same : (f : ℕ) → is_used (bitmap_set p.bitmap 0) f ≡ is_used p.bitmap f = λ f.
      elim (ℕ_discrete f 0) [
        | yes e ↦
            ground (arith, is_used-bitmap_set p.bitmap 0 f, ap (is_used p.bitmap) e, v.null_taken)
        | no ne ↦ ground (arith, is_used-bitmap_set p.bitmap 0 f)
      ] in
    record {
      are_words = bitmap_set-AreWords p.bitmap 0 v.are_words;
      sized = v.sized;
      counted =
          v.counted
          ∙ count_used-cong (is_used p.bitmap) (is_used (bitmap_set p.bitmap 0)) p.max_blocks
              (λ f l. sym (same f));
      null_taken = same 0 ∙ v.null_taken;
    }

-- `pmm_init_region` keeps a valid manager valid over a region above block 0, inside the memory,
-- whose blocks were all taken.
pub init_region-IsValid :
    (p : Pmm) (base size : ℕ)
    → IsValid p
    → block_size ≤ base
    → base < 2 ^ 31
    → size < 2 ^ 31
    → base / block_size + size / block_size ≤ p.max_blocks
    → ((f : ℕ)
        → base / block_size ≤ f
        → f < base / block_size + size / block_size
        → is_used p.bitmap f ≡ true)
    → IsValid (init_region p base size)
unfolding init_region
init_region-IsValid p base size v above hb hs fit taken =
    let s : int_div base block_size ≡ base / block_size = ground arith in
    let n : rounds size ≡ size / block_size = ground arith in
    set_null-IsValid _ (
      subst (λ k. IsValid (init_region_loop (rounds size) k p)) (sym s)
        (subst (λ k. IsValid (init_region_loop k (base / block_size) p)) (sym n)
          (init_region_loop-IsValid (size / block_size) (base / block_size) p v (omega arith) fit
            taken)))

-- `pmm_deinit_region` keeps a valid manager valid over a region inside the memory whose blocks
-- were all free.
pub deinit_region-IsValid :
    (p : Pmm) (base size : ℕ)
    → IsValid p
    → base < 2 ^ 31
    → size < 2 ^ 31
    → base / block_size + size / block_size ≤ p.max_blocks
    → ((f : ℕ)
        → base / block_size ≤ f
        → f < base / block_size + size / block_size
        → is_used p.bitmap f ≡ false)
    → IsValid (deinit_region p base size)
unfolding deinit_region
deinit_region-IsValid p base size v hb hs fit free =
    let s : int_div base block_size ≡ base / block_size = ground arith in
    let n : rounds size ≡ size / block_size = ground arith in
    subst (λ k. IsValid (deinit_region_loop (rounds size) k p)) (sym s)
      (subst (λ k. IsValid (deinit_region_loop k (base / block_size) p)) (sym n)
        (deinit_region_loop-IsValid (size / block_size) (base / block_size) p v fit free))

fill_ones-AreWords : (m : Words) (size : ℕ) → AreWords m → AreWords (fill_ones m size)
unfolding fill_ones
fill_ones-AreWords m size w i = elim (dec_le (i * 4 + 4) size) [
  | yes whole ↦ let e : leb (i * 4 + 4) size ≡ true = ground arith in rw e (omega arith)
  | no part ↦
      let e : leb (i * 4 + 4) size ≡ false = ground arith in
      elim (Bool-cases (leb size (i * 4))) [
        | inl after ↦ rw (e, after) (w i)
        | inr inside ↦ rw (e, inside) (partial (size - i * 4) (m i) (omega arith) (w i))
      ]
]
  where
    partial : (r x : ℕ) → r < 4 → x < 2 ^ 32 → x / 256 ^ r * 256 ^ r + (256 ^ r - 1) < 2 ^ 32
    partial zero x a b = omega arith
    partial (suc zero) x a b = omega arith
    partial (suc (suc zero)) x a b = omega arith
    partial (suc (suc (suc zero))) x a b = omega arith
    partial (suc (suc (suc (suc r)))) x a b = absurd (omega arith)

-- `pmm_init` gives a valid manager when the bitmap has a whole number of bytes and is not empty.
pub init-IsValid :
    (mem_size at : ℕ) (m : Words)
    → AreWords m
    → mem_size < 2 ^ 32
    → 0 < mem_size / block_size
    → mem_size / block_size % 8 ≡ 0
    → IsValid (init mem_size at m)
unfolding init
init-IsValid mem_size at m w h some_block bytes =
    let taken : (f : ℕ)
        → f < mem_size / block_size
        → is_used (fill_ones m (mem_size / block_size / 8)) f ≡ true =
      λ f l. fill_ones-bit m (mem_size / block_size / 8) f (omega arith) in
    record {
      are_words = fill_ones-AreWords m (mem_size / block_size / 8) w;
      sized = omega arith;
      counted = sym (
          count_used-all (is_used (fill_ones m (mem_size / block_size / 8))) (mem_size / block_size)
            taken);
      null_taken = taken 0 some_block;
    }
