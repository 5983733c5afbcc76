-- ===== src/Pmm/Regions.antt =====
-- `pmm_init`, `pmm_init_region` and `pmm_deinit_region`: which blocks are free afterwards.
use mex_os.Base.{
  ℕ, zero, suc, ◌+◌, ◌-◌, ◌*◌, ◌/◌, ◌%◌, ◌^◌, ◌<◌, ◌≡◌, refl, ap, ◌∙◌, Bool, true, false, ◌&&◌,
  if◌then◌else◌, ◌==◌, arith, ltb, leb, dec_le, add32, sub32, int_div,
}
use mex_os.Base.Bits.{bit, bit-ones, bit_low_ones}
use mex_os.Pmm.{
  Pmm, block_size, init, init_region, init_region_loop, deinit_region, deinit_region_loop,
  get_free_block_count, alloc_block, rounds,
}
use mex_os.Pmm.Bitmap.{Words, bitmap_set, bitmap_unset, fill_ones}
use mex_os.Pmm.Bits.{is_used, is_used-bitmap_set, is_used-bitmap_unset}

-- Block `f` is one of the `n` from `s` on.
abbrev pub within : ℕ → ℕ → ℕ → Bool
within s n f = leb s f && ltb f (s + n)

pub fill_ones-bit : (m : Words) (size f : ℕ) → f < size * 8 → is_used (fill_ones m size) f ≡ true
unfolding fill_ones
fill_ones-bit m size f h = elim (dec_le (f / 32 * 4 + 4) size) [
  | yes whole ↦
      let e : leb (f / 32 * 4 + 4) size ≡ true = ground arith in
      rw e (bit-ones (f % 32) (omega arith))
  | no part ↦
      let e : leb (f / 32 * 4 + 4) size ≡ false = ground arith in
      let g : leb size (f / 32 * 4) ≡ false = ground arith in
      rw (e, g) (partial (size - f / 32 * 4) (m (f / 32)) (f % 32) (omega arith) (omega arith))
]
  where
    partial : (r w j : ℕ) → r < 4 → j < r * 8 → bit (w / 256 ^ r * 256 ^ r + (256 ^ r - 1)) j ≡ true
    partial zero w j a b = absurd (omega arith)
    partial (suc zero) w j a b = bit_low_ones 8 (w / 256) j (omega arith)
    partial (suc (suc zero)) w j a b = bit_low_ones 16 (w / 65536) j (omega arith)
    partial (suc (suc (suc zero))) w j a b = bit_low_ones 24 (w / 16777216) j (omega arith)
    partial (suc (suc (suc (suc r)))) w j a b = absurd (omega arith)

-- After `pmm_init` every block with a bit in the bitmap is taken, nothing is free, and
-- `pmm_alloc_block` returns NULL.
pub init-all_taken :
    (mem_size at : ℕ) (m : Words)
    → mem_size < 2 ^ 32
    → let p = init mem_size at m in
      ((f : ℕ) → f < p.max_blocks / 8 * 8 → is_used p.bitmap f ≡ true)
      × (get_free_block_count p ≡ 0)
      × (alloc_block p ≡ (0, p))
unfolding init get_free_block_count alloc_block
init-all_taken mem_size at m h =
    let free : sub32 (mem_size / block_size) (mem_size / block_size) ≡ 0 = omega arith in
    (λ f l. fill_ones-bit m (mem_size / block_size / 8) f l, free, rw free refl)

-- The loop clears the bits of its blocks and takes one off the count for each.
pub init_region_loop_lem :
    (n align : ℕ) (p : Pmm) (f : ℕ)
    → align + n < 2 ^ 32
    → is_used (init_region_loop n align p).bitmap f
      ≡ (if within align n f then false else is_used p.bitmap f)
unfolding init_region_loop
init_region_loop_lem zero align p f h = ground arith
init_region_loop_lem (suc n) align p f h =
    let e : add32 align 1 ≡ align + 1 = omega arith in
    let q = record p {
      bitmap = bitmap_unset p.bitmap align;
      used_blocks = sub32 p.used_blocks 1;
    } in
    ap (λ k. is_used (init_region_loop n k q).bitmap f) e
    ∙ init_region_loop_lem n (align + 1) q f (omega arith)
    ∙ ground (arith, is_used-bitmap_unset p.bitmap align f)

pub deinit_region_loop_lem :
    (n align : ℕ) (p : Pmm) (f : ℕ)
    → align + n < 2 ^ 32
    → is_used (deinit_region_loop n align p).bitmap f
      ≡ (if within align n f then true else is_used p.bitmap f)
unfolding deinit_region_loop
deinit_region_loop_lem zero align p f h = ground arith
deinit_region_loop_lem (suc n) align p f h =
    let e : add32 align 1 ≡ align + 1 = omega arith in
    let q = record p { bitmap = bitmap_set p.bitmap align; used_blocks = add32 p.used_blocks 1 } in
    ap (λ k. is_used (deinit_region_loop n k q).bitmap f) e
    ∙ deinit_region_loop_lem n (align + 1) q f (omega arith)
    ∙ ground (arith, is_used-bitmap_set p.bitmap align f)

-- `pmm_init_region` frees exactly the whole blocks of its region, block 0 excepted. A size of 2 GiB
-- or more is negative as an `int`, and such a region frees nothing.
pub is_used-init_region :
    (p : Pmm) (base size f : ℕ)
    → base < 2 ^ 31
    → size < 2 ^ 32
    → is_used (init_region p base size).bitmap f ≡ (
        if f == 0
        then true
        else if within (base / block_size) (if ltb size (2 ^ 31) then size / block_size else 0) f
        then false
        else is_used p.bitmap f)
unfolding init_region
is_used-init_region p base size f hb hs =
    let n = rounds size in
    let s = int_div base block_size in
    ground (
      arith,
      is_used-bitmap_set (init_region_loop n s p).bitmap 0 f,
      init_region_loop_lem n s p f (ground arith),
    )

-- `pmm_deinit_region` takes exactly the whole blocks of its region.
pub is_used-deinit_region :
    (p : Pmm) (base size f : ℕ)
    → base < 2 ^ 31
    → size < 2 ^ 32
    → is_used (deinit_region p base size).bitmap f ≡ (
        if within (base / block_size) (if ltb size (2 ^ 31) then size / block_size else 0) f
        then true
        else is_used p.bitmap f)
unfolding deinit_region
is_used-deinit_region p base size f hb hs =
    deinit_region_loop_lem (rounds size) (int_div base block_size) p f (ground arith) ∙ ground arith

pub max-init_region_loop :
    (n align : ℕ) (p : Pmm) → (init_region_loop n align p).max_blocks ≡ p.max_blocks
unfolding init_region_loop
max-init_region_loop zero align p = refl
max-init_region_loop (suc n) align p = max-init_region_loop n (add32 align 1) _

pub max-deinit_region_loop :
    (n align : ℕ) (p : Pmm) → (deinit_region_loop n align p).max_blocks ≡ p.max_blocks
unfolding deinit_region_loop
max-deinit_region_loop zero align p = refl
max-deinit_region_loop (suc n) align p = max-deinit_region_loop n (add32 align 1) _

pub max-init_region :
    (p : Pmm) (base size : ℕ) → (init_region p base size).max_blocks ≡ p.max_blocks
unfolding init_region
max-init_region p base size = max-init_region_loop (rounds size) (int_div base block_size) p

pub max-deinit_region :
    (p : Pmm) (base size : ℕ) → (deinit_region p base size).max_blocks ≡ p.max_blocks
unfolding deinit_region
max-deinit_region p base size = max-deinit_region_loop (rounds size) (int_div base block_size) p

pub max-init :
    (mem_size at : ℕ) (m : Words) → (init mem_size at m).max_blocks ≡ mem_size / block_size
unfolding init
max-init mem_size at m = refl

-- Where the bitmap lies and how long it is does not change.
abbrev pub place : Pmm → ℕ × ℕ
place p = (p.bitmap_addr, p.bitmap_size)

place-init_region_loop : (n align : ℕ) (p : Pmm) → place (init_region_loop n align p) ≡ place p
unfolding init_region_loop
place-init_region_loop zero align p = refl
place-init_region_loop (suc n) align p = place-init_region_loop n (add32 align 1) _

place-deinit_region_loop : (n align : ℕ) (p : Pmm) → place (deinit_region_loop n align p) ≡ place p
unfolding deinit_region_loop
place-deinit_region_loop zero align p = refl
place-deinit_region_loop (suc n) align p = place-deinit_region_loop n (add32 align 1) _

pub place-init_region : (p : Pmm) (base size : ℕ) → place (init_region p base size) ≡ place p
unfolding init_region
place-init_region p base size = place-init_region_loop (rounds size) (int_div base block_size) p

pub place-deinit_region : (p : Pmm) (base size : ℕ) → place (deinit_region p base size) ≡ place p
unfolding deinit_region
place-deinit_region p base size = place-deinit_region_loop (rounds size) (int_div base block_size) p
