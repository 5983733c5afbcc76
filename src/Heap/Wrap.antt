-- ===== src/Heap/Wrap.antt =====
-- Sizes at the end of the number range in `kmalloc`, kernel/mm/heap.c.
use mex_os.Base.{ℕ, ◌^◌, ◌+◌, ◌<◌, ◌≤◌, ◌≡◌, List, false, arith, ◌==◌, Option-cases, inl, inr}
use mex_os.Heap.{Block, Heap, find_best_fit, round_up, kmalloc}
use mex_os.Heap.Tiles.{IsFree, IsFree-bounds, IsValid}
use mex_os.Heap.Fit.{find_best_fit-IsBest, find_best_fit-none}
use mex_os.Heap.Grant.{IsUsed, use_block-IsGranted}
use mex_os.Heap.Calls.{free_word}

-- A block in use of less than 28 bytes that starts at `p`.
pub record IsTiny (p : ℕ) (bs : List Block) : Type 0 where
  pub block : Block
  pub at : p ≡ block.addr + 12
  pub used : IsUsed block bs
  pub tiny : block.size < 28

-- A request for one of the last three sizes of 32 bits is rounded up to 0: when any block is free,
-- `kmalloc` returns a pointer to less than 28 bytes.
pub kmalloc-IsTiny :
    (h : Heap) (n : ℕ) (c : Block)
    → IsValid h
    → n < 2 ^ 32
    → 2 ^ 32 ≤ n + 3
    → IsFree c h.blocks
    → let (p, h') = kmalloc h n in IsTiny p h'.blocks
unfolding kmalloc
kmalloc-IsTiny h n c v word last free =
    let asked : (n == 0) ≡ false = ground arith in
    let none_asked : round_up n ≡ 0 = omega arith in
    elim (Option-cases (find_best_fit (round_up n) h.blocks)) [
      | inl none_found ↦
          let short = find_best_fit-none (round_up n) h.blocks c (free_word h v) none_found free in
          elim (impossible none_asked short) [ ]
      | inr (b, e) ↦
          let best = find_best_fit-IsBest (round_up n) h.blocks b (free_word h v) e in
          let g =
            use_block-IsGranted h.start (h.start + h.size) (round_up n) b h.blocks v.tiles v.fits
              best.free best.enough in
          let (_, hi) = IsFree-bounds h.start (h.start + h.size) b h.blocks v.tiles best.free in
          rw (asked, e)
            (record {
              block = g.block;
              at = omega (arith, g.at, hi, v.fits);
              used = g.used;
              tiny = omega (arith, g.little_more, none_asked);
            })
    ]
  where
    impossible : {k m : ℕ} → k ≡ 0 → m < k → ⊥
    impossible z l = omega (arith, z, l)
