-- ===== src/Heap/Calls.antt =====
-- `heap_init`, `kmalloc` and `kfree` of kernel/mm/heap.c.
use mex_os.Base.{
  ℕ, ◌^◌, ◌+◌, ◌-◌, ◌<◌, ◌≤◌, ◌≡◌, ◌≢◌, ◌⊎◌, inl, inr, refl, sym, ap, ◌∙◌, List, [], ◌∷◌, ◌++◌,
  true, false, arith, ◌==◌, Option-cases, some,
}
use mex_os.Heap.{
  Block, Heap, heap_init, use_block, release, find_best_fit, round_up, grant, kmalloc,
  merge_free_blocks,
}
use mex_os.Heap.Tiles.{Tiles, in_use, no_free_pair, IsFree, IsFree-bounds, IsValid}
use mex_os.Heap.Merge.{merge_free_blocks-IsMerged, merge_free_blocks-IsValid}
use mex_os.Heap.Fit.{find_best_fit-IsBest, find_best_fit-none}
use mex_os.Heap.Grant.{IsUsed, use_block-IsGranted}

-- `kmalloc` returns `p`, the bytes of a block that it takes in use.
pub record IsAllocated (h : Heap) (n p : ℕ) (h' : Heap) : Type 0 where
  pub valid : IsValid h'
  pub block : Block
  pub at : p ≡ block.addr + 12
  pub enough : n ≤ block.size
  pub used : IsUsed block h'.blocks
  pub before : List (ℕ × ℕ)
  pub after : List (ℕ × ℕ)
  pub was : in_use h.blocks ≡ before ++ after
  pub now : in_use h'.blocks ≡ before ++ ((block.addr, block.size) ∷ after)
  pub undone : in_use (release block.addr h'.blocks) ≡ in_use h.blocks

-- `kmalloc` returns a null pointer: the free blocks, merged, are all too short.
pub record IsRefused (h : Heap) (n p : ℕ) (h' : Heap) : Type 0 where
  pub null : p ≡ 0
  pub valid : IsValid h'
  pub same_use : in_use h'.blocks ≡ in_use h.blocks
  pub too_short : (c : Block) → IsFree c h'.blocks → c.size < round_up n

-- `kfree` takes `b` out of use.
pub record IsFreed (h : Heap) (b : Block) (h' : Heap) : Type 0 where
  pub valid : IsValid h'
  pub before : List (ℕ × ℕ)
  pub after : List (ℕ × ℕ)
  pub was : in_use h.blocks ≡ before ++ ((b.addr, b.size) ∷ after)
  pub now : in_use h'.blocks ≡ before ++ after
  pub freed : in_use h'.blocks ≡ in_use (release b.addr h.blocks)
  pub no_pair : no_free_pair true h'.blocks ≡ true

-- A heap of more than a header is valid when it is set up, and all of it is free.
pub heap_init-IsValid :
    (start size : ℕ) (h : Heap)
    → 12 ≤ size
    → start + size + 16 < 2 ^ 32
    → let (p, h') = heap_init start size h in
      IsValid h' × (in_use h'.blocks ≡ []) × (p ≡ start + 12)
unfolding heap_init Tiles in_use
heap_init-IsValid start size h large fits =
    (record { tiles = (refl, omega arith); fits = fits }, refl, omega arith)

pub free_word : (h : Heap) → IsValid h → (c : Block) → IsFree c h.blocks → c.size < 2 ^ 32 - 1
free_word h v c f =
    let (_, hi) = IsFree-bounds h.start (h.start + h.size) c h.blocks v.tiles f in
    omega (arith, v.fits, hi)

grant-IsAllocated :
    (h h1 : Heap) (n : ℕ) (b : Block)
    → IsValid h1
    → in_use h1.blocks ≡ in_use h.blocks
    → n + 3 < 2 ^ 32
    → find_best_fit (round_up n) h1.blocks ≡ some b
    → IsAllocated h n (grant (round_up n) b h1).0 (grant (round_up n) b h1).1
grant-IsAllocated h h1 n b v same word e =
    let best = find_best_fit-IsBest (round_up n) h1.blocks b (free_word h1 v) e in
    let g =
      use_block-IsGranted h1.start (h1.start + h1.size) (round_up n) b h1.blocks v.tiles v.fits
        best.free best.enough in
    let (_, hi) = IsFree-bounds h1.start (h1.start + h1.size) b h1.blocks v.tiles best.free in
    record {
      valid = record { tiles = g.tiles; fits = v.fits };
      block = g.block;
      at = omega (arith, g.at, hi, v.fits);
      enough = omega (arith, g.enough, word);
      used = g.used;
      before = g.before;
      after = g.after;
      was = sym same ∙ g.was;
      now = g.now ∙ ap (λ k. g.before ++ ((k, g.block.size) ∷ g.after)) (sym g.at);
      undone =
          ap (λ k. in_use (release k (use_block b.addr (round_up n) h1.blocks))) g.at
          ∙ g.undone
          ∙ same;
    }

-- For a size that is not 0 and that can be rounded up to a multiple of 4 in 32 bits, `kmalloc` on a
-- valid heap either takes a block of `n` bytes or more in use and changes no other block in use, or
-- returns a null pointer because every free block is too short even after merging.
pub kmalloc-cases :
    (h : Heap) (n : ℕ)
    → IsValid h
    → n ≢ 0
    → n + 3 < 2 ^ 32
    → let (p, h') = kmalloc h n in IsAllocated h n p h' ⊎ IsRefused h n p h'
unfolding kmalloc
kmalloc-cases h n v some_bytes word =
    let asked : (n == 0) ≡ false = ground arith in
    let h1 : Heap = merge_free_blocks h in
    let v1 = merge_free_blocks-IsValid h v in
    let m = merge_free_blocks-IsMerged h v in
    elim (Option-cases (find_best_fit (round_up n) h.blocks)) [
      | inr (b, e) ↦ rw (asked, e) (inl (grant-IsAllocated h h n b v refl word e))
      | inl none_yet ↦ elim (Option-cases (find_best_fit (round_up n) h1.blocks)) [
        | inr (b, e) ↦
            rw (asked, none_yet, e) (inl (grant-IsAllocated h h1 n b v1 m.same_use word e))
        | inl none_left ↦
            rw (asked, none_yet, none_left)
              (inr (record {
                null = refl;
                valid = v1;
                same_use = m.same_use;
                too_short = λ c f.
                    find_best_fit-none (round_up n) h1.blocks c (free_word h1 v1) none_left f;
              }))
      ]
    ]
