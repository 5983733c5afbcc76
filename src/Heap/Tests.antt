-- ===== src/Heap/Tests.antt =====
-- The heap on a concrete chain of blocks.
use mex_os.Base.{
  ℕ, ◌≡◌, ◌⊎◌, inl, inr, refl, true, false, Option, none, some, [], ◌∷◌, arith, Bool, sub32,
}
use mex_os.Heap.{
  heap_get_fragmentation, fragmentation, Block, Heap, heap_init, kmalloc, kfree, merge_free_blocks,
  find_best_fit, best_from, use_block, split_block, merge_blocks, merge_from, free_block_at,
  find_block, release, heap_validate, has_empty, word_at,
}
use mex_os.Heap.Tiles.{Tiles, in_use, IsFree, IsValid}
use mex_os.Heap.Grant.{IsUsed}
use mex_os.Heap.Calls.{IsAllocated, IsRefused, IsFreed, kmalloc-cases}
use mex_os.Heap.Free.{kfree-IsFreed, kfree-kmalloc}
use mex_os.Heap.Wrap.{IsTiny, kmalloc-IsTiny}
use mex_os.Heap.Fragmentation.{heap_get_fragmentation-kmalloc}

abbrev block : ℕ → ℕ → Bool → Block
block a n u = record { addr = a; size = n; used = u }

-- 100 bytes free, 20 in use, 52 free and 40 free.
abbrev four : Heap
four = record {
  start = 0x1000;
  size = 260;
  used = 44;
  blocks =
      block 0x1000 100 false
      ∷ block 0x1070 20 true
      ∷ block 0x1090 52 false
      ∷ block 0x10D0 40 false
      ∷ [];
  mem = λ a. 0;
}

four-IsValid : IsValid four
unfolding Tiles
four-IsValid = record { tiles = (refl, (refl, (refl, (refl, refl)))); fits = omega arith }

kmalloc-cases_example :
    let (p, h') = kmalloc four 98 in IsAllocated four 98 p h' ⊎ IsRefused four 98 p h'
kmalloc-cases_example = kmalloc-cases four 98 four-IsValid (omega arith) (omega arith)

kmalloc_value : (kmalloc four 98).0 ≡ 0x100C
unfolding kmalloc find_best_fit best_from
kmalloc_value = refl

kfree-kmalloc_example :
    (h' : Heap) × (kfree (kmalloc four 98).1 (kmalloc four 98).0 ≡ some h')
    × IsValid h'
    × (in_use h'.blocks ≡ in_use four.blocks)
unfolding kmalloc find_best_fit best_from
kfree-kmalloc_example = kfree-kmalloc four 98 four-IsValid (omega arith) (omega arith) (omega arith)

kfree-IsFreed_example :
    (h' : Heap) × (kfree four 0x107C ≡ some h') × IsFreed four (block 0x1070 20 true) h'
unfolding IsUsed
kfree-IsFreed_example =
    kfree-IsFreed four (block 0x1070 20 true) four-IsValid (inr (inl (refl, refl))) (omega arith)

kmalloc-IsTiny_example : let (p, h') = kmalloc four 0xFFFFFFFD in IsTiny p h'.blocks
unfolding IsFree
kmalloc-IsTiny_example =
    kmalloc-IsTiny four 0xFFFFFFFD (block 0x1000 100 false) four-IsValid (omega arith) (omega arith)
      (inl (refl, refl))

-- A block that is not split is counted with the size asked for and taken off with its own size:
-- after a call of each function the count is 20 bytes short, and here goes below 0.
abbrev single : Heap
single = (heap_init 0x1000 112 four).1

abbrev used_after : Option Heap → ℕ
used_after none = 0
used_after (some h) = h.used

used_wraps : used_after (kfree (kmalloc single 80).1 (kmalloc single 80).0) ≡ sub32 12 20
unfolding heap_init kmalloc kfree find_best_fit best_from use_block split_block free_block_at
    find_block release heap_validate has_empty word_at merge_free_blocks merge_blocks merge_from
used_wraps = refl

heap_get_fragmentation-kmalloc_example :
    heap_get_fragmentation 20000 (kmalloc (heap_init 0x200000 0x100000 four).1 0xFFFFFFFF).1 ≡ none
heap_get_fragmentation-kmalloc_example =
    heap_get_fragmentation-kmalloc 0x200000 0x100000 0xFFFFFFFF four (omega arith) (omega arith)
      (omega arith) (omega arith) 20000

-- On a heap without empty blocks it returns.
abbrev counts : Option ((ℕ × ℕ) × Heap) → ℕ × ℕ
counts none = (0, 0)
counts (some (c, h)) = c

fragmentation_value : counts (heap_get_fragmentation 6 four) ≡ (3, 100)
unfolding heap_get_fragmentation fragmentation
fragmentation_value = refl
