-- ===== src/Heap/Fragmentation.antt =====
-- `heap_get_fragmentation` of kernel/mm/heap.c.
use mex_os.Base.{
  ℕ, sub32, ◌^◌, zero, suc, ◌+◌, ◌-◌, ◌<◌, ◌≤◌, ◌≡◌, refl, sym, ap, ◌∙◌, List, [], ◌∷◌, true, false,
  ◌||◌, inl, inr, arith, ◌==◌, ==_iff, subst, Bool-cases, add32, ltb, leb, none, some,
}
use mex_os.Heap.{
  Block, Heap, is_outside, joined_size, joins, merge_from, merge_blocks, merge_free_blocks,
  fragmentation, heap_get_fragmentation, kmalloc, heap_init, find_best_fit, best_from, use_block,
  split_block, round_up, grant,
}
use mex_os.Heap.Tiles.{Tiles, Tiles-le, IsValid}
use mex_os.Heap.Merge.{inside, merge_free_blocks-IsValid}

-- The first block is empty but in use, and another follows.
pub record IsStuck (h : Heap) : Type 0 where
  pub valid : IsValid h
  pub first : Block
  pub second : Block
  pub others : List Block
  pub chain : h.blocks ≡ first ∷ second ∷ others
  pub used : first.used ≡ true
  pub empty : first.size ≡ 0

merge_from-nonempty :
    (start size : ℕ) (b : Block) (bs : List Block)
    → (c : Block) × (cs : List Block) × (merge_from start size b bs ≡ c ∷ cs)
unfolding merge_from
merge_from-nonempty start size b [] = (b, [], refl)
merge_from-nonempty start size b (c ∷ bs) =
    elim (Bool-cases (is_outside start size b || is_outside start size c)) [
      | inl out ↦ (b, c ∷ bs, rw out refl)
      | inr in_heap ↦ elim (Bool-cases (joins size b c)) [
        | inl j ↦
            let (d, ds, e) =
              merge_from-nonempty start size (record b { size = joined_size b c }) bs in
            (d, ds, rw (in_heap, j) e)
        | inr apart ↦ (b, merge_from start size c bs, rw (in_heap, apart) refl)
      ]
    ]

-- Merging does not help: the first block stays as it is.
merge_free_blocks-IsStuck : (h : Heap) → IsStuck h → IsStuck (merge_free_blocks h)
unfolding merge_free_blocks merge_blocks merge_from Tiles
merge_free_blocks-IsStuck h s =
    let b = s.first in
    let c = s.second in
    let (at, (at_c, t)) = subst (Tiles h.start (h.start + h.size)) s.chain s.valid.tiles in
    let le = Tiles-le (h.start + 12 + b.size + 12 + c.size) (h.start + h.size) s.others t in
    let fits : h.start + h.size < 2 ^ 32 = omega (arith, s.valid.fits) in
    let in_b = inside h.start h.size b (omega arith) (omega arith) fits in
    let in_c = inside h.start h.size c (omega arith) (omega arith) fits in
    let (d, ds, e) = merge_from-nonempty h.start h.size c s.others in
    let kept : merge_blocks h.start h.size (b ∷ c ∷ s.others)
        ≡ b ∷ merge_from h.start h.size c s.others =
      rw (in_b, in_c, s.used) refl in
    record {
      valid = merge_free_blocks-IsValid h s.valid;
      first = b;
      second = d;
      others = ds;
      chain = ap (merge_blocks h.start h.size) s.chain ∙ kept ∙ ap (◌∷◌ b) e;
      used = s.used;
      empty = s.empty;
    }

first_lem : (h : Heap) (s : IsStuck h) → (s.first.addr ≡ h.start) × (h.start < h.start + h.size)
unfolding Tiles
first_lem h s =
    let (at, (at_c, t)) = subst (Tiles h.start (h.start + h.size)) s.chain s.valid.tiles in
    let le =
      Tiles-le (h.start + 12 + s.first.size + 12 + s.second.size) (h.start + h.size) s.others t in
    (at, omega arith)

restart_lem :
    (fuel n count largest : ℕ) (b c : Block) (bs : List Block) (h : Heap)
    → leb 10000 n ≡ false
    → is_outside h.start h.size b ≡ false
    → (b.size == 0) ≡ true
    → fragmentation (suc fuel) n count largest (b ∷ c ∷ bs) h
      ≡ fragmentation fuel n 0 0 (merge_free_blocks h).blocks (merge_free_blocks h)
unfolding fragmentation
restart_lem fuel n count largest b c bs h early in_b empty = rw (early, in_b, empty) refl

stuck_lem :
    (fuel n count largest : ℕ) (h : Heap)
    → IsStuck h
    → n < 10000
    → fragmentation fuel n count largest h.blocks h ≡ none
unfolding fragmentation
stuck_lem zero n count largest h s few = refl
stuck_lem (suc fuel) n count largest h s few =
    let (first_at, some_size) = first_lem h s in
    let in_b =
      inside h.start h.size s.first (omega arith) (omega arith) (omega (arith, s.valid.fits)) in
    let early : leb 10000 n ≡ false = ground (arith, few) in
    let empty : (s.first.size == 0) ≡ true = (==_iff _ _).1 s.empty in
    ap (λ l. fragmentation (suc fuel) n count largest l h) s.chain
    ∙ restart_lem fuel n count largest s.first s.second s.others h early in_b empty
    ∙ stuck_lem fuel n 0 0 (merge_free_blocks h) (merge_free_blocks-IsStuck h s) few

finds :
    (start size : ℕ)
    → 40 ≤ size
    → start + size + 16 < 2 ^ 32
    → let b : Block = record { addr = start; size = sub32 size 12; used = false } in
      find_best_fit 0 (b ∷ []) ≡ some b
unfolding find_best_fit best_from
finds start size large fits =
    let one : leb 0 (sub32 size 12) ≡ true = ground arith in
    let two : ltb (sub32 (sub32 size 12) 0) 0xFFFFFFFF ≡ true = ground arith in
    let three : (sub32 (sub32 size 12) 0 == 0) ≡ false = ground arith in rw (one, two, three) refl

splits :
    (start size : ℕ)
    → 40 ≤ size
    → start + size + 16 < 2 ^ 32
    → use_block start 0 (record { addr = start; size = sub32 size 12; used = false } ∷ [])
      ≡ record { addr = start; size = 0; used = true }
        ∷ record { addr = start + 12; size = size - 24; used = false }
        ∷ []
unfolding use_block split_block
splits start size large fits =
    let self : (start == start) ≡ true = (==_iff _ _).1 refl in
    let room : leb (add32 (add32 0 12) 16) (sub32 size 12) ≡ true = ground arith in
    let at : add32 (add32 start 12) 0 ≡ start + 12 = omega arith in
    let left : sub32 (sub32 (sub32 size 12) 0) 12 ≡ size - 24 = omega arith in
    rw (self, room, at, left) refl

-- A block of 0 bytes at the front: what `kmalloc` makes of a heap that is all free, for a size that
-- it rounds up to 0.
kmalloc-IsStuck :
    (start size n : ℕ) (h : Heap)
    → 40 ≤ size
    → start + size + 16 < 2 ^ 32
    → n < 2 ^ 32
    → 2 ^ 32 ≤ n + 3
    → IsStuck (kmalloc (heap_init start size h).1 n).1
unfolding kmalloc heap_init Tiles
kmalloc-IsStuck start size n h large fits word last =
    let asked : (n == 0) ≡ false = ground arith in
    let rounded : round_up n ≡ 0 = omega arith in
    let whole : Block = record { addr = start; size = sub32 size 12; used = false } in
    let first : Block = record { addr = start; size = 0; used = true } in
    let second : Block = record { addr = start + 12; size = size - 24; used = false } in
    let h0 : Heap = (heap_init start size h).1 in
    let h1 : Heap = (grant (round_up n) whole h0).1 in
    let found = ap (λ k. find_best_fit k (whole ∷ [])) rounded ∙ finds start size large fits in
    let grants : kmalloc h0 n ≡ grant (round_up n) whole h0 = rw (asked, found, kmalloc) refl in
    let chain : h1.blocks ≡ first ∷ second ∷ [] =
      ap (λ k. use_block start k (whole ∷ [])) rounded ∙ splits start size large fits in
    let stuck : IsStuck h1 = record {
      valid = record {
        tiles = subst (Tiles start (start + size)) (sym chain) (refl, (omega arith, omega arith));
        fits = fits;
      };
      first = first;
      second = second;
      others = [];
      chain = chain;
      used = refl;
      empty = refl;
    } in
    subst (λ x. IsStuck x.1) (sym grants) stuck

-- After one request of that kind `heap_get_fragmentation` never returns, whatever the number of
-- rounds: it merges, finds the empty block in use again, and starts over.
pub heap_get_fragmentation-kmalloc :
    (start size n : ℕ) (h : Heap)
    → 40 ≤ size
    → start + size + 16 < 2 ^ 32
    → n < 2 ^ 32
    → 2 ^ 32 ≤ n + 3
    → (fuel : ℕ) → heap_get_fragmentation fuel (kmalloc (heap_init start size h).1 n).1 ≡ none
unfolding heap_get_fragmentation
heap_get_fragmentation-kmalloc start size n h large fits word last fuel =
    stuck_lem fuel 0 0 0 (kmalloc (heap_init start size h).1 n).1
      (kmalloc-IsStuck start size n h large fits word last) (omega arith)
