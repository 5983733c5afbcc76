-- ===== src/Heap/Merge.antt =====
-- `merge_free_blocks` of kernel/mm/heap.c.
use mex_os.Base.{
  ℕ, ◌^◌, ◌+◌, ◌<◌, ◌≤◌, ◌≡◌, inl, inr, refl, ap, ◌∙◌, List, [], ◌∷◌, Bool, true, false, ◌||◌,
  arith, if◌then◌else◌, subst, Bool-cases, add32, ltb, leb,
}
use mex_os.Heap.{
  Block, Heap, is_outside, joined_size, joins, merge_from, merge_blocks, merge_free_blocks,
  has_empty, heap_validate,
}
use mex_os.Heap.Tiles.{Tiles, in_use, no_free_pair, IsValid, Tiles-le}

-- What merging does to a stretch of blocks behind `before`.
pub record IsMerged (a e : ℕ) (before : Bool) (bs bs' : List Block) : Type 0 where
  pub tiles : Tiles a e bs'
  pub same_use : in_use bs' ≡ in_use bs
  pub no_pair : no_free_pair before bs' ≡ true

-- In a chain that fills the heap, two blocks join exactly when both are free.
joins_free :
    (start size a : ℕ) (b c : Block)
    → start ≤ a
    → a + 24 + b.size + c.size ≤ start + size
    → start + size < 2 ^ 32
    → (b.used || c.used) ≡ false
    → (joins size b c ≡ true) × (joined_size b c ≡ b.size + 12 + c.size)
joins_free start size a b c lo hi fits free =
    let long : joined_size b c ≡ b.size + 12 + c.size = omega arith in
    let one : ltb (joined_size b c) b.size ≡ false = ground (arith, long) in
    let two : leb size (joined_size b c) ≡ false = ground (arith, long) in
    (rw (free, one, two) refl, long)

pub inside :
    (start size : ℕ) (b : Block)
    → start ≤ b.addr
    → b.addr < start + size
    → start + size < 2 ^ 32
    → is_outside start size b ≡ false
inside start size b lo hi fits =
    let one : ltb b.addr start ≡ false = ground arith in
    let two : leb (add32 start size) b.addr ≡ false = ground arith in rw (one, two) refl

pub merge_from-IsMerged :
    (start size a : ℕ) (before : Bool) (b : Block) (bs : List Block)
    → start ≤ a
    → start + size < 2 ^ 32
    → Tiles a (start + size) (b ∷ bs)
    → (before || b.used) ≡ true
    → IsMerged a (start + size) before (b ∷ bs) (merge_from start size b bs)
unfolding merge_from Tiles no_free_pair in_use
merge_from-IsMerged start size a before b [] lo fits t apart = record {
  tiles = t;
  same_use = refl;
  no_pair = rw apart refl;
}
merge_from-IsMerged start size a before b (c ∷ bs) lo fits (at, (at_c, t)) apart =
    let le = Tiles-le (a + 12 + b.size + 12 + c.size) (start + size) bs t in
    let in_b = inside start size b (omega arith) (omega arith) fits in
    let in_c = inside start size c (omega arith) (omega arith) fits in
    elim (Bool-cases (b.used || c.used)) [
      | inl some_used ↦
          let ih =
            merge_from-IsMerged start size (a + 12 + b.size) b.used c bs (omega arith) fits
              (at_c, t) some_used in
          rw (in_b, in_c, some_used)
            (record {
              tiles = (at, ih.tiles);
              same_use = ap (λ l. if b.used then (b.addr, b.size) ∷ l else l) ih.same_use;
              no_pair = rw (apart, ih.no_pair) refl;
            })
      | inr free ↦
          let b_free : b.used ≡ false = ground arith in
          let c_free : c.used ≡ false = ground arith in
          let (j, long) = joins_free start size a b c lo (omega arith) fits free in
          let bc : Block = record b { size = joined_size b c } in
          let there : Tiles (a + 12 + bc.size) (start + size) bs =
            subst (λ k. Tiles k (start + size) bs) (omega (arith, long)) t in
          let ih = merge_from-IsMerged start size a before bc bs lo fits (at, there) apart in
          rw (in_b, in_c, j)
            (record {
              tiles = ih.tiles;
              same_use = ih.same_use ∙ rw (b_free, c_free) refl;
              no_pair = ih.no_pair;
            })
    ]

pub merge_blocks-IsMerged :
    (start size : ℕ) (bs : List Block)
    → start + size < 2 ^ 32
    → Tiles start (start + size) bs
    → IsMerged start (start + size) true bs (merge_blocks start size bs)
unfolding merge_blocks Tiles no_free_pair
merge_blocks-IsMerged start size [] fits t = record { tiles = t; same_use = refl; no_pair = refl }
merge_blocks-IsMerged start size (b ∷ bs) fits t =
    merge_from-IsMerged start size start true b bs (omega arith) fits t refl

-- `merge_free_blocks` keeps a valid heap valid and every block in use as it is, and leaves no two
-- free blocks side by side.
pub merge_free_blocks-IsMerged :
    (h : Heap)
    → IsValid h
    → IsMerged h.start (h.start + h.size) true h.blocks (merge_free_blocks h).blocks
unfolding merge_free_blocks
merge_free_blocks-IsMerged h v =
    merge_blocks-IsMerged h.start h.size h.blocks (omega (arith, v.fits)) v.tiles

pub merge_free_blocks-IsValid : (h : Heap) → IsValid h → IsValid (merge_free_blocks h)
unfolding merge_free_blocks
merge_free_blocks-IsValid h v = record {
  tiles = (merge_free_blocks-IsMerged h v).tiles;
  fits = v.fits;
}

-- Merging after a merge, which `kfree` does when it finds an empty block, changes no block in use.
pub heap_validate-IsMerged :
    (h : Heap)
    → IsValid h
    → no_free_pair true h.blocks ≡ true
    → IsMerged h.start (h.start + h.size) true h.blocks (heap_validate h).blocks
unfolding heap_validate
heap_validate-IsMerged h v apart = elim (Bool-cases (has_empty h.start h.size h.blocks)) [
  | inl empty ↦ rw empty (merge_free_blocks-IsMerged h v)
  | inr none_empty ↦ rw none_empty (record { tiles = v.tiles; same_use = refl; no_pair = apart })
]

pub heap_validate-IsValid : (h : Heap) → IsValid h → IsValid (heap_validate h)
unfolding heap_validate
heap_validate-IsValid h v = elim (Bool-cases (has_empty h.start h.size h.blocks)) [
  | inl empty ↦ rw empty (merge_free_blocks-IsValid h v)
  | inr none_empty ↦ rw none_empty v
]
