-- ===== src/Heap/Tiles.antt =====
-- The blocks of the heap lie side by side.
use mex_os.Base.{
  ℕ, ◌^◌, ◌+◌, ◌<◌, ◌≤◌, ◌≡◌, ◌⊎◌, inl, inr, sym, ap, ◌∙◌, List, [], ◌∷◌, Bool, true, false, ◌&&◌,
  ◌||◌, arith, if◌then◌else◌,
}
use mex_os.Heap.{Block, Heap}

-- The blocks fill the memory from `a` to `e`.
unfoldable pub Tiles : ℕ → ℕ → List Block → Type 0
Tiles a e [] = a ≡ e
Tiles a e (b ∷ bs) = (b.addr ≡ a) × Tiles (a + 12 + b.size) e bs

-- The blocks that are in use: where each starts and how long it is.
unfoldable pub in_use : List Block → List (ℕ × ℕ)
in_use [] = []
in_use (b ∷ bs) = if b.used then (b.addr, b.size) ∷ in_use bs else in_use bs

-- Of two neighbours, one is in use; `before` tells about the block in front of the first.
unfoldable pub no_free_pair : Bool → List Block → Bool
no_free_pair before [] = true
no_free_pair before (b ∷ bs) = (before || b.used) && no_free_pair b.used bs

-- A block of the chain that is not in use.
unfoldable pub IsFree : Block → List Block → Type 0
IsFree b [] = ⊥
IsFree b (c ∷ bs) = ((c ≡ b) × (b.used ≡ false)) ⊎ IsFree b bs

-- The heap ends 16 bytes before the end of the address space or earlier, so that the test of
-- `split_block` does not wrap.
pub record IsValid (h : Heap) : Type 0 where
  pub tiles : Tiles h.start (h.start + h.size) h.blocks
  pub fits : h.start + h.size + 16 < 2 ^ 32

pub Tiles-le : (a e : ℕ) (bs : List Block) → Tiles a e bs → a ≤ e
unfolding Tiles
Tiles-le a e [] t = omega arith
Tiles-le a e (b ∷ bs) (_, t) = let le = Tiles-le (a + 12 + b.size) e bs t in omega arith

-- A free block lies between the ends, header and all.
pub IsFree-bounds :
    (a e : ℕ) (b : Block) (bs : List Block)
    → Tiles a e bs
    → IsFree b bs
    → (a ≤ b.addr) × (b.addr + 12 + b.size ≤ e)
unfolding Tiles IsFree
IsFree-bounds a e b [] _ none_free = elim none_free [ ]
IsFree-bounds a e b (c ∷ bs) (at, t) (inl (same, _)) =
    let le = Tiles-le (a + 12 + c.size) e bs t in
    let at_b : b.addr ≡ a = sym (ap (λ x. x.addr) same) ∙ at in
    let as_long : c.size ≡ b.size = ap (λ x. x.size) same in (omega arith, omega arith)
IsFree-bounds a e b (c ∷ bs) (at, t) (inr there) =
    let (lo, hi) = IsFree-bounds (a + 12 + c.size) e b bs t there in (omega arith, omega arith)
