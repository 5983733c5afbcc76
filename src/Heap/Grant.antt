-- ===== src/Heap/Grant.antt =====
-- Taking a block into use and giving it back, kernel/mm/heap.c.
use mex_os.Base.{
  ℕ, ◌^◌, ◌+◌, ◌<◌, ◌≤◌, ◌≡◌, ◌≢◌, ◌⊎◌, inl, inr, refl, sym, ap, ◌∙◌, List, [], ◌∷◌, ◌++◌, true,
  false, arith, ◌==◌, ==_iff, subst, Bool-cases, add32, sub32, leb, some,
}
use mex_os.Heap.{Block, use_block, split_block, mark_used, release, find_block, word_at, magic}
use mex_os.Heap.Tiles.{Tiles, in_use, IsFree, IsFree-bounds, Tiles-le}

-- A block of the chain that is in use.
unfoldable pub IsUsed : Block → List Block → Type 0
IsUsed b [] = ⊥
IsUsed b (c ∷ bs) = ((c ≡ b) × (b.used ≡ true)) ⊎ IsUsed b bs

pub IsUsed-bounds :
    (a e : ℕ) (b : Block) (bs : List Block)
    → Tiles a e bs
    → IsUsed b bs
    → (a ≤ b.addr) × (b.addr + 12 + b.size ≤ e)
unfolding Tiles IsUsed
IsUsed-bounds a e b [] _ none_used = elim none_used [ ]
IsUsed-bounds a e b (c ∷ bs) (at, t) (inl (same, _)) =
    let le = Tiles-le (a + 12 + c.size) e bs t in
    let at_b : b.addr ≡ a = sym (ap (λ x. x.addr) same) ∙ at in
    let as_long : c.size ≡ b.size = ap (λ x. x.size) same in (omega arith, omega arith)
IsUsed-bounds a e b (c ∷ bs) (at, t) (inr there) =
    let (lo, hi) = IsUsed-bounds (a + 12 + c.size) e b bs t there in (omega arith, omega arith)

-- The word with the flag of a block in use is not the magic number: its low byte is 1.
word_at-flag :
    (a e : ℕ) (b : Block) (bs : List Block)
    → Tiles a e bs
    → IsUsed b bs
    → (mem : ℕ → ℕ) → word_at mem (b.addr + 4) bs ≢ magic
unfolding word_at Tiles IsUsed
word_at-flag a e b [] _ none_used mem = elim none_used [ ]
word_at-flag a e b (c ∷ bs) (at, t) (inl (same, used)) mem =
    let at_c : b.addr ≡ c.addr = sym (ap (λ x. x.addr) same) in
    let c_used : c.used ≡ true = ap (λ x. x.used) same ∙ used in
    let one : (b.addr + 4 == c.addr) ≡ false = ground (arith, at_c) in
    let two : (b.addr + 4 == c.addr + 4) ≡ true = ground (arith, at_c) in
    rw (one, two, c_used) (λ z. omega (arith, z))
word_at-flag a e b (c ∷ bs) (at, t) (inr there) mem =
    let (lo, _) = IsUsed-bounds (a + 12 + c.size) e b bs t there in
    let one : (b.addr + 4 == c.addr) ≡ false = ground arith in
    let two : (b.addr + 4 == c.addr + 4) ≡ false = ground arith in
    let three : (b.addr + 4 == c.addr + 8) ≡ false = ground arith in
    rw (one, two, three) (word_at-flag (a + 12 + c.size) e b bs t there mem)

-- `b` leaves the blocks in use, and nothing else changes.
pub record IsReleased (a e : ℕ) (b : Block) (bs : List Block) : Type 0 where
  pub tiles : Tiles a e (release b.addr bs)
  pub before : List (ℕ × ℕ)
  pub after : List (ℕ × ℕ)
  pub was : in_use bs ≡ before ++ ((b.addr, b.size) ∷ after)
  pub now : in_use (release b.addr bs) ≡ before ++ after
  pub found : find_block b.addr bs ≡ some b
  pub flag : (mem : ℕ → ℕ) → word_at mem (b.addr + 4) bs ≢ magic

pub release-IsReleased :
    (a e : ℕ) (b : Block) (bs : List Block) → Tiles a e bs → IsUsed b bs → IsReleased a e b bs
unfolding release find_block word_at Tiles in_use IsUsed
release-IsReleased a e b [] _ none_used = elim none_used [ ]
release-IsReleased a e b (c ∷ bs) (at, t) (inl (same, used)) =
    let here : (c.addr == b.addr) ≡ true = (==_iff _ _).1 (ap (λ x. x.addr) same) in
    let c_used : c.used ≡ true = ap (λ x. x.used) same ∙ used in
    record {
      tiles = rw here (at, t);
      before = [];
      after = in_use bs;
      was = rw c_used (ap (λ x. (x.addr, x.size) ∷ in_use bs) same);
      now = rw here refl;
      found = rw here (ap some same);
      flag = word_at-flag a e b (c ∷ bs) (at, t) (inl (same, used));
    }
release-IsReleased a e b (c ∷ bs) (at, t) (inr there) =
    let ih = release-IsReleased (a + 12 + c.size) e b bs t there in
    let (lo, _) = IsUsed-bounds (a + 12 + c.size) e b bs t there in
    let apart : (c.addr == b.addr) ≡ false = ground arith in
    elim (Bool-cases c.used) [
      | inl used ↦ record {
        tiles = rw apart (at, ih.tiles);
        before = (c.addr, c.size) ∷ ih.before;
        after = ih.after;
        was = rw used (ap (◌∷◌ (c.addr, c.size)) ih.was);
        now = rw (apart, used) (ap (◌∷◌ (c.addr, c.size)) ih.now);
        found = rw apart ih.found;
        flag = word_at-flag a e b (c ∷ bs) (at, t) (inr there);
      }
      | inr free ↦ record {
        tiles = rw apart (at, ih.tiles);
        before = ih.before;
        after = ih.after;
        was = rw free ih.was;
        now = rw (apart, free) ih.now;
        found = rw apart ih.found;
        flag = word_at-flag a e b (c ∷ bs) (at, t) (inr there);
      }
    ]

-- The block at `addr` comes into use, `size` bytes of it or more, and nothing else changes.
pub record IsGranted (a e addr size : ℕ) (bs bs' : List Block) : Type 0 where
  pub tiles : Tiles a e bs'
  pub block : Block
  pub at : block.addr ≡ addr
  pub enough : size ≤ block.size
  pub little_more : block.size < size + 28
  pub used : IsUsed block bs'
  pub before : List (ℕ × ℕ)
  pub after : List (ℕ × ℕ)
  pub was : in_use bs ≡ before ++ after
  pub now : in_use bs' ≡ before ++ ((addr, block.size) ∷ after)
  pub undone : in_use (release addr bs') ≡ in_use bs

-- The block that the split takes in use, at the front of the chain.
grant_first :
    (a e size : ℕ) (c : Block) (bs : List Block)
    → Tiles a e (c ∷ bs)
    → e + 16 < 2 ^ 32
    → c.used ≡ false
    → size ≤ c.size
    → IsGranted a e c.addr size (c ∷ bs) (mark_used (split_block size c bs))
unfolding split_block release Tiles in_use IsUsed
grant_first a e size c bs (at, t) fits free enough =
    let le = Tiles-le (a + 12 + c.size) e bs t in
    let self : (c.addr == c.addr) ≡ true = (==_iff _ _).1 refl in
    let long : add32 (add32 size 12) 16 ≡ size + 28 = omega arith in
    elim (Bool-cases (leb (add32 (add32 size 12) 16) c.size)) [
      | inl splits ↦
          let room : size + 28 ≤ c.size = ground (arith, long) in
          let next : add32 (add32 c.addr 12) size ≡ a + 12 + size = omega arith in
          let rest : a + 12 + c.size ≡ a + 12 + size + 12 + sub32 (sub32 c.size size) 12 =
            omega arith in
          let there = subst (λ k. Tiles k e bs) rest t in
          rw splits (record {
            tiles = (at, (next, there));
            block = record c { size = size; used = true };
            at = refl;
            enough = omega arith;
            little_more = omega arith;
            used = inl (refl, refl);
            before = [];
            after = in_use bs;
            was = rw free refl;
            now = refl;
            undone = rw (self, free) refl;
          })
      | inr whole ↦
          let small : c.size < size + 28 = ground (arith, long) in
          rw whole (record {
            tiles = (at, t);
            block = record c { used = true };
            at = refl;
            enough = enough;
            little_more = small;
            used = inl (refl, refl);
            before = [];
            after = in_use bs;
            was = rw free refl;
            now = refl;
            undone = rw (self, free) refl;
          })
    ]

pub use_block-IsGranted :
    (a e size : ℕ) (b : Block) (bs : List Block)
    → Tiles a e bs
    → e + 16 < 2 ^ 32
    → IsFree b bs
    → size ≤ b.size
    → IsGranted a e b.addr size bs (use_block b.addr size bs)
unfolding use_block release Tiles in_use IsFree IsUsed
use_block-IsGranted a e size b [] _ fits none_free enough = elim none_free [ ]
use_block-IsGranted a e size b (c ∷ bs) (at, t) fits (inl (same, free)) enough =
    let here : (c.addr == b.addr) ≡ true = (==_iff _ _).1 (ap (λ x. x.addr) same) in
    let g =
      grant_first a e size c bs (at, t) fits (ap (λ x. x.used) same ∙ free)
        (omega (arith, ap (λ x. x.size) same)) in
    rw here (
      subst (λ k. IsGranted a e k size (c ∷ bs) (mark_used (split_block size c bs)))
        (ap (λ x. x.addr) same) g)
use_block-IsGranted a e size b (c ∷ bs) (at, t) fits (inr there) enough =
    let g = use_block-IsGranted (a + 12 + c.size) e size b bs t fits there enough in
    let (lo, _) = IsFree-bounds (a + 12 + c.size) e b bs t there in
    let apart : (c.addr == b.addr) ≡ false = ground arith in
    elim (Bool-cases c.used) [
      | inl used ↦ rw apart (record {
        tiles = (at, g.tiles);
        block = g.block;
        at = g.at;
        enough = g.enough;
        little_more = g.little_more;
        used = inr g.used;
        before = (c.addr, c.size) ∷ g.before;
        after = g.after;
        was = rw used (ap (◌∷◌ (c.addr, c.size)) g.was);
        now = rw used (ap (◌∷◌ (c.addr, c.size)) g.now);
        undone = rw (apart, used) (ap (◌∷◌ (c.addr, c.size)) g.undone);
      })
      | inr free ↦ rw apart (record {
        tiles = (at, g.tiles);
        block = g.block;
        at = g.at;
        enough = g.enough;
        little_more = g.little_more;
        used = inr g.used;
        before = g.before;
        after = g.after;
        was = rw free g.was;
        now = rw free g.now;
        undone = rw (apart, free) g.undone;
      })
    ]
