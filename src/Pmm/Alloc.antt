-- ===== src/Pmm/Alloc.antt =====
-- `pmm_alloc_block` and `pmm_free_block`: which block they take, and that the count of taken blocks
-- stays right.
use mex_os.Base.{
  ℕ, ◌+◌, ◌*◌, ◌/◌, ◌^◌, ◌≤◌, ◌<◌, ◌≡◌, ◌≢◌, ◌⊎◌, refl, ap, sym, ◌∙◌, inl, inr, Bool, true, false,
  none, some, if◌then◌else◌, ◌==◌, ==_iff, Bool-cases, arith, ℕ_discrete, Option-cases, add32,
  sub32,
}
use mex_os.Pmm.{Pmm, block_size, get_free_block_count, alloc_block, free_block}
use mex_os.Pmm.Bitmap.{bitmap_set, bitmap_unset, bitmap_first_free}
use mex_os.Pmm.Bits.{
  is_used, AreWords, is_used-bitmap_set, is_used-bitmap_unset, bitmap_set-AreWords,
  bitmap_unset-AreWords, Words_ext,
}
use mex_os.Pmm.Scan.{FirstClear, bitmap_first_free-FirstClear}
use mex_os.Pmm.Count.{
  count_used, count_used-lt, count_used-le, count-bitmap_set, count-bitmap_unset,
}

-- The count is the number of set bits, block 0 (the null pointer's) is taken, and the memory is
-- at most 4 GiB.
pub record IsValid (p : Pmm) : Type 0 where
  pub are_words : AreWords p.bitmap
  pub sized : p.max_blocks ≤ 2 ^ 20
  pub counted : p.used_blocks ≡ count_used (is_used p.bitmap) p.max_blocks
  pub null_taken : is_used p.bitmap 0 ≡ true

-- Block `frame` was free, as the lowest of all, and is now the only new one taken.
pub record Took (p q : Pmm) (frame : ℕ) : Type 0 where
  pub not_null : 0 < frame
  pub in_memory : frame < p.max_blocks
  pub was_free : is_used p.bitmap frame ≡ false
  pub lowest : (f : ℕ) → f < frame → is_used p.bitmap f ≡ true
  pub marked : (f : ℕ) → is_used q.bitmap f ≡ (if f == frame then true else is_used p.bitmap f)
  pub counted : q.used_blocks ≡ p.used_blocks + 1
  pub same_max : q.max_blocks ≡ p.max_blocks
  pub same_addr : q.bitmap_addr ≡ p.bitmap_addr
  pub same_size : q.bitmap_size ≡ p.bitmap_size
  pub same_memory : q.memory_size ≡ p.memory_size
  pub valid : IsValid q

take_frame : (p : Pmm) → ℕ → Pmm
take_frame p frame = record p {
  bitmap = bitmap_set p.bitmap frame;
  used_blocks = add32 p.used_blocks 1;
}

take_frame-Took :
    (p : Pmm) (frame : ℕ)
    → IsValid p
    → FirstClear (is_used p.bitmap) 0 (p.max_blocks / 32 * 32) (some frame)
    → Took p (take_frame p frame) frame
unfolding take_frame
take_frame-Took p frame v c =
    let inside : frame < p.max_blocks = omega arith in
    let count = count-bitmap_set p.bitmap p.max_blocks frame inside c.2 in
    let room = count_used-lt (is_used p.bitmap) p.max_blocks frame inside c.2 in
    let added : add32 p.used_blocks 1 ≡ p.used_blocks + 1 = omega arith in
    record {
      not_null = elim (ℕ_discrete frame 0) [
        | yes e ↦ cc (ap (is_used p.bitmap) e)
        | no ne ↦ omega arith
      ];
      in_memory = inside;
      was_free = c.2;
      lowest = λ f l. c.3 f (omega arith) l;
      marked = is_used-bitmap_set p.bitmap frame;
      counted = added;
      same_max = refl;
      same_addr = refl;
      same_size = refl;
      same_memory = refl;
      valid = record {
        are_words = bitmap_set-AreWords p.bitmap frame v.are_words;
        sized = v.sized;
        counted = added ∙ ap (λ k. k + 1) v.counted ∙ sym count;
        null_taken = ground (arith, is_used-bitmap_set p.bitmap frame 0);
      };
    }

free_count : {p : Pmm} → IsValid p → get_free_block_count p + p.used_blocks ≡ p.max_blocks
unfolding get_free_block_count
free_count {p} v = omega (arith, count_used-le (is_used p.bitmap) p.max_blocks)

-- What an allocation of one block may do.
abbrev pub AllocCase : Pmm → ℕ × Pmm → Type 0
AllocCase p (addr, q) =
    ((addr ≡ 0) × (q ≡ p) × ((f : ℕ) → f < p.max_blocks / 32 * 32 → is_used p.bitmap f ≡ true))
    ⊎ ((frame : ℕ) × (addr ≡ frame * block_size) × Took p q frame)

full_of_count : (used : ℕ → Bool) (n f : ℕ) → f < n → n ≤ count_used used n → used f ≡ true
full_of_count used n f lt full = elim (Bool-cases (used f)) [
  | inl e ↦ e
  | inr clear ↦ absurd (omega (arith, count_used-lt used n f lt clear))
]

-- With a valid manager `pmm_alloc_block` either returns NULL, changes nothing, and every block of
-- the searched words is taken; or it returns the address of the lowest free block, which is not
-- block 0 and lies inside the memory, marks that block alone, counts it, and stays valid.
pub alloc_block-cases : (p : Pmm) → IsValid p → AllocCase p (alloc_block p)
unfolding alloc_block take_frame
alloc_block-cases p v = elim (Bool-cases (get_free_block_count p == 0)) [
  | inl exhausted ↦ rw exhausted (
      inl (
        refl,
        refl,
        λ f l.
            full_of_count (is_used p.bitmap) p.max_blocks f (omega arith)
              (omega (arith, free_count v, (==_iff _ _).0 exhausted)),
      ))
  | inr room ↦
      let found = bitmap_first_free-FirstClear p.bitmap p.max_blocks in
      elim (Option-cases (bitmap_first_free p.bitmap p.max_blocks)) [
        | inl e ↦
            let all_taken : FirstClear (is_used p.bitmap) 0 (p.max_blocks / 32 * 32) none =
              rw e at found in
            rw (room, e) (inl (refl, refl, λ f l. all_taken f (omega arith) l))
        | inr (frame, e) ↦
            let first : FirstClear (is_used p.bitmap) 0 (p.max_blocks / 32 * 32) (some frame) =
              rw e at found in
            rw (room, e) (inr (frame, omega arith, take_frame-Took p frame v first))
      ]
]

-- Freeing a block that is in use, other than block 0, clears its bit alone, takes it off the count
-- and keeps the manager valid.
pub free_block-IsValid :
    (p : Pmm) (frame : ℕ)
    → IsValid p
    → 0 < frame
    → frame < p.max_blocks
    → is_used p.bitmap frame ≡ true
    → let q = free_block p (frame * block_size) in
      IsValid q
      × (q.used_blocks + 1 ≡ p.used_blocks)
      × ((f : ℕ) → is_used q.bitmap f ≡ (if f == frame then false else is_used p.bitmap f))
unfolding free_block
free_block-IsValid p frame v pos inside taken =
    let e : frame * block_size / block_size ≡ frame = omega arith in
    let count = count-bitmap_unset p.bitmap p.max_blocks frame inside taken in
    let bound = count_used-le (is_used p.bitmap) p.max_blocks in
    let less : sub32 p.used_blocks 1 + 1 ≡ p.used_blocks = omega (arith, v.counted, v.sized) in
    rw e (
      record {
        are_words = bitmap_unset-AreWords p.bitmap frame v.are_words;
        sized = v.sized;
        counted = omega (arith, v.counted);
        null_taken = ground (arith, is_used-bitmap_unset p.bitmap frame 0, v.null_taken);
      },
      less,
      is_used-bitmap_unset p.bitmap frame,
    )

pub Pmm_ext :
    (p q : Pmm)
    → p.bitmap ≡ q.bitmap
    → p.bitmap_addr ≡ q.bitmap_addr
    → p.bitmap_size ≡ q.bitmap_size
    → p.memory_size ≡ q.memory_size
    → p.used_blocks ≡ q.used_blocks
    → p.max_blocks ≡ q.max_blocks
    → p ≡ q
Pmm_ext p q a at b c d e = λ i. record {
  bitmap_addr = at i;
  bitmap = a i;
  bitmap_size = b i;
  memory_size = c i;
  used_blocks = d i;
  max_blocks = e i;
}

free-Took :
    (p q : Pmm) (frame : ℕ) → IsValid p → Took p q frame → free_block q (frame * block_size) ≡ p
unfolding free_block
free-Took p q frame v t =
    let e : frame * block_size / block_size ≡ frame = omega arith in
    rw e (
      Pmm_ext _ p
        (Words_ext (bitmap_unset q.bitmap frame) p.bitmap
          (bitmap_unset-AreWords q.bitmap frame t.valid.are_words) v.are_words
          (λ f. elim (ℕ_discrete f frame) [
            | yes same ↦ ground (
              arith,
              is_used-bitmap_unset q.bitmap frame f,
              ap (is_used p.bitmap) same,
              t.was_free,
            )
            | no other ↦ ground (arith, is_used-bitmap_unset q.bitmap frame f, t.marked f)
          ]))
        t.same_addr t.same_size t.same_memory
        (omega
          (arith, t.counted, v.counted, count_used-le (is_used p.bitmap) p.max_blocks, v.sized))
        t.same_max)

-- Freeing the block just allocated gives back the manager as it was, words and count.
pub free_block-alloc_block :
    (p : Pmm)
    → IsValid p
    → (alloc_block p).0 ≢ 0
    → free_block (alloc_block p).1 (alloc_block p).0 ≡ p
free_block-alloc_block p v got = elim (alloc_block-cases p v) [
  | inl h ↦ absurd (got h.0)
  | inr (frame, addr, t) ↦ rw addr (free-Took p (alloc_block p).1 frame v t)
]
