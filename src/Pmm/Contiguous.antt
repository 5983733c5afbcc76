-- ===== src/Pmm/Contiguous.antt =====
-- `pmm_alloc_blocks` and `pmm_free_blocks`: runs of blocks.
use mex_os.Base.{
  ℕ, zero, suc, ◌+◌, ◌-◌, ◌*◌, ◌/◌, ◌^◌, ◌≤◌, ◌<◌, ◌≡◌, ◌≢◌, ◌⊎◌, refl, ap, sym, ◌∙◌, inl, inr,
  true, false, none, some, if◌then◌else◌, Bool-cases, arith, ltb, ltb→lt, ℕ_discrete, Option-cases,
  add32,
}
use mex_os.Pmm.{
  Pmm, block_size, get_free_block_count, alloc_blocks, free_blocks, set_run, unset_run,
}
use mex_os.Pmm.Bitmap.{Words, bitmap_set, bitmap_unset, bitmap_first_free_s}
use mex_os.Pmm.Bits.{
  is_used, AreWords, is_used-bitmap_set, is_used-bitmap_unset, bitmap_set-AreWords,
  bitmap_unset-AreWords, Words_ext,
}
use mex_os.Pmm.Count.{count_used, count_used-le, count-bitmap_set}
use mex_os.Pmm.Runs.{FreeRun, FirstRun, bitmap_first_free_s-FirstRun}
use mex_os.Pmm.Alloc.{IsValid, Pmm_ext}
use mex_os.Pmm.Regions.{within}

set_run-bits :
    (n b : ℕ) (m : Words) (f : ℕ)
    → b + n < 2 ^ 32
    → is_used (set_run n b m) f ≡ (if within b n f then true else is_used m f)
unfolding set_run
set_run-bits zero b m f h = ground arith
set_run-bits (suc n) b m f h =
    let e : add32 b 1 ≡ b + 1 = omega arith in
    ap (λ k. is_used (set_run n k (bitmap_set m b)) f) e
    ∙ set_run-bits n (b + 1) (bitmap_set m b) f (omega arith)
    ∙ ground (arith, is_used-bitmap_set m b f)

unset_run-bits :
    (n b : ℕ) (m : Words) (f : ℕ)
    → b + n < 2 ^ 32
    → is_used (unset_run n b m) f ≡ (if within b n f then false else is_used m f)
unfolding unset_run
unset_run-bits zero b m f h = ground arith
unset_run-bits (suc n) b m f h =
    let e : add32 b 1 ≡ b + 1 = omega arith in
    ap (λ k. is_used (unset_run n k (bitmap_unset m b)) f) e
    ∙ unset_run-bits n (b + 1) (bitmap_unset m b) f (omega arith)
    ∙ ground (arith, is_used-bitmap_unset m b f)

set_run-AreWords : (n b : ℕ) (m : Words) → AreWords m → AreWords (set_run n b m)
unfolding set_run
set_run-AreWords zero b m w = w
set_run-AreWords (suc n) b m w =
    set_run-AreWords n (add32 b 1) (bitmap_set m b) (bitmap_set-AreWords m b w)

unset_run-AreWords : (n b : ℕ) (m : Words) → AreWords m → AreWords (unset_run n b m)
unfolding unset_run
unset_run-AreWords zero b m w = w
unset_run-AreWords (suc n) b m w =
    unset_run-AreWords n (add32 b 1) (bitmap_unset m b) (bitmap_unset-AreWords m b w)

-- The bits of a run of free blocks below `top`, once set, are as many more.
set_run-count :
    (n b top : ℕ) (m : Words)
    → b + n ≤ top
    → top < 2 ^ 32
    → ((f : ℕ) → b ≤ f → f < b + n → is_used m f ≡ false)
    → count_used (is_used (set_run n b m)) top ≡ count_used (is_used m) top + n
unfolding set_run
set_run-count zero b top m fit small free = omega arith
set_run-count (suc n) b top m fit small free =
    let e : add32 b 1 ≡ b + 1 = omega arith in
    let here = free b (omega arith) (omega arith) in
    ap (λ k. count_used (is_used (set_run n k (bitmap_set m b))) top) e
    ∙ omega (
      arith,
      count-bitmap_set m top b (omega arith) here,
      set_run-count n (b + 1) top (bitmap_set m b) (omega arith) small
          (λ f p q. ground (arith, is_used-bitmap_set m b f, free f (omega arith) (omega arith))),
    )

-- The `count` blocks from `frame` on were free, as the first such run, and are now taken.
pub record TookRun (p q : Pmm) (count frame : ℕ) : Type 0 where
  pub not_null : 0 < frame
  pub starts_inside : frame < p.max_blocks
  pub were_free : (f : ℕ) → frame ≤ f → f < frame + count → f < 2 ^ 32 → is_used p.bitmap f ≡ false
  pub first : (f : ℕ) → f < frame → ¬ FreeRun p.bitmap count f
  pub marked :
      frame + count < 2 ^ 32
      → (f : ℕ) → is_used q.bitmap f ≡ (if within frame count f then true else is_used p.bitmap f)
  pub same_max : q.max_blocks ≡ p.max_blocks
  pub same_addr : q.bitmap_addr ≡ p.bitmap_addr
  pub same_size : q.bitmap_size ≡ p.bitmap_size
  pub same_memory : q.memory_size ≡ p.memory_size
  pub valid : frame + count ≤ p.max_blocks → IsValid q × (q.used_blocks ≡ p.used_blocks + count)

take_run : Pmm → ℕ → ℕ → Pmm
take_run p count frame = record p {
  bitmap = set_run count frame p.bitmap;
  used_blocks = add32 p.used_blocks count;
}

take_run-TookRun :
    (p : Pmm) (count frame : ℕ)
    → IsValid p
    → 0 < count
    → FirstRun p.bitmap count (p.max_blocks / 32 * 32) (some frame)
    → TookRun p (take_run p count frame) count frame
unfolding take_run
take_run-TookRun p count frame v pos r =
    let free : (f : ℕ) → frame ≤ f → f < frame + count → f < 2 ^ 32 → is_used p.bitmap f ≡ false =
      λ f a b c. ap (is_used p.bitmap) (omega arith) ∙ r.1 (f - frame) (omega arith) in
    record {
      not_null = elim (ℕ_discrete frame 0) [
        | yes e ↦ cc (v.null_taken, free 0 (omega arith) (omega arith) (omega arith))
        | no ne ↦ omega arith
      ];
      starts_inside = omega arith;
      were_free = free;
      first = r.2;
      marked = λ fit f. set_run-bits count frame p.bitmap f fit;
      same_max = refl;
      same_addr = refl;
      same_size = refl;
      same_memory = refl;
      valid = λ fit.
          let more =
            set_run-count count frame p.max_blocks p.bitmap fit (omega (arith, v.sized))
              (λ f a b. free f a b (omega (arith, v.sized))) in
          let bound = count_used-le (is_used (set_run count frame p.bitmap)) p.max_blocks in
          let added : add32 p.used_blocks count ≡ p.used_blocks + count =
            omega (arith, v.counted, v.sized) in
          (
            record {
              are_words = set_run-AreWords count frame p.bitmap v.are_words;
              sized = v.sized;
              counted = omega (arith, v.counted);
              null_taken =
                  set_run-bits count frame p.bitmap 0 (omega (arith, v.sized))
                  ∙ ground (arith, v.null_taken);
            },
            added,
          );
    }

abbrev pub RunCase : Pmm → ℕ → ℕ × Pmm → Type 0
RunCase p count (addr, q) =
    ((addr ≡ 0)
      × (q ≡ p)
      × ((p.max_blocks - p.used_blocks < count)
          ⊎ ((f : ℕ) → f < p.max_blocks / 32 * 32 → ¬ FreeRun p.bitmap count f)))
    ⊎ ((frame : ℕ) × (addr ≡ frame * block_size) × TookRun p q count frame)

-- For a positive count, `pmm_alloc_blocks` on a valid manager either returns NULL and changes
-- nothing, because too few blocks are free or no free run of that length starts in the searched
-- words; or it returns the first free run, marks it, and, if the run ends inside the memory, counts
-- it and stays valid.
pub alloc_blocks-cases :
    (p : Pmm) (count : ℕ) → IsValid p → 0 < count → RunCase p count (alloc_blocks p count)
unfolding alloc_blocks take_run get_free_block_count
alloc_blocks-cases p count v pos = elim (Bool-cases (ltb (get_free_block_count p) count)) [
  | inl few ↦ rw few (
      inl (
        refl,
        refl,
        inl (
            omega (
              arith,
              ltb→lt _ _ few,
              v.sized,
              v.counted,
              count_used-le (is_used p.bitmap) p.max_blocks,
            )),
      ))
  | inr room ↦
      let found =
        bitmap_first_free_s-FirstRun p.bitmap p.max_blocks count (omega (arith, v.sized)) pos in
      elim (Option-cases (bitmap_first_free_s p.bitmap p.max_blocks count)) [
        | inl e ↦
            let no_run : FirstRun p.bitmap count (p.max_blocks / 32 * 32) none = rw e at found in
            rw (room, e) (inl (refl, refl, inr no_run))
        | inr (frame, e) ↦
            let first : FirstRun p.bitmap count (p.max_blocks / 32 * 32) (some frame) =
              rw e at found in
            rw (room, e)
              (inr (frame, omega (arith, v.sized), take_run-TookRun p count frame v pos first))
      ]
]

free-TookRun :
    (p q : Pmm) (count frame : ℕ)
    → IsValid p
    → TookRun p q count frame
    → frame + count ≤ p.max_blocks
    → free_blocks q (frame * block_size) count ≡ p
unfolding free_blocks
free-TookRun p q count frame v t fit =
    let e : frame * block_size / block_size ≡ frame = omega arith in
    let (w, counted) = t.valid fit in
    rw e (
      Pmm_ext _ p
        (Words_ext (unset_run count frame q.bitmap) p.bitmap
          (unset_run-AreWords count frame q.bitmap w.are_words) v.are_words
          (λ f.
            unset_run-bits count frame q.bitmap f (omega (arith, v.sized))
            ∙ elim (Bool-cases (within frame count f)) [
              | inl inside ↦
                  rw inside
                    (sym (t.were_free f (ground arith) (ground arith) (ground (arith, v.sized))))
              | inr outside ↦ rw outside (t.marked (omega (arith, v.sized)) f ∙ rw outside refl)
            ]))
        t.same_addr t.same_size t.same_memory
        (omega (arith, counted, v.counted, count_used-le (is_used p.bitmap) p.max_blocks, v.sized))
        t.same_max)

-- Freeing the run just allocated, if it ends inside the memory, gives back the manager as it was.
pub free_blocks-alloc_blocks :
    (p : Pmm) (count : ℕ)
    → IsValid p
    → 0 < count
    → (alloc_blocks p count).0 ≢ 0
    → (alloc_blocks p count).0 / block_size + count ≤ p.max_blocks
    → free_blocks (alloc_blocks p count).1 (alloc_blocks p count).0 count ≡ p
free_blocks-alloc_blocks p count v pos got fit = elim (alloc_blocks-cases p count v pos) [
  | inl h ↦ absurd (got h.0)
  | inr (frame, addr, t) ↦
      rw addr (free-TookRun p (alloc_blocks p count).1 count frame v t (omega (arith, addr)))
]
