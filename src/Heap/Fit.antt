-- ===== src/Heap/Fit.antt =====
-- `find_best_fit` of kernel/mm/heap.c.
use mex_os.Base.{
  ℕ, ◌^◌, ◌+◌, ◌-◌, ◌<◌, ◌≤◌, ◌≡◌, inl, inr, refl, sym, ap, ◌∙◌, List, [], ◌∷◌, Bool, true, false,
  not, ◌&&◌, arith, ◌==◌, subst, Bool-cases, sub32, ltb, leb, Option, none, some, dec_lt,
}
use mex_os.Heap.{Block, best_from, find_best_fit}
use mex_os.Heap.Tiles.{IsFree}

-- `b` is free and long enough, and no such block is shorter.
pub record IsBest (size : ℕ) (b : Block) (bs : List Block) : Type 0 where
  pub free : IsFree b bs
  pub enough : size ≤ b.size
  pub shortest : (c : Block) → IsFree c bs → size ≤ c.size → b.size ≤ c.size

-- What the loop returns when it has found `best` so far, which is `diff` too long: `best` still, or
-- a better block.
data Search (size diff : ℕ) (best : Option Block) (bs : List Block) (r : Option Block)
    : Type 0 where
  kept :
      r ≡ best
      → ((c : Block) → IsFree c bs → size ≤ c.size → size + diff ≤ c.size)
      → Search size diff best bs r
  took :
      (b : Block)
      → r ≡ some b
      → IsBest size b bs
      → b.size < size + diff
      → Search size diff best bs r

abbrev is_better : ℕ → ℕ → Block → Bool
is_better size diff b = not b.used && leb size b.size && ltb (sub32 b.size size) diff

better-free : (size diff : ℕ) (b : Block) → is_better size diff b ≡ true → b.used ≡ false
better-free size diff b e = ground arith

better_lem :
    (size diff : ℕ) (b : Block)
    → b.size < 2 ^ 32
    → is_better size diff b ≡ true
    → (size ≤ b.size) × (b.size < size + diff) × (sub32 b.size size ≡ b.size - size)
better_lem size diff b word e = (ground arith, ground (arith, word), ground (arith, word))

worse_lem :
    (size diff : ℕ) (b : Block)
    → b.size < 2 ^ 32
    → is_better size diff b ≡ false
    → b.used ≡ false
    → size ≤ b.size
    → size + diff ≤ b.size
worse_lem size diff b word e free enough = ground (arith, word, free, enough)

extend :
    {size : ℕ} (b b' : Block) (bs : List Block)
    → IsBest size b' bs
    → (b.used ≡ false → size ≤ b.size → b'.size ≤ b.size)
    → IsBest size b' (b ∷ bs)
unfolding IsFree
extend b b' bs best first = record {
  free = inr best.free;
  enough = best.enough;
  shortest = λ c f enough. elim f [
    | inl (same, free) ↦
        let short : b'.size ≤ b.size =
          first (ap (λ x. x.used) same ∙ free) (omega (arith, ap (λ x. x.size) same)) in
        omega (arith, short, ap (λ x. x.size) same)
    | inr there ↦ best.shortest c there enough
  ];
}

best_from-Search :
    (size diff : ℕ) (best : Option Block) (bs : List Block)
    → ((c : Block) → IsFree c bs → c.size < 2 ^ 32)
    → Search size diff best bs (best_from size best diff bs)
unfolding best_from IsFree
best_from-Search size diff best [] word = kept refl (λ c free enough. elim free [ ])
best_from-Search size diff best (b ∷ bs) word =
    let later : (c : Block) → IsFree c bs → c.size < 2 ^ 32 = λ c f. word c (inr f) in
    elim (Bool-cases (is_better size diff b)) [
      | inl better ↦
          let free = better-free size diff b better in
          let (enough, less, d) = better_lem size diff b (word b (inl (refl, free))) better in
          elim (Bool-cases (sub32 b.size size == 0)) [
            | inl exact ↦
                let fits : b.size ≡ size = ground (arith, d, enough) in
                rw (better, exact)
                  (took b refl
                    (record {
                      free = inl (refl, free);
                      enough = enough;
                      shortest = λ c f e. omega (arith, fits, e);
                    })
                    less)
            | inr apart ↦
                rw (better, apart, d)
                  (elim (best_from-Search size (b.size - size) (some b) bs later) [
                    | kept e none_less ↦
                        took b e
                          (record {
                            free = inl (refl, free);
                            enough = enough;
                            shortest = λ c f e. elim f [
                              | inl (same, _) ↦ omega (arith, ap (λ x. x.size) same)
                              | inr there ↦ omega (arith, none_less c there e, enough)
                            ];
                          })
                          less
                    | took b' e best' less' ↦
                        took b' e (extend b b' bs best' (λ _ _. omega (arith, enough, less')))
                          (omega (arith, enough, less, less'))
                  ])
          ]
      | inr worse ↦
          let skips : b.used ≡ false → size ≤ b.size → size + diff ≤ b.size =
            λ free enough. worse_lem size diff b (word b (inl (refl, free))) worse free enough in
          rw worse (elim (best_from-Search size diff best bs later) [
            | kept e none_less ↦ kept e (λ c f enough. elim f [
              | inl (same, free) ↦
                  let long : size + diff ≤ b.size =
                    skips (ap (λ x. x.used) same ∙ free) (omega (arith, ap (λ x. x.size) same)) in
                  omega (arith, long, ap (λ x. x.size) same)
              | inr there ↦ none_less c there enough
            ])
            | took b' e best' less' ↦
                took b' e
                  (extend b b' bs best' (λ free enough. omega (arith, skips free enough, less')))
                  less'
          ])
    ]

-- `find_best_fit` finds the shortest free block that is long enough; it finds none only if there is
-- none.
pub find_best_fit-IsBest :
    (size : ℕ) (bs : List Block) (b : Block)
    → ((c : Block) → IsFree c bs → c.size < 2 ^ 32 - 1)
    → find_best_fit size bs ≡ some b
    → IsBest size b bs
unfolding find_best_fit
find_best_fit-IsBest size bs b word e =
    elim (best_from-Search size 0xFFFFFFFF none bs (λ c f. omega (arith, word c f))) [
      | kept k _ ↦ let absurd : none ≡ some b = sym k ∙ e in cc
      | took b' k best _ ↦
          let same : some b' ≡ some b = sym k ∙ e in
          let at : b' ≡ b = ground arith in subst (λ x. IsBest size x bs) at best
    ]

pub find_best_fit-none :
    (size : ℕ) (bs : List Block) (c : Block)
    → ((d : Block) → IsFree d bs → d.size < 2 ^ 32 - 1)
    → find_best_fit size bs ≡ none
    → IsFree c bs
    → c.size < size
unfolding find_best_fit
find_best_fit-none size bs c word e f =
    elim (best_from-Search size 0xFFFFFFFF none bs (λ d g. omega (arith, word d g))) [
      | kept k none_less ↦ elim (dec_lt c.size size) [
        | yes short ↦ short
        | no enough ↦ omega (arith, none_less c f (omega arith), word c f)
      ]
      | took b' k best _ ↦ let absurd : some b' ≡ none = sym k ∙ e in cc
    ]
