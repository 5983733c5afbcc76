-- ===== src/Str/Memory.antt =====
-- What the memory routines of kernel/lib/string.c write.
use mex_os.Base.{
  ℕ, zero, suc, ◌+◌, ◌-◌, ◌<◌, ◌≤◌, ◌≡◌, ◌≢◌, ◌⊎◌, inl, inr, refl, sym, ap, ◌∙◌, arith, ◌==◌,
  ==_iff, true, false, ℕ_discrete,
}
use mex_os.Str.{Bytes, write, fill, memcpy, copy_text, strncpy}

write_here : (m : Bytes) (a v : ℕ) → write m a v a ≡ v
write_here m a v = let here : (a == a) ≡ true = (==_iff a a).1 refl in rw here refl

write_apart : (m : Bytes) (a v b : ℕ) → b ≢ a → write m a v b ≡ m b
write_apart m a v b apart = let other : (b == a) ≡ false = ground arith in rw other refl

-- `n` bytes from `d` on are `v`, and no other changes.
pub record IsFilled (n d v : ℕ) (m m' : Bytes) : Type 0 where
  pub inside : (a : ℕ) → d ≤ a → a < d + n → m' a ≡ v
  pub outside : (a : ℕ) → (a < d) ⊎ (d + n ≤ a) → m' a ≡ m a

pub fill-IsFilled : (n d v : ℕ) (m : Bytes) → IsFilled n d v m (fill n d v m)
unfolding fill
fill-IsFilled zero d v m = record {
  inside = λ a lo hi. (let z : ⊥ = omega (arith, lo, hi) in elim z [ ]);
  outside = λ a o. refl;
}
fill-IsFilled (suc n) d v m =
    let f = fill-IsFilled n (d + 1) v (write m d v) in
    record {
      inside = λ a lo hi. elim (ℕ_discrete a d) [
        | yes same ↦
            f.outside a (inl (omega (arith, same))) ∙ ap (write m d v) same ∙ write_here m d v
        | no apart ↦ f.inside a (omega (arith, lo, apart)) (omega (arith, hi))
      ];
      outside = λ a o. elim o [
        | inl below ↦
            f.outside a (inl (omega (arith, below))) ∙ write_apart m d v a (omega (arith, below))
        | inr above ↦
            f.outside a (inr (omega (arith, above))) ∙ write_apart m d v a (omega (arith, above))
      ];
    }

-- The `n` bytes from `s` on in `m` are at `d` in `m'`, and no other byte changes.
pub record IsCopied (n d s : ℕ) (m m' : Bytes) : Type 0 where
  pub copied : (i : ℕ) → i < n → m' (d + i) ≡ m (s + i)
  pub outside : (a : ℕ) → (a < d) ⊎ (d + n ≤ a) → m' a ≡ m a

-- `memcpy` copies the bytes, also when the buffers overlap if the target starts first.
pub memcpy-IsCopied :
    (d s n : ℕ) (m : Bytes) → (d ≤ s) ⊎ (s + n ≤ d) → IsCopied n d s m (memcpy d s n m)
unfolding memcpy
memcpy-IsCopied d s zero m order = record {
  copied = λ i below. (let z : ⊥ = omega (arith, below) in elim z [ ]);
  outside = λ a o. refl;
}
memcpy-IsCopied d s (suc n) m order =
    let m1 : Bytes = write m d (m s) in
    let later : (d + 1 ≤ s + 1) ⊎ (s + 1 + n ≤ d + 1) = omega arith in
    let c = memcpy-IsCopied (d + 1) (s + 1) n m1 later in
    record {
      copied = λ i below. elim (ℕ_discrete i 0) [
        | yes first ↦
            let at : d + i ≡ d = omega (arith, first) in
            let from : s ≡ s + i = omega (arith, first) in
            c.outside (d + i) (inl (omega (arith, first)))
            ∙ ap m1 at
            ∙ write_here m d (m s)
            ∙ ap m from
        | no more ↦
            let j : ℕ = i - 1 in
            let at : d + i ≡ d + 1 + j = omega (arith, more) in
            let from : s + 1 + j ≡ s + i = omega (arith, more) in
            let apart : s + 1 + j ≢ d = omega (arith, order, more, below) in
            ap (memcpy (d + 1) (s + 1) n m1) at
            ∙ c.copied j (omega (arith, more, below))
            ∙ write_apart m d (m s) (s + 1 + j) apart
            ∙ ap m from
      ];
      outside = λ a o. elim o [
        | inl under ↦
            c.outside a (inl (omega (arith, under)))
            ∙ write_apart m d (m s) a (omega (arith, under))
        | inr above ↦
            c.outside a (inr (omega (arith, above)))
            ∙ write_apart m d (m s) a (omega (arith, above))
      ];
    }

-- A text of `k` characters is at `d`, followed by zeros up to `d + n`, that byte included; no other
-- byte changes.
pub record IsPadded (k n d s : ℕ) (m m' : Bytes) : Type 0 where
  pub text : (i : ℕ) → i < k → m' (d + i) ≡ m (s + i)
  pub zeros : (i : ℕ) → k ≤ i → i ≤ n → m' (d + i) ≡ 0
  pub outside : (a : ℕ) → (a < d) ⊎ (d + n < a) → m' a ≡ m a

-- `strncpy` of a text shorter than `n` writes `n + 1` bytes: one zero more than it is asked for.
pub strncpy-IsPadded :
    (d s k n : ℕ) (m : Bytes)
    → k < n
    → m (s + k) ≡ 0
    → ((i : ℕ) → i < k → m (s + i) ≢ 0)
    → (s + k < d) ⊎ (d + n < s)
    → IsPadded k n d s m (strncpy d s n m)
unfolding strncpy copy_text
strncpy-IsPadded d s k zero m short ends chars apart =
    let z : ⊥ = omega (arith, short) in elim z [ ]
strncpy-IsPadded d s zero (suc n) m short ends chars apart =
    let end : (m s == 0) ≡ true = (==_iff _ _).1 (ap m (omega arith) ∙ ends) in
    let m1 : Bytes = write m d 0 in
    let f = fill-IsFilled (suc n) (d + 1) 0 m1 in
    rw end (record {
      text = λ i below. (let z : ⊥ = omega (arith, below) in elim z [ ]);
      zeros = λ i lo hi. elim (ℕ_discrete i 0) [
        | yes first ↦
            let at : d + i ≡ d = omega (arith, first) in
            f.outside (d + i) (inl (omega (arith, first))) ∙ ap m1 at ∙ write_here m d 0
        | no more ↦ f.inside (d + i) (omega (arith, more)) (omega (arith, hi))
      ];
      outside = λ a o. elim o [
        | inl below ↦
            f.outside a (inl (omega (arith, below))) ∙ write_apart m d 0 a (omega (arith, below))
        | inr above ↦
            f.outside a (inr (omega (arith, above))) ∙ write_apart m d 0 a (omega (arith, above))
      ];
    })
strncpy-IsPadded d s (suc k) (suc n) m short ends chars apart =
    let zero_at : s + 0 ≡ s = omega arith in
    let more : (m s == 0) ≡ false = ground (arith, sym (ap m zero_at), chars 0 (omega arith)) in
    let m1 : Bytes = write m d (m s) in
    let same : (i : ℕ) → i ≤ k → m1 (s + 1 + i) ≡ m (s + suc i) = λ i le.
      (let at : s + 1 + i ≡ s + suc i = omega arith in
        write_apart m d (m s) (s + 1 + i) (omega (arith, le, apart)) ∙ ap m at) in
    let p =
      strncpy-IsPadded (d + 1) (s + 1) k n m1 (omega (arith, short)) (same k (omega arith) ∙ ends)
        (λ i below z.
          chars (suc i) (omega (arith, below)) (sym (same i (omega (arith, below))) ∙ z))
        (omega (arith, apart)) in
    let m' : Bytes = strncpy (d + 1) (s + 1) n m1 in
    rw more (record {
      text = λ i below. elim (ℕ_discrete i 0) [
        | yes first ↦
            let at : d + i ≡ d = omega (arith, first) in
            let from : s ≡ s + i = omega (arith, first) in
            p.outside (d + i) (inl (omega (arith, first)))
            ∙ ap m1 at
            ∙ write_here m d (m s)
            ∙ ap m from
        | no later ↦
            let j : ℕ = i - 1 in
            let at : d + i ≡ d + 1 + j = omega (arith, later) in
            let from : s + suc j ≡ s + i = omega (arith, later) in
            ap m' at
            ∙ p.text j (omega (arith, later, below))
            ∙ same j (omega (arith, later, below))
            ∙ ap m from
      ];
      zeros = λ i lo hi.
          (let at : d + i ≡ d + 1 + (i - 1) = omega (arith, lo) in
            ap m' at ∙ p.zeros (i - 1) (omega (arith, lo)) (omega (arith, hi)));
      outside = λ a o. elim o [
        | inl below ↦
            p.outside a (inl (omega (arith, below)))
            ∙ write_apart m d (m s) a (omega (arith, below))
        | inr above ↦
            p.outside a (inr (omega (arith, above)))
            ∙ write_apart m d (m s) a (omega (arith, above))
      ];
    })
