-- ===== src/Heap/Aligned.antt =====
-- `kmalloc_aligned` of kernel/mm/heap.c and `kfree` of what it returns.
use mex_os.Base.{
  ℕ, ◌^◌, ◌+◌, ◌-◌, ◌/◌, ◌%◌, ◌<◌, ◌≤◌, ◌≡◌, ◌≢◌, inl, inr, refl, ap, ◌∙◌, List, [], ◌∷◌, true,
  false, not, ◌||◌, arith, ◌==◌, ==_iff, add32, sub32, some, bit_and,
}
use native.Mathlib.Nat.{mod-lt, mod-add-div', mul-mod_left}
use mex_os.Heap.{
  Block, Heap, word_at, magic, kmalloc, kfree, free_block_at, in_heap, kmalloc_aligned, align_up,
  write_word,
}
use mex_os.Heap.Tiles.{Tiles, in_use, IsValid}
use mex_os.Heap.Grant.{IsUsed, IsUsed-bounds}
use mex_os.Heap.Calls.{kmalloc-cases}
use mex_os.Heap.Free.{free_block_at-IsFreed}

-- No header lies before the end of the blocks from `e` on.
word_at-after :
    (a e w : ℕ) (bs : List Block) (mem : ℕ → ℕ) → Tiles a e bs → w < a → word_at mem w bs ≡ mem w
unfolding word_at Tiles
word_at-after a e w [] mem t before = refl
word_at-after a e w (c ∷ bs) mem (at, t) before =
    let one : (w == c.addr) ≡ false = ground arith in
    let two : (w == c.addr + 4) ≡ false = ground arith in
    let three : (w == c.addr + 8) ≡ false = ground arith in
    rw (one, two, three) (word_at-after (a + 12 + c.size) e w bs mem t (omega arith))

-- A word among the bytes of a block is not in a header.
word_at-inside :
    (a e w : ℕ) (b : Block) (bs : List Block) (mem : ℕ → ℕ)
    → Tiles a e bs
    → IsUsed b bs
    → b.addr + 12 ≤ w
    → w < b.addr + 12 + b.size
    → word_at mem w bs ≡ mem w
unfolding word_at Tiles IsUsed
word_at-inside a e w b [] mem t none_used lo hi = elim none_used [ ]
word_at-inside a e w b (c ∷ bs) mem (at, t) (inl (same, used)) lo hi =
    let at_b : c.addr ≡ b.addr = ap (λ x. x.addr) same in
    let as_long : c.size ≡ b.size = ap (λ x. x.size) same in
    let one : (w == c.addr) ≡ false = ground (arith, at_b) in
    let two : (w == c.addr + 4) ≡ false = ground (arith, at_b) in
    let three : (w == c.addr + 8) ≡ false = ground (arith, at_b) in
    rw (one, two, three)
      (word_at-after (a + 12 + c.size) e w bs mem t (omega (arith, at_b, as_long)))
word_at-inside a e w b (c ∷ bs) mem (at, t) (inr there) lo hi =
    let (from, _) = IsUsed-bounds (a + 12 + c.size) e b bs t there in
    let one : (w == c.addr) ≡ false = ground arith in
    let two : (w == c.addr + 4) ≡ false = ground arith in
    let three : (w == c.addr + 8) ≡ false = ground arith in
    rw (one, two, three) (word_at-inside (a + 12 + c.size) e w b bs mem t there lo hi)

-- Where an aligned pointer lies.
pub align_up-bounds :
    (ptr align : ℕ)
    → align ≢ 0
    → ptr + align + 8 < 2 ^ 32
    → (ptr + 8 ≤ align_up ptr align)
      × (align_up ptr align < ptr + 8 + align)
      × (align_up ptr align % align ≡ 0)
align_up-bounds ptr align some_align fits =
    let x : ℕ = sub32 (add32 (add32 ptr 8) align) 1 in
    let sum : x ≡ ptr + 7 + align = omega arith in
    let parts = mod-add-div' x align in
    let rest = mod-lt x {m = align} (omega arith) in
    (
      omega (arith, sum, parts, rest),
      omega (arith, sum, parts, rest),
      mul-mod_left (x / align) align,
    )

-- A pointer behind the magic number stands for the address in front of it.
kfree-magic :
    (h : Heap) (b : Block) (p : ℕ)
    → IsValid h
    → IsUsed b h.blocks
    → b.addr + 20 ≤ p
    → p < b.addr + 12 + b.size
    → h.mem (p - 8) ≡ magic
    → h.mem (p - 4) ≡ b.addr + 12
    → kfree h p ≡ free_block_at h (b.addr + 12)
unfolding kfree
kfree-magic h b p v used lo hi stamp orig =
    let (from, to) = IsUsed-bounds h.start (h.start + h.size) b h.blocks v.tiles used in
    let fits = v.fits in
    let nonnull : (p == 0) ≡ false = ground (arith, lo) in
    let within : in_heap h p ≡ true = ground (arith, from, to, lo, hi, fits) in
    let orig_in : in_heap h (b.addr + 12) ≡ true = ground (arith, from, to, lo, hi, fits) in
    let at_8 : sub32 p 8 ≡ p - 8 = omega (arith, lo, hi, to, fits) in
    let at_4 : sub32 p 4 ≡ p - 4 = omega (arith, lo, hi, to, fits) in
    let w8 : word_at h.mem (p - 8) h.blocks ≡ magic =
      word_at-inside h.start (h.start + h.size) (p - 8) b h.blocks h.mem v.tiles used (omega arith)
        (omega arith)
      ∙ stamp in
    let w4 : word_at h.mem (p - 4) h.blocks ≡ b.addr + 12 =
      word_at-inside h.start (h.start + h.size) (p - 4) b h.blocks h.mem v.tiles used (omega arith)
        (omega arith)
      ∙ orig in
    let stamped : (word_at h.mem (p - 8) h.blocks == magic) ≡ true = (==_iff _ _).1 w8 in
    rw (nonnull, within, at_8, at_4, stamped, w4, orig_in, kfree) refl

-- Freeing what `kmalloc_aligned` has just returned, an aligned pointer into the heap, leaves the
-- blocks in use as they were.
pub kfree-kmalloc_aligned :
    (h : Heap) (size align : ℕ)
    → IsValid h
    → align ≢ 0
    → bit_and align (align - 1) ≡ 0
    → size + align + 11 < 2 ^ 32
    → (kmalloc_aligned h size align).0 ≢ 0
    → let (p, h1) = kmalloc_aligned h size align in
      (h' : Heap) × (p % align ≡ 0)
      × (kfree h1 p ≡ some h')
      × IsValid h'
      × (in_use h'.blocks ≡ in_use h.blocks)
unfolding kmalloc_aligned
kfree-kmalloc_aligned h size align v some_align power word granted =
    let total : ℕ = add32 (add32 (add32 size align) 4) 4 in
    let long : total ≡ size + align + 8 = omega arith in
    let ok : ((align == 0) || not (bit_and align (align - 1) == 0)) ≡ false = ground arith in
    elim (kmalloc-cases h total v (omega (arith, long)) (omega (arith, long, word))) [
      | inr refused ↦
          let null : ((kmalloc h total).0 == 0) ≡ true = (==_iff _ _).1 refused.null in
          elim (granted (rw (ok, null) refl)) [ ]
      | inl a ↦
          let b = a.block in
          let h2 : Heap = (kmalloc h total).1 in
          let ptr : ℕ = (kmalloc h total).0 in
          let (lo, hi) =
            IsUsed-bounds h2.start (h2.start + h2.size) b h2.blocks a.valid.tiles a.used in
          let there : (ptr == 0) ≡ false = ground (arith, a.at) in
          let p : ℕ = align_up ptr align in
          let (above, below, aligned) =
            align_up-bounds ptr align some_align
              (omega (arith, a.at, a.enough, hi, a.valid.fits, long)) in
          let mem : ℕ → ℕ = write_word (write_word h2.mem (sub32 p 8) magic) (sub32 p 4) ptr in
          let h3 : Heap = record h2 { mem = mem } in
          let made : kmalloc_aligned h size align ≡ (p, h3) =
            rw (ok, there, kmalloc_aligned) refl in
          let top : p < b.addr + 12 + b.size = omega (arith, below, a.at, a.enough, long) in
          let at_8 : sub32 p 8 ≡ p - 8 = omega (arith, above, top, hi, a.valid.fits) in
          let at_4 : sub32 p 4 ≡ p - 4 = omega (arith, above, top, hi, a.valid.fits) in
          let stamp : mem (p - 8) ≡ magic = ground (arith, at_8, at_4, above) in
          let orig : mem (p - 4) ≡ b.addr + 12 = ground (arith, at_4, a.at) in
          let v3 : IsValid h3 = record { tiles = a.valid.tiles; fits = a.valid.fits } in
          let frees = kfree-magic h3 b p v3 a.used (omega (arith, above, a.at)) top stamp orig in
          let (h', e, f) = free_block_at-IsFreed h3 b v3 a.used in
          rw made (h', aligned, frees ∙ e, f.valid, f.freed ∙ a.undone)
    ]
