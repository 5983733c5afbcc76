-- ===== src/Heap/Free.antt =====
-- `kfree` of kernel/mm/heap.c, and what it does after `kmalloc`.
use mex_os.Base.{
  ℕ, ◌^◌, ◌+◌, ◌<◌, ◌≡◌, ◌≢◌, inl, inr, refl, ap, ◌∙◌, List, [], ◌∷◌, true, false, arith, ◌==◌,
  add32, sub32, some,
}
use mex_os.Heap.{
  Block, Heap, header, release, word_at, magic, kmalloc, kfree, free_block_at, in_heap,
  merge_free_blocks, heap_validate,
}
use mex_os.Heap.Tiles.{in_use, IsValid}
use mex_os.Heap.Merge.{
  merge_free_blocks-IsMerged, merge_free_blocks-IsValid, heap_validate-IsMerged,
  heap_validate-IsValid,
}
use mex_os.Heap.Grant.{IsUsed, IsUsed-bounds, release-IsReleased}
use mex_os.Heap.Calls.{IsFreed, kmalloc-cases}

used_lem : (b : Block) (bs : List Block) → IsUsed b bs → b.used ≡ true
unfolding IsUsed
used_lem b [] none_used = elim none_used [ ]
used_lem b (c ∷ bs) (inl (_, used)) = used
used_lem b (c ∷ bs) (inr there) = used_lem b bs there

-- The end of `kfree`, for the bytes of a block in use.
pub free_block_at-IsFreed :
    (h : Heap) (b : Block)
    → IsValid h
    → IsUsed b h.blocks
    → (h' : Heap) × (free_block_at h (b.addr + 12) ≡ some h') × IsFreed h b h'
unfolding free_block_at
free_block_at-IsFreed h b v there =
    let r = release-IsReleased h.start (h.start + h.size) b h.blocks v.tiles there in
    let (lo, hi) = IsUsed-bounds h.start (h.start + h.size) b h.blocks v.tiles there in
    let used = used_lem b h.blocks there in
    let h1 : Heap = record h {
      used = sub32 h.used (add32 b.size header);
      blocks = release b.addr h.blocks;
    } in
    let v1 : IsValid h1 = record { tiles = r.tiles; fits = v.fits } in
    let m = merge_free_blocks-IsMerged h1 v1 in
    let v2 = merge_free_blocks-IsValid h1 v1 in
    let w = heap_validate-IsMerged (merge_free_blocks h1) v2 m.no_pair in
    let h2 : Heap = heap_validate (merge_free_blocks h1) in
    let same = w.same_use ∙ m.same_use in
    let at_block : sub32 (b.addr + 12) header ≡ b.addr = omega (arith, v.fits, hi) in
    let frees : free_block_at h (b.addr + 12) ≡ some h2 =
      rw (free_block_at, at_block, r.found, used, free_block_at) refl in
    (
      h2,
      frees,
      record {
        valid = heap_validate-IsValid (merge_free_blocks h1) v2;
        before = r.before;
        after = r.after;
        was = r.was;
        now = same ∙ r.now;
        freed = same;
        no_pair = w.no_pair;
      },
    )

-- `kfree` of the bytes of a block in use takes that block out of use and no other, and leaves no two
-- free blocks side by side.
pub kfree-IsFreed :
    (h : Heap) (b : Block)
    → IsValid h
    → IsUsed b h.blocks
    → b.size ≢ 0
    → (h' : Heap) × (kfree h (b.addr + 12) ≡ some h') × IsFreed h b h'
unfolding kfree
kfree-IsFreed h b v there some_bytes =
    let r = release-IsReleased h.start (h.start + h.size) b h.blocks v.tiles there in
    let (lo, hi) = IsUsed-bounds h.start (h.start + h.size) b h.blocks v.tiles there in
    let at_flag : sub32 (b.addr + 12) 8 ≡ b.addr + 4 = omega (arith, v.fits, hi) in
    let plain : (word_at h.mem (b.addr + 4) h.blocks == magic) ≡ false =
      ground (arith, r.flag h.mem) in
    let within : in_heap h (b.addr + 12) ≡ true = ground (arith, v.fits, lo, hi, some_bytes) in
    let nonnull : (b.addr + 12 == 0) ≡ false = ground arith in
    let (h', frees, freed) = free_block_at-IsFreed h b v there in
    (h', rw (nonnull, within, at_flag, plain, kfree) frees, freed)

-- Freeing what `kmalloc` has just returned leaves the blocks in use as they were before.
pub kfree-kmalloc :
    (h : Heap) (n : ℕ)
    → IsValid h
    → n ≢ 0
    → n + 3 < 2 ^ 32
    → (kmalloc h n).0 ≢ 0
    → (h' : Heap) × (kfree (kmalloc h n).1 (kmalloc h n).0 ≡ some h')
      × IsValid h'
      × (in_use h'.blocks ≡ in_use h.blocks)
kfree-kmalloc h n v some_bytes word granted = elim (kmalloc-cases h n v some_bytes word) [
  | inr refused ↦ elim (granted refused.null) [ ]
  | inl a ↦
      let (h', e, f) =
        kfree-IsFreed (kmalloc h n).1 a.block a.valid a.used
          (omega (arith, a.enough, some_bytes)) in
      (h', ap (kfree (kmalloc h n).1) a.at ∙ e, f.valid, f.freed ∙ a.undone)
]
