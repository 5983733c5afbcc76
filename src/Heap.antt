-- ===== src/Heap.antt =====
-- The kernel heap, kernel/mm/heap.c: a chain of blocks, each behind a header of 12 bytes.
use mex_os.Base.{
  ℕ, zero, suc, ◌+◌, ◌*◌, ◌/◌, Bool, true, false, not, ◌&&◌, ◌||◌, Option, none, some, List, [],
  ◌∷◌, if◌then◌else◌, ltb, leb, ◌==◌, add32, sub32, ◌-◌, bit_and,
}
use mex_os.Alloc.{Allocator}
pub mod Tiles
mod Merge
mod Fit
pub mod Grant
pub mod Calls
mod Free
mod Wrap
mod Aligned
mod Fragmentation
mod Tests

-- `struct heap_block` at address `addr`; its `next` is the block behind it in the chain.
pub record Block : Type 0 where
  pub addr : ℕ
  pub size : ℕ
  pub used : Bool

-- `mem` is the memory by the address of each word, outside the headers of the chain.
pub record Heap : Type 0 where
  pub start : ℕ
  pub size : ℕ
  pub used : ℕ
  pub blocks : List Block
  pub mem : ℕ → ℕ

-- `sizeof(struct heap_block)`
abbrev pub header : ℕ
header = 12

unfoldable pub heap_init : ℕ → ℕ → Heap → ℕ × Heap
heap_init start size h = (
  add32 start header,
  record h {
    start = start;
    size = size;
    used = header;
    blocks = record { addr = start; size = sub32 size header; used = false } ∷ [];
  },
)

-- `split_block`, with the blocks behind.
unfoldable pub split_block : ℕ → Block → List Block → List Block
split_block size b bs =
    if leb (add32 (add32 size header) 16) b.size
    then record b { size = size }
      ∷ record {
        addr = add32 (add32 b.addr header) size;
        size = sub32 (sub32 b.size size) header;
        used = false;
      }
      ∷ bs
    else b ∷ bs

abbrev pub mark_used : List Block → List Block
mark_used [] = []
mark_used (b ∷ bs) = record b { used = true } ∷ bs

-- `split_block(block, size); block->used = 1;` for the block at address `a`.
unfoldable pub use_block : ℕ → ℕ → List Block → List Block
use_block a size [] = []
use_block a size (b ∷ bs) =
    if b.addr == a then mark_used (split_block size b bs) else b ∷ use_block a size bs

-- Whether a block lies outside `heap_start` and `heap_end`.
abbrev pub is_outside : ℕ → ℕ → Block → Bool
is_outside start size b = ltb b.addr start || leb (add32 start size) b.addr

abbrev pub joined_size : Block → Block → ℕ
joined_size b c = add32 (add32 b.size header) c.size

abbrev pub joins : ℕ → Block → Block → Bool
joins size b c =
    not (b.used || c.used) && not (ltb (joined_size b c) b.size || leb size (joined_size b c))

-- The loop of `merge_free_blocks` at block `b`, with the blocks behind.
unfoldable pub merge_from : ℕ → ℕ → Block → List Block → List Block
merge_from start size b [] = b ∷ []
merge_from start size b (c ∷ bs) =
    let j = joins size b c in
    let rest = merge_from start size (if j then record b { size = joined_size b c } else c) bs in
    if is_outside start size b || is_outside start size c
    then b ∷ c ∷ bs
    else if j
    then rest
    else b ∷ rest

unfoldable pub merge_blocks : ℕ → ℕ → List Block → List Block
merge_blocks start size [] = []
merge_blocks start size (b ∷ bs) = merge_from start size b bs

unfoldable pub merge_free_blocks : Heap → Heap
merge_free_blocks h = record h { blocks = merge_blocks h.start h.size h.blocks }

-- The loop of `find_best_fit`.
unfoldable pub best_from : ℕ → Option Block → ℕ → List Block → Option Block
best_from size best best_diff [] = best
best_from size best best_diff (b ∷ bs) =
    let diff = sub32 b.size size in
    let better = not b.used && leb size b.size && ltb diff best_diff in
    let rest =
      best_from size (if better then some b else best) (if better then diff else best_diff) bs in
    if better && (diff == 0) then some b else rest

unfoldable pub find_best_fit : ℕ → List Block → Option Block
find_best_fit size = best_from size none 0xFFFFFFFF

-- `(size + 3) & ~3`
abbrev pub round_up : ℕ → ℕ
round_up size = add32 size 3 / 4 * 4

abbrev pub grant : ℕ → Block → Heap → ℕ × Heap
grant size b h = (
  add32 b.addr header,
  record h { blocks = use_block b.addr size h.blocks; used = add32 h.used (add32 size header) },
)

-- `kmalloc`, with 0 for the null pointer.
unfoldable pub kmalloc : Heap → ℕ → ℕ × Heap
kmalloc h n =
    let size = round_up n in
    let h' = merge_free_blocks h in
    if n == 0 then (0, h) else elim (find_best_fit size h.blocks) [
      | some b ↦ grant size b h
      | none ↦ elim (find_best_fit size h'.blocks) [ some b ↦ grant size b h' | none ↦ (0, h') ]
    ]

-- The word at address `a`, in a header or not. The flag is the low byte of its word.
unfoldable pub word_at : (ℕ → ℕ) → ℕ → List Block → ℕ
word_at mem a [] = mem a
word_at mem a (b ∷ bs) =
    if a == b.addr
    then b.size
    else if a == b.addr + 4
    then mem a / 256 * 256 + (if b.used then 1 else 0)
    else if a == b.addr + 8
    then next_addr bs
    else word_at mem a bs
  where
    next_addr : List Block → ℕ
    next_addr [] = 0
    next_addr (c ∷ bs) = c.addr

-- The loop of `heap_validate`: whether it comes to an empty free block that is not the last.
unfoldable pub has_empty : ℕ → ℕ → List Block → Bool
has_empty start size [] = false
has_empty start size (b ∷ []) = false
has_empty start size (b ∷ c ∷ bs) =
    if is_outside start size b
    then false
    else if not b.used && (b.size == 0)
    then true
    else has_empty start size (c ∷ bs)

unfoldable pub heap_validate : Heap → Heap
heap_validate h = if has_empty h.start h.size h.blocks then merge_free_blocks h else h

unfoldable pub find_block : ℕ → List Block → Option Block
find_block a [] = none
find_block a (b ∷ bs) = if b.addr == a then some b else find_block a bs

unfoldable pub release : ℕ → List Block → List Block
release a [] = []
release a (b ∷ bs) = if b.addr == a then record b { used = false } ∷ bs else b ∷ release a bs

-- The end of `kfree`, for the pointer to the bytes of a block. `none` when no block of the chain
-- starts there: the C code then takes what it finds for a header.
unfoldable pub free_block_at : Heap → ℕ → Option Heap
free_block_at h ptr = elim (find_block (sub32 ptr header) h.blocks) [
  | none ↦ none
  | some b ↦
      let h' = record h {
        used = sub32 h.used (add32 b.size header);
        blocks = release b.addr h.blocks;
      } in
      some (if b.used then heap_validate (merge_free_blocks h') else h)
]

abbrev pub in_heap : Heap → ℕ → Bool
in_heap h a = not (ltb a h.start || leb (add32 h.start h.size) a)

abbrev pub magic : ℕ
magic = 0xA11C4FED

unfoldable pub kfree : Heap → ℕ → Option Heap
kfree h ptr =
    let orig = word_at h.mem (sub32 ptr 4) h.blocks in
    if (ptr == 0) || not (in_heap h ptr)
    then some h
    else if word_at h.mem (sub32 ptr 8) h.blocks == magic
    then (if in_heap h orig then free_block_at h orig else some h)
    else free_block_at h ptr

-- The heap as the other components see it. A pointer that no block starts at is left alone.
instance abbrev pub heap_allocator : Allocator Heap
heap_allocator = record {
  kmalloc = kmalloc;
  kfree = λ h ptr. elim (kfree h ptr) [ none ↦ h | some h' ↦ h' ];
}

-- `(addr + 8 + align - 1) & ~(align - 1)` for a power of two.
abbrev pub align_up : ℕ → ℕ → ℕ
align_up addr align = sub32 (add32 (add32 addr 8) align) 1 / align * align

abbrev pub write_word : (ℕ → ℕ) → ℕ → ℕ → ℕ → ℕ
write_word mem a w b = if b == a then w else mem b

-- `kmalloc_aligned`; `align & (align - 1)` is 0 for a power of two.
unfoldable pub kmalloc_aligned : Heap → ℕ → ℕ → ℕ × Heap
kmalloc_aligned h size align =
    let total = add32 (add32 (add32 size align) 4) 4 in
    let (ptr, h') = kmalloc h total in
    let aligned = align_up ptr align in
    if (align == 0) || not (bit_and align (align - 1) == 0)
    then (0, h)
    else if ptr == 0
    then (0, h')
    else (
      aligned,
      record h' {
        mem = write_word (write_word h'.mem (sub32 aligned 8) magic) (sub32 aligned 4) ptr;
      },
    )

-- The loop of `heap_get_fragmentation`, for at most `fuel` rounds: `none` when that is not enough.
unfoldable pub fragmentation : ℕ → ℕ → ℕ → ℕ → List Block → Heap → Option ((ℕ × ℕ) × Heap)
fragmentation zero iterations count largest bs h = none
fragmentation (suc fuel) iterations count largest [] h = some ((count, largest), h)
fragmentation (suc fuel) iterations count largest (b ∷ bs) h =
    let restart = (b.size == 0) && has_next bs in
    let h' = if restart then merge_free_blocks h else h in
    let rest =
      fragmentation fuel (if restart then iterations else add32 iterations 1)
        (if restart then 0 else (if b.used then count else add32 count 1))
        (if restart
          then 0
          else (if b.used then largest else (if ltb largest b.size then b.size else largest)))
        (if restart then h'.blocks else bs) h' in
    if leb 10000 iterations || is_outside h.start h.size b then some ((count, largest), h) else rest
  where
    has_next : List Block → Bool
    has_next [] = false
    has_next (c ∷ bs) = true

-- What `heap_get_fragmentation` stores through its two pointers, and the heap after it.
unfoldable pub heap_get_fragmentation : ℕ → Heap → Option ((ℕ × ℕ) × Heap)
heap_get_fragmentation fuel h = fragmentation fuel 0 0 0 h.blocks h

unfoldable pub heap_defragment : Heap → Heap
heap_defragment = merge_free_blocks
