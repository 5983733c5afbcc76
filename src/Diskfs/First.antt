-- ===== src/Diskfs/First.antt =====
-- The first block that kernel/fs/diskfs.c hands out, block 0, which an inode cannot name.
use mex_os.Base.{
  ℕ, zero, suc, ◌≡◌, inl, inr, refl, sym, ap, ◌∙◌, true, false, not, ◌&&◌, Option, some, ltb, leb,
  ◌==◌, get_or, length, arith, Bool-cases, get_or-set_self,
}
use mex_os.Diskfs.Layout.{Bytes, Inode, direct_blocks}
use mex_os.Diskfs.State.{
  Drive, Disk, is_mounted, bitmap_test, find_free_from, alloc_block, read_inode,
}
use mex_os.Diskfs.Data.{block_for, read_loop, read_size, set_block, diskfs_read}
use mex_os.Diskfs.Dir.{formatted}

module _ {A : Type 0} ⦃drive : Drive A⦄ where
  no_first_block :
      (rounds : ℕ) (inode : Inode) (size : ℕ) (buffer : Bytes) (d : Disk A)
      → get_or inode.blocks 0 0 ≡ 0
      → read_loop rounds inode 0 size 0 buffer d ≡ (some 0, buffer, d)
  unfolding read_loop
  no_first_block zero inode size buffer d first = refl
  no_first_block (suc rounds) inode size buffer d first =
      let stops : (ltb 0 size && not (leb direct_blocks 0) && not (get_or inode.blocks 0 0 == 0))
          ≡ false =
        ground (arith, first) in
      rw (stops, read_loop) refl

  formatted_alloc : (d : Disk A) → (alloc_block (formatted d)).0 ≡ some 0
  unfolding alloc_block find_free_from bitmap_test
  formatted_alloc d = refl

  first_block_lem :
      (d : Disk A) (inode inode' : Inode) (block : ℕ)
      → length inode.blocks ≡ direct_blocks
      → get_or inode.blocks 0 0 ≡ 0
      → (block_for inode 0 (formatted d)).0 ≡ some (block, inode')
      → (block ≡ 0) × (get_or inode'.blocks 0 0 ≡ 0)
  unfolding block_for
  first_block_lem d inode inode' block twelve none_there e =
      let empty : (get_or inode.blocks 0 0 == 0) ≡ true = ground (arith, none_there) in
      let x : Option (ℕ × Inode) = some (0, set_block inode 0 0) in
      let f : x ≡ some (block, inode') = rw (empty, formatted_alloc d, block_for) at e in
      let zero_block : 0 ≡ block = ground (arith, f) in
      let same : set_block inode 0 0 ≡ inode' = cc f in
      (
        sym zero_block,
        ap (λ i. get_or i.blocks 0 0) (sym same)
            ∙ get_or-set_self inode.blocks 0 0 0 (omega (arith, twelve)),
      )

  -- After a format, a file that has no first block gets block 0 when it is written. Its inode
  -- then has 0 there, which stands for no block: the file reads as empty, whatever its size.
  pub first_block-lost :
      (d e e' : Disk A) (inode inode' : Inode) (block ino size : ℕ) (buffer : Bytes)
      → length inode.blocks ≡ direct_blocks
      → get_or inode.blocks 0 0 ≡ 0
      → (block_for inode 0 (formatted d)).0 ≡ some (block, inode')
      → is_mounted e ≡ true
      → read_inode e.mounted_drive ino e ≡ (some inode', e')
      → (block ≡ 0) × (diskfs_read ino buffer 0 size e ≡ (some 0, buffer, e'))
  unfolding diskfs_read
  first_block-lost d e e' inode inode' block ino size buffer twelve none_there gets mounted stored =
      let (zero_block, first) = first_block_lem d inode inode' block twelve none_there gets in
      let found = ap (λ p. p.0) stored in
      let after = ap (λ p. p.1) stored in
      (
        zero_block,
        elim (Bool-cases (leb inode'.size 0)) [
          | inl nothing ↦ rw (mounted, found, nothing, after, diskfs_read) refl
          | inr something ↦
              rw (mounted, found, something, after, diskfs_read)
                (no_first_block (read_size inode' 0 size) inode' (read_size inode' 0 size) buffer e'
                  first)
        ],
      )
