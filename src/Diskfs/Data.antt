-- ===== src/Diskfs/Data.antt =====
-- `diskfs_read` and `diskfs_write` of kernel/fs/diskfs.c. Each round of a loop moves at least one
-- byte, so as many rounds are given as there are bytes left.
use mex_os.Base.{
  ℕ, zero, suc, ◌+◌, ◌-◌, ◌/◌, ◌%◌, true, false, not, ◌&&◌, ◌||◌, Option, none, some, if◌then◌else◌,
  ltb, leb, ◌==◌, get_or, set, add32, sub32,
}
use mex_os.Fs.Ops.{copy_at}
use mex_os.Diskfs.Layout.{Bytes, Inode, disk_block, direct_blocks, disk_file_size, data_start}
use mex_os.Diskfs.State.{Drive, Disk, is_mounted, read_inode, write_inode, alloc_block}

-- Where the next byte is: the index of its block, and the place in the block.
abbrev pub block_idx : ℕ → ℕ → ℕ
block_idx offset moved = add32 offset moved / disk_block

abbrev pub block_offset : ℕ → ℕ → ℕ
block_offset offset moved = add32 offset moved % disk_block

-- How many bytes of that block a round moves.
abbrev pub to_move : ℕ → ℕ → ℕ → ℕ
to_move offset size moved =
    let left = sub32 size moved in
    let room = disk_block - block_offset offset moved in if ltb left room then left else room

abbrev pub block_sector : ℕ → ℕ
block_sector block = add32 data_start block

-- The size for `diskfs_read`, cut at the end of the file, and for `diskfs_write`.
abbrev pub read_size : Inode → ℕ → ℕ → ℕ
read_size inode offset size =
    if ltb inode.size (add32 offset size) then sub32 inode.size offset else size

abbrev pub write_size : ℕ → ℕ → ℕ
write_size offset size =
    if ltb disk_file_size (add32 offset size) then sub32 disk_file_size offset else size

-- `inode.blocks[idx] = block`
abbrev pub set_block : Inode → ℕ → ℕ → Inode
set_block inode idx block = record inode { blocks = set inode.blocks idx block }

module _ {A : Type 0} ⦃drive : Drive A⦄ where
  -- The loop of `diskfs_read`: what it returns, and the buffer.
  unfoldable pub read_loop : ℕ → Inode → ℕ → ℕ → ℕ → Bytes → Disk A → Option ℕ × Bytes × Disk A
  read_loop zero inode offset size moved buffer d = (some moved, buffer, d)
  read_loop (suc rounds) inode offset size moved buffer d =
      let idx = block_idx offset moved in
      let block = get_or inode.blocks idx 0 in
      elim (ltb moved size && not (leb direct_blocks idx) && not (block == 0)) [
        | false ↦ (some moved, buffer, d)
        | true ↦
            let (sector, a) = drive.read_sectors d.device d.mounted_drive (block_sector block) 1 in
            elim sector [
              | none ↦ (none, buffer, record d { device = a })
              | some b ↦
                  let count = to_move offset size moved in
                  read_loop rounds inode offset size (add32 moved count)
                    (copy_at buffer moved (λ k. b (block_offset offset moved + k)) count)
                    (record d { device = a })
            ]
      ]

  unfoldable pub diskfs_read : ℕ → Bytes → ℕ → ℕ → Disk A → Option ℕ × Bytes × Disk A
  diskfs_read ino buffer offset size d =
      if is_mounted d
      then (let (found, d') = read_inode d.mounted_drive ino d in
          elim found [
            | none ↦ (none, buffer, d')
            | some inode ↦
                if leb inode.size offset
                then (some 0, buffer, d')
                else (let count = read_size inode offset size in
                    read_loop count inode offset count 0 buffer d')
          ])
      else (none, buffer, d)

  -- The block for the next byte: the one of the inode, or a new one. `none` where the loop breaks.
  unfoldable pub block_for : Inode → ℕ → Disk A → Option (ℕ × Inode) × Disk A
  block_for inode idx d =
      let block = get_or inode.blocks idx 0 in
      if leb direct_blocks idx
      then (none, d)
      else if block == 0
      then (let (found, d') = alloc_block d in
          elim found [ none ↦ (none, d') | some new ↦ (some (new, set_block inode idx new), d') ])
      else (some (block, inode), d)

  -- The block as it is on disk, if it is not written whole. `none` where the drive fails.
  unfoldable pub old_block : ℕ → ℕ → ℕ → Disk A → Option Bytes × Disk A
  old_block block place count d =
      if not (place == 0) || ltb count disk_block
      then (let (sector, a) = drive.read_sectors d.device d.mounted_drive (block_sector block) 1 in
          (sector, record d { device = a }))
      else (some (drive.junk d.device), d)

  -- The loop of `diskfs_write`: how much it wrote, and the inode. `none` where the drive fails.
  unfoldable pub write_loop : ℕ → Inode → Bytes → ℕ → ℕ → ℕ → Disk A → Option (ℕ × Inode) × Disk A
  write_loop zero inode source offset size moved d = (some (moved, inode), d)
  write_loop (suc rounds) inode source offset size moved d = elim (ltb moved size) [
    | false ↦ (some (moved, inode), d)
    | true ↦
        let (target, d1) = block_for inode (block_idx offset moved) d in
        elim target [
          | none ↦ (some (moved, inode), d1)
          | some (block, inode') ↦
              let place = block_offset offset moved in
              let count = to_move offset size moved in
              let (old, d2) = old_block block place count d1 in
              elim old [
                | none ↦ (none, d2)
                | some b ↦
                    let b' = copy_at b place (λ k. source (moved + k)) count in
                    let (done, a) =
                      drive.write_sectors d2.device d2.mounted_drive (block_sector block) 1 b' in
                    elim done [
                      | false ↦ (none, record d2 { device = a })
                      | true ↦
                          write_loop rounds inode' source offset size (add32 moved count)
                            (record d2 { device = a })
                    ]
              ]
        ]
  ]

  -- The end of `diskfs_write`: the size grows, the time is noted, the inode is written.
  unfoldable pub finish_write : ℕ → ℕ → ℕ → Inode → Disk A → Disk A
  finish_write ino offset moved inode d =
      let end_at = add32 offset moved in
      let size = if ltb inode.size end_at then end_at else inode.size in
      (write_inode d.mounted_drive ino (record inode { size = size; mtime = drive.ticks d.device })
        d).1

  unfoldable pub diskfs_write : ℕ → Bytes → ℕ → ℕ → Disk A → Option ℕ × Disk A
  diskfs_write ino source offset size d =
      if is_mounted d
      then (let (found, d1) = read_inode d.mounted_drive ino d in
          elim found [
            | none ↦ (none, d1)
            | some inode ↦
                let count = write_size offset size in
                let (written, d2) = write_loop count inode source offset count 0 d1 in
                elim written [
                  | none ↦ (none, d2)
                  | some (moved, inode') ↦ (some moved, finish_write ino offset moved inode' d2)
                ]
          ])
      else (none, d)
