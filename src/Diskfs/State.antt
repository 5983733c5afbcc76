-- ===== src/Diskfs/State.antt =====
-- The state of kernel/fs/diskfs.c, its bitmaps, and the inodes in the cache and on disk.
use mex_os.Base.{
  ℕ, zero, suc, ◌+◌, ◌*◌, ◌/◌, ◌%◌, bit_and, bit_or, Bool, true, false, not, ◌&&◌, Option, none,
  some, List, [], ◌∷◌, if◌then◌else◌, leb, ◌==◌, set, add32, sub32,
}
use mex_os.Base.Bits.{shl_one, not_shl_one}
use mex_os.Fs.Ops.{copy_at}
use mex_os.Diskfs.Layout.{
  Bytes, Superblock, Inode, superblock_bytes, superblock_of, inode_bytes, inode_of, inode_size,
  inode_table_start, max_inodes,
}

-- The drives, through kernel/drivers/storage/ata.c, and the ticks of the timer. A read gives the
-- sectors, or `none` when it fails, which leaves the buffer as it was. `junk` is what an array on the
-- stack holds before it is written.
pub record Drive (A : Type 0) : Type 0 where
  pub drive_exists : A → ℕ → Bool
  pub read_sectors : A → ℕ → ℕ → ℕ → Option Bytes × A
  pub write_sectors : A → ℕ → ℕ → ℕ → Bytes → Bool × A
  pub ticks : A → ℕ
  pub junk : A → Bytes

-- One of the 8 slots of `inode_cache`.
pub record Slot : Type 0 where
  pub num : ℕ
  pub valid : Bool
  pub inode : Inode

pub record Disk (A : Type 0) : Type 0 where
  pub mounted_drive : ℕ
  pub superblock : Superblock
  pub inode_bitmap : Bytes
  pub block_bitmap : Bytes
  pub cache : List Slot
  pub cache_idx : ℕ
  pub device : A

-- No drive is mounted.
abbrev pub no_drive : ℕ
no_drive = 0xFF

abbrev pub is_mounted : {A : Type 0} → Disk A → Bool
is_mounted d = not (d.mounted_drive == no_drive)

abbrev update : Bytes → ℕ → ℕ → Bytes
update b i v k = if k == i then v else b k

unfoldable pub bitmap_set : Bytes → ℕ → Bytes
bitmap_set b bit = update b (bit / 8) (bit_or (b (bit / 8)) (shl_one (bit % 8)))

unfoldable pub bitmap_clear : Bytes → ℕ → Bytes
bitmap_clear b bit = update b (bit / 8) (bit_and (b (bit / 8)) (not_shl_one (bit % 8)))

unfoldable pub bitmap_test : Bytes → ℕ → Bool
bitmap_test b bit = not (bit_and (b (bit / 8)) (shl_one (bit % 8)) == 0)

-- The loop of `bitmap_find_free` from bit `i` on, with `n` bits left.
unfoldable pub find_free_from : Bytes → ℕ → ℕ → Option ℕ
find_free_from b i zero = none
find_free_from b i (suc n) = elim (bitmap_test b i) [
  | false ↦ some i
  | true ↦ find_free_from b (i + 1) n
]

abbrev pub bitmap_find_free : Bytes → ℕ → Option ℕ
bitmap_find_free b max_bits = find_free_from b 0 max_bits

-- The first valid slot of the cache for an inode.
unfoldable pub cached : ℕ → List Slot → Option Inode
cached ino [] = none
cached ino (s ∷ slots) =
    let rest = cached ino slots in if s.valid && (s.num == ino) then some s.inode else rest

-- The loop of `write_inode`: that slot gets other contents.
unfoldable pub recache : ℕ → Inode → List Slot → List Slot
recache ino inode [] = []
recache ino inode (s ∷ slots) =
    let rest = recache ino inode slots in
    if s.valid && (s.num == ino) then record s { inode = inode } ∷ slots else s ∷ rest

-- Where the slot of an inode is in the table.
abbrev pub inode_sector : ℕ → ℕ
inode_sector ino = inode_table_start + ino / 4

abbrev pub inode_offset : ℕ → ℕ
inode_offset ino = ino % 4 * 128

module _ {A : Type 0} ⦃drive : Drive A⦄ where
  -- `none` where the drive fails.
  unfoldable pub read_superblock : ℕ → Disk A → Bool × Disk A
  read_superblock n d =
      let (sector, a) = drive.read_sectors d.device n 0 1 in
      elim sector [
        | none ↦ (false, record d { device = a })
        | some b ↦ (true, record d { device = a; superblock = superblock_of b })
      ]

  unfoldable pub write_superblock : ℕ → Disk A → Bool × Disk A
  write_superblock n d =
      let (done, a) = drive.write_sectors d.device n 0 1 (superblock_bytes d.superblock) in
      (done, record d { device = a })

  unfoldable pub read_bitmaps : ℕ → Disk A → Bool × Disk A
  read_bitmaps n d =
      let (inodes, a) = drive.read_sectors d.device n 1 16 in
      elim inodes [
        | none ↦ (false, record d { device = a })
        | some b ↦
            let (blocks, a') = drive.read_sectors a n 17 16 in
            elim blocks [
              | none ↦ (false, record d { device = a'; inode_bitmap = b })
              | some c ↦ (true, record d { device = a'; inode_bitmap = b; block_bitmap = c })
            ]
      ]

  unfoldable pub write_bitmaps : ℕ → Disk A → Bool × Disk A
  write_bitmaps n d =
      let (done, a) = drive.write_sectors d.device n 1 16 d.inode_bitmap in
      let (done', a') = drive.write_sectors a n 17 16 d.block_bitmap in
      if done then (done', record d { device = a' }) else (false, record d { device = a })

  -- The inode from the cache or from the table; then the next slot of the cache gets it. The bytes
  -- behind the sector buffer, which the last slot of a sector reads, are those of the result of
  -- the drive.
  unfoldable pub read_inode : ℕ → ℕ → Disk A → Option Inode × Disk A
  read_inode n ino d = if leb max_inodes ino then (none, d) else elim (cached ino d.cache) [
    | some inode ↦ (some inode, d)
    | none ↦
        let (sector, a) = drive.read_sectors d.device n (inode_sector ino) 1 in
        elim sector [
          | none ↦ (none, record d { device = a })
          | some b ↦
              let inode = inode_of (λ k. b (inode_offset ino + k)) in
              (
                some inode,
                record d {
                  device = a;
                  cache =
                      set d.cache d.cache_idx (record { num = ino; valid = true; inode = inode });
                  cache_idx = (d.cache_idx + 1) % 8;
                },
              )
        ]
  ]

  -- The structure is copied whole, so its last 8 bytes go into the next slot.
  unfoldable pub write_inode : ℕ → ℕ → Inode → Disk A → Bool × Disk A
  write_inode n ino inode d =
      if leb max_inodes ino
      then (false, d)
      else (let (sector, a) = drive.read_sectors d.device n (inode_sector ino) 1 in
          elim sector [
            | none ↦ (false, record d { device = a })
            | some b ↦
                let b' = copy_at b (inode_offset ino) (inode_bytes inode) inode_size in
                let (done, a') = drive.write_sectors a n (inode_sector ino) 1 b' in
                if done
                then (true, record d { device = a'; cache = recache ino inode d.cache })
                else (false, record d { device = a' })
          ])

module _ {A : Type 0} where
  unfoldable pub alloc_block : Disk A → Option ℕ × Disk A
  alloc_block d = elim (bitmap_find_free d.block_bitmap d.superblock.total_blocks) [
    | none ↦ (none, d)
    | some block ↦ (
      some block,
      record d {
        block_bitmap = bitmap_set d.block_bitmap block;
        superblock = record (d.superblock) { free_blocks = sub32 d.superblock.free_blocks 1 };
      },
    )
  ]

  unfoldable pub free_block : ℕ → Disk A → Disk A
  free_block block d = if leb d.superblock.total_blocks block then d else record d {
    block_bitmap = bitmap_clear d.block_bitmap block;
    superblock = record (d.superblock) { free_blocks = add32 d.superblock.free_blocks 1 };
  }

  unfoldable pub alloc_inode : Disk A → Option ℕ × Disk A
  alloc_inode d = elim (bitmap_find_free d.inode_bitmap d.superblock.total_inodes) [
    | none ↦ (none, d)
    | some ino ↦ (
      some ino,
      record d {
        inode_bitmap = bitmap_set d.inode_bitmap ino;
        superblock = record (d.superblock) { free_inodes = sub32 d.superblock.free_inodes 1 };
      },
    )
  ]

  unfoldable pub free_inode : ℕ → Disk A → Disk A
  free_inode ino d = if leb d.superblock.total_inodes ino then d else record d {
    inode_bitmap = bitmap_clear d.inode_bitmap ino;
    superblock = record (d.superblock) { free_inodes = add32 d.superblock.free_inodes 1 };
  }
