-- ===== src/Diskfs/Dir.antt =====
-- The operations of kernel/fs/diskfs.c on directories and on the whole disk.
use mex_os.Base.{
  ℕ, zero, suc, ◌+◌, ◌-◌, ◌*◌, ◌/◌, Bool, true, false, not, ◌&&◌, Option, none, some, List, [], ◌∷◌,
  if◌then◌else◌, ltb, leb, ◌==◌, map, is_negative, length,
}
use mex_os.Text.{Text, same_text}
use mex_os.Fs.Node.{NodeType, file, dir, DiskFs}
use mex_os.Fs.Ops.{bytes_of}
use mex_os.Diskfs.Layout.{
  Bytes, Inode, blank_inode, magic_number, max_inodes, max_blocks, disk_block, max_filename,
  type_file, type_dir, dirent_size, dirent_bytes, entry_inode, entry_name,
}
use mex_os.Diskfs.State.{
  Drive, Slot, Disk, no_drive, is_mounted, bitmap_set, read_superblock, write_superblock,
  read_bitmaps, write_bitmaps, read_inode, write_inode, alloc_inode, free_inode, free_block,
}
use mex_os.Diskfs.Data.{diskfs_read, diskfs_write}

-- The negative results of an operation: -1, -2 or -3.
pub data Failure : Type 0 where
  minus_one minus_two minus_three : Failure

pub data Code (R : Type 0) : Type 0 where
  done : R → Code R
  failed : Failure → Code R

abbrev as_dir : Option Inode → Option Inode
as_dir none = none
as_dir (some inode) = if inode.type == type_dir then some inode else none

abbrev created : Code ℕ → Option ℕ
created (done ino) = some ino
created (failed x) = none

abbrev type_code : NodeType → ℕ
type_code file = type_file
type_code dir = type_dir

abbrev forgotten : Slot → Slot
forgotten s = record s { valid = false }

-- `(int)entry.inode`, which counts as a failure if it is negative.
abbrev as_int : ℕ → Option ℕ
as_int ino = if is_negative ino then none else some ino

-- Freeing the blocks of an inode.
module _ {A : Type 0} where
  abbrev pub free_blocks : (ℕ → Disk A → Disk A) → List ℕ → Disk A → Disk A
  free_blocks free [] d = d
  free_blocks free (block ∷ blocks) d =
      free_blocks free blocks (if block == 0 then d else free block d)

module _ {A : Type 0} ⦃drive : Drive A⦄ where
  unfoldable pub diskfs_sync : Disk A → Bool × Disk A
  diskfs_sync d =
      if is_mounted d
      then (let d1 = (write_superblock d.mounted_drive d).1 in
          (true, (write_bitmaps d.mounted_drive d1).1))
      else (false, d)

  unfoldable pub diskfs_unmount : Disk A → Disk A
  diskfs_unmount d =
      if is_mounted d then record ((diskfs_sync d).1) { mounted_drive = no_drive } else d

  -- The state that `diskfs_format` writes to the disk.
  abbrev pub formatted : Disk A → Disk A
  formatted d = record d {
    superblock = record {
      magic = magic_number;
      version = 1;
      total_inodes = max_inodes;
      total_blocks = max_blocks;
      free_inodes = max_inodes - 1;
      free_blocks = max_blocks;
      root_inode = 0;
      block_size = disk_block;
    };
    inode_bitmap = bitmap_set (λ k. 0) 0;
    block_bitmap = λ k. 0;
  }

  unfoldable pub diskfs_format : ℕ → Disk A → Bool × Disk A
  diskfs_format n d =
      if drive.drive_exists d.device n
      then (let (one, d1) = write_superblock n (formatted d) in
          if one
          then (let (two, d2) = write_bitmaps n d1 in
              let now = drive.ticks d2.device in
              if two
              then write_inode n 0
                  (record blank_inode { type = type_dir; ctime = now; mtime = now }) d2
              else (false, d2))
          else (false, d1))
      else (false, d)

  unfoldable pub diskfs_mount : ℕ → Disk A → Bool × Disk A
  diskfs_mount n d =
      if drive.drive_exists d.device n
      then (let (one, d1) = read_superblock n d in
          if one && (d1.superblock.magic == magic_number)
          then (let (two, d2) = read_bitmaps n d1 in
              if two
              then (true, record d2 { mounted_drive = n; cache = map forgotten d2.cache })
              else (false, d2))
          else (false, d1))
      else (false, d)

  unfoldable pub diskfs_init : ℕ → Disk A → Bool × Disk A
  diskfs_init n d =
      let (there, d1) = diskfs_mount n d in
      let (made, d2) = diskfs_format n d1 in
      if there then (true, d1) else if made then diskfs_mount n d2 else (false, d2)

  -- The loop of `diskfs_lookup` from entry `i` on, with `n` entries left. A short read leaves the
  -- rest of the entry as it was on the stack.
  unfoldable pub lookup_from : ℕ → Text → ℕ → ℕ → Disk A → Option ℕ × Disk A
  lookup_from dir_ino name i zero d = (none, d)
  lookup_from dir_ino name i (suc n) d =
      let (count, entry, d') =
        diskfs_read dir_ino (drive.junk d.device) (i * dirent_size) dirent_size d in
      elim count [
        | none ↦ (none, d')
        | some c ↦ elim (not (entry_inode entry == 0) && same_text (entry_name entry) name) [
          | true ↦ (as_int (entry_inode entry), d')
          | false ↦ lookup_from dir_ino name (i + 1) n d'
        ]
      ]

  unfoldable pub diskfs_lookup : ℕ → Text → Disk A → Option ℕ × Disk A
  diskfs_lookup dir_ino name d =
      if is_mounted d
      then (let (found, d') = read_inode d.mounted_drive dir_ino d in
          elim (as_dir found) [
            | none ↦ (none, d')
            | some inode ↦ lookup_from dir_ino name 0 (inode.size / dirent_size) d'
          ])
      else (none, d)

  -- `diskfs_create` behind its tests.
  unfoldable pub add_entry : ℕ → Inode → Text → ℕ → Disk A → Code ℕ × Disk A
  add_entry parent_ino parent name type d =
      let (free, d1) = alloc_inode d in
      elim free [
        | none ↦ (failed minus_three, d1)
        | some ino ↦
            let now = drive.ticks d1.device in
            let inode = record blank_inode {
              type = type;
              parent_inode = parent_ino;
              ctime = now;
              mtime = now;
            } in
            let (wrote, d2) = write_inode d1.mounted_drive ino inode d1 in
            if wrote
            then (let (count, d3) =
                  diskfs_write parent_ino (dirent_bytes ino name) parent.size dirent_size d2 in
                elim count [
                  | none ↦ (failed minus_one, free_inode ino d3)
                  | some c ↦ (done ino, (diskfs_sync d3).1)
                ])
            else (failed minus_one, free_inode ino d2)
      ]

  unfoldable pub diskfs_create : ℕ → Text → ℕ → Disk A → Code ℕ × Disk A
  diskfs_create parent_ino name type d =
      if is_mounted d && not (leb max_filename (length name))
      then (let (found, d1) = read_inode d.mounted_drive parent_ino d in
          elim (as_dir found) [
            | none ↦ (failed minus_one, d1)
            | some parent ↦
                let (there, d2) = diskfs_lookup parent_ino name d1 in
                elim there [
                  | some ino ↦ (failed minus_two, d2)
                  | none ↦ add_entry parent_ino parent name type d2
                ]
          ])
      else (failed minus_one, d)

  -- The loop of `diskfs_readdir`: the entries read.
  unfoldable pub entries_from : ℕ → ℕ → ℕ → Disk A → Option (List Bytes) × Disk A
  entries_from dir_ino i zero d = (some [], d)
  entries_from dir_ino i (suc n) d =
      let (count, entry, d') =
        diskfs_read dir_ino (drive.junk d.device) (i * dirent_size) dirent_size d in
      elim count [
        | none ↦ (none, d')
        | some c ↦
            let (rest, d'') = entries_from dir_ino (i + 1) n d' in
            elim rest [ none ↦ (none, d'') | some es ↦ (some (entry ∷ es), d'') ]
      ]

  unfoldable pub diskfs_readdir : ℕ → ℕ → Disk A → Option (List Bytes) × Disk A
  diskfs_readdir dir_ino max_entries d =
      if is_mounted d
      then (let (found, d') = read_inode d.mounted_drive dir_ino d in
          elim (as_dir found) [
            | none ↦ (none, d')
            | some inode ↦
                let count = inode.size / dirent_size in
                entries_from dir_ino 0 (if ltb count max_entries then count else max_entries) d'
          ])
      else (none, d)

  unfoldable pub diskfs_stat : ℕ → Disk A → Option Inode × Disk A
  diskfs_stat ino d = if is_mounted d then read_inode d.mounted_drive ino d else (none, d)

  -- The loop at the end of `diskfs_delete`: the first entry of the inode gets the number 0.
  unfoldable pub clear_entry : ℕ → ℕ → ℕ → ℕ → Disk A → Disk A
  clear_entry parent_ino ino i zero d = d
  clear_entry parent_ino ino i (suc n) d =
      let (count, entry, d') =
        diskfs_read parent_ino (drive.junk d.device) (i * dirent_size) dirent_size d in
      elim (entry_inode entry == ino) [
        | true ↦
            (diskfs_write parent_ino (λ k. if ltb k 4 then 0 else entry k) (i * dirent_size)
              dirent_size d').1
        | false ↦ clear_entry parent_ino ino (i + 1) n d'
      ]

  unfoldable pub diskfs_delete : ℕ → Text → Disk A → Code Unit × Disk A
  diskfs_delete parent_ino name d =
      if is_mounted d
      then (let (there, d1) = diskfs_lookup parent_ino name d in
          elim there [
            | none ↦ (failed minus_one, d1)
            | some ino ↦
                let (found, d2) = read_inode d1.mounted_drive ino d1 in
                elim found [
                  | none ↦ (failed minus_one, d2)
                  | some inode ↦
                      if (inode.type == type_dir) && ltb 0 inode.size
                      then (failed minus_two, d2)
                      else (let d3 = free_inode ino (free_blocks free_block inode.blocks d2) in
                          let (above, d4) = read_inode d3.mounted_drive parent_ino d3 in
                          elim above [
                            | none ↦ (failed minus_one, d4)
                            | some parent ↦ (
                              done tt,
                              (diskfs_sync
                                  (clear_entry parent_ino ino 0 (parent.size / dirent_size) d4)).1,
                            )
                          ])
                ]
          ])
      else (failed minus_one, d)

  -- What fs.c uses of it.
  instance abbrev pub disk_fs : DiskFs (Disk A)
  disk_fs = record {
    lookup = λ d ino name. diskfs_lookup ino name d;
    create = λ d ino name type.
        (let (code, d') = diskfs_create ino name (type_code type) d in (created code, d'));
    read = λ d ino size.
        (let (count, buffer, d') = diskfs_read ino (drive.junk d.device) 0 size d in
          (elim count [ none ↦ none | some n ↦ some (bytes_of buffer 0 n) ], d'));
    write = λ d ino source size. diskfs_write ino source 0 size d;
    sync = diskfs_sync;
    init = λ d n. diskfs_init n d;
  }
