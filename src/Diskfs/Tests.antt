-- ===== src/Diskfs/Tests.antt =====
-- A small disk in memory under kernel/fs/diskfs.c.
use mex_os.Base.{
  ℕ, ◌+◌, ◌-◌, ◌*◌, ◌/◌, ◌%◌, ◌≡◌, ◌<◌, ◌^◌, refl, sym, ◌∙◌, ap, true, false, ◌&&◌, none, some, [],
  ◌∷◌, if◌then◌else◌, get_or, zero, suc, ltb, leb, ◌==◌, replicate, arith,
}
use mex_os.Text.{Text, same_text}
use mex_os.Diskfs.Layout.{Bytes, Inode, blank_inode, word32}
use mex_os.Diskfs.State.{
  Drive, Disk, no_drive, bitmap_set, bitmap_test, find_free_from, cached, recache, read_superblock,
  write_superblock, read_bitmaps, write_bitmaps, read_inode, write_inode, alloc_block, alloc_inode,
}
use mex_os.Diskfs.Data.{
  read_loop, diskfs_read, set_block, block_for, old_block, write_loop, finish_write, diskfs_write,
}
use mex_os.Diskfs.Inodes.{IsStorage, IsInode, Agree}
use mex_os.Diskfs.Table.{read_inode-write_inode, write_inode-next}
use mex_os.Diskfs.Loops.{loops-end}
use mex_os.Diskfs.Buffer.{IsRead, diskfs_read-IsRead}
use mex_os.Diskfs.First.{first_block-lost}
use mex_os.Diskfs.Dir.{
  done, formatted, diskfs_sync, diskfs_format, diskfs_mount, diskfs_init, lookup_from,
  diskfs_lookup, add_entry, diskfs_create,
}

-- Sectors in memory; drive 0 exists.
abbrev Sectors : Type 0
Sectors = ℕ → Bytes

instance abbrev memory_drive : Drive Sectors
memory_drive = record {
  drive_exists = λ a n. n == 0;
  read_sectors = λ a n sector count. (some (λ k. a (sector + k / 512) (k % 512)), a);
  write_sectors = λ a n sector count b. (
    true,
    λ s k.
        if leb sector s && ltb s (sector + count) && ltb k 512
        then b ((s - sector) * 512 + k)
        else a s k,
  );
  ticks = λ a. 5;
  junk = λ a k. 0;
}

abbrev blank_disk : Disk Sectors
blank_disk = record {
  mounted_drive = no_drive;
  superblock = record {
    magic = 0;
    version = 0;
    total_inodes = 0;
    total_blocks = 0;
    free_inodes = 0;
    free_blocks = 0;
    root_inode = 0;
    block_size = 0;
  };
  inode_bitmap = λ k. 0;
  block_bitmap = λ k. 0;
  cache = replicate 8 (record { num = 0; valid = false; inode = blank_inode });
  cache_idx = 0;
  device = λ s k. 0;
}

abbrev ready : Disk Sectors
ready = (diskfs_init 0 blank_disk).1

abbrev name_a : Text
name_a = b'a' ∷ []

abbrev name_b : Text
name_b = b'b' ∷ []

abbrev with_a : Disk Sectors
with_a = (diskfs_create 0 name_a 1 ready).1

init_passes : (diskfs_init 0 blank_disk).0 ≡ true
unfolding word32 diskfs_init diskfs_mount diskfs_format read_superblock write_superblock
    read_bitmaps write_bitmaps write_inode bitmap_set recache
init_passes = refl

-- The first entry of the root is in block 0, and so is lost.
a_created : (diskfs_create 0 name_a 1 ready).0 ≡ done 1
unfolding word32 diskfs_init diskfs_mount diskfs_format read_superblock write_superblock
    read_bitmaps write_bitmaps read_inode write_inode bitmap_set recache cached find_free_from
    bitmap_test alloc_block alloc_inode read_loop diskfs_read block_for old_block write_loop
    finish_write diskfs_write diskfs_sync lookup_from diskfs_lookup add_entry diskfs_create
    same_text
a_created = refl

a_lost : (diskfs_lookup 0 name_a with_a).0 ≡ none
unfolding word32 diskfs_init diskfs_mount diskfs_format read_superblock write_superblock
    read_bitmaps write_bitmaps read_inode write_inode bitmap_set recache cached find_free_from
    bitmap_test alloc_block alloc_inode read_loop diskfs_read block_for old_block write_loop
    finish_write diskfs_write diskfs_sync lookup_from diskfs_lookup add_entry diskfs_create
    same_text
a_lost = refl

abbrev with_b : Disk Sectors
with_b = (diskfs_create 0 name_b 1 with_a).1

-- The second one makes block 1 the first of the root, and is found.
b_found : (diskfs_lookup 0 name_b with_b).0 ≡ some 2
unfolding word32 diskfs_init diskfs_mount diskfs_format read_superblock write_superblock
    read_bitmaps write_bitmaps read_inode write_inode bitmap_set recache cached find_free_from
    bitmap_test alloc_block alloc_inode read_loop diskfs_read block_for old_block write_loop
    finish_write diskfs_write diskfs_sync lookup_from diskfs_lookup add_entry diskfs_create
    same_text
b_found = refl

abbrev seven : Bytes
seven k = 7

abbrev written : Disk Sectors
written = (diskfs_write 2 seven 500 20 with_b).1

-- A write across the end of a block, and the bytes read back.
wrote : (diskfs_write 2 seven 500 20 with_b).0 ≡ some 20
unfolding word32 diskfs_init diskfs_mount diskfs_format read_superblock write_superblock
    read_bitmaps write_bitmaps read_inode write_inode bitmap_set recache cached find_free_from
    bitmap_test alloc_block alloc_inode read_loop diskfs_read block_for old_block write_loop
    finish_write diskfs_write diskfs_sync lookup_from diskfs_lookup add_entry diskfs_create
    same_text
wrote = refl

read_back : (diskfs_read 2 (λ k. 0) 510 30 written).0 ≡ some 10
unfolding word32 diskfs_init diskfs_mount diskfs_format read_superblock write_superblock
    read_bitmaps write_bitmaps read_inode write_inode bitmap_set recache cached find_free_from
    bitmap_test alloc_block alloc_inode read_loop diskfs_read block_for old_block write_loop
    finish_write diskfs_write diskfs_sync lookup_from diskfs_lookup add_entry diskfs_create
    same_text
read_back = refl

memory-IsStorage : IsStorage Sectors
memory-IsStorage = record {
  reads_back = λ a a' n sector b e.
      (let device = ap (λ p. p.1) e in
        (
          (λ k. a' (sector + k / 512) (k % 512)),
          refl,
          λ k below.
              (let there : sector + k / 512 ≡ sector = omega (arith, below) in
                let place : k % 512 ≡ k = omega (arith, below) in
                let first : leb sector sector ≡ true = ground arith in
                let last : ltb sector (sector + 1) ≡ true = ground arith in
                let inside : ltb k 512 ≡ true = ground (arith, below) in
                let at : (sector - sector) * 512 + k ≡ k = omega arith in
                rw (there, place)
                  (ap (λ d. d sector k) (sym device) ∙ rw (first, last, inside) (ap b at))),
        ));
}

loops-end_example :
    (read_loop (5 + 20) blank_inode 0 20 0 seven ready
      ≡ read_loop 20 blank_inode 0 20 0 seven ready)
    × (write_loop (5 + 20) blank_inode seven 0 20 0 ready
        ≡ write_loop 20 blank_inode seven 0 20 0 ready)
loops-end_example = loops-end 5 20 blank_inode seven seven 0 20 0 ready (omega arith) (omega arith)

diskfs_read-IsRead_example : IsRead 30 seven (diskfs_read 2 seven 510 30 written)
diskfs_read-IsRead_example = diskfs_read-IsRead 2 seven 510 30 written (omega arith)

-- A disk of 100 blocks, none of them taken.
abbrev fresh : Disk Sectors
fresh = record blank_disk {
  superblock = record (blank_disk.superblock) { total_blocks = 100; free_blocks = 100 };
}

fresh-alloc_block : alloc_block fresh ≡ (some 0, (alloc_block fresh).1)
unfolding word32 diskfs_init diskfs_mount diskfs_format read_superblock write_superblock
    read_bitmaps write_bitmaps read_inode write_inode bitmap_set recache cached find_free_from
    bitmap_test alloc_block alloc_inode read_loop diskfs_read block_for old_block write_loop
    finish_write diskfs_write diskfs_sync lookup_from diskfs_lookup add_entry diskfs_create
    same_text
fresh-alloc_block = refl

abbrev some_inode : Inode
some_inode = record blank_inode { type = 1; size = 9 }

zero_words : (n m : ℕ) → get_or (replicate n zero) m 0 < 2 ^ 32
zero_words zero m = omega arith
zero_words (suc n) zero = omega arith
zero_words (suc n) (suc m) = zero_words n m

some_words : (m : ℕ) → get_or (1 ∷ 9 ∷ replicate 15 zero) m 0 < 2 ^ 32
some_words zero = omega arith
some_words (suc zero) = omega arith
some_words (suc (suc m)) = zero_words 15 m

some_inode-IsInode : IsInode some_inode
some_inode-IsInode = record { words = some_words; twelve = refl }

abbrev stored : Disk Sectors
stored = (write_inode 0 5 some_inode blank_disk).1

wrote_inode : write_inode 0 5 some_inode blank_disk ≡ (true, stored)
unfolding word32 diskfs_init diskfs_mount diskfs_format read_superblock write_superblock
    read_bitmaps write_bitmaps read_inode write_inode bitmap_set recache cached find_free_from
    bitmap_test alloc_block alloc_inode read_loop diskfs_read block_for old_block write_loop
    finish_write diskfs_write diskfs_sync lookup_from diskfs_lookup add_entry diskfs_create
    same_text
wrote_inode = refl

uncached : (ino : ℕ) → cached ino stored.cache ≡ none
unfolding word32 diskfs_init diskfs_mount diskfs_format read_superblock write_superblock
    read_bitmaps write_bitmaps read_inode write_inode bitmap_set recache cached find_free_from
    bitmap_test alloc_block alloc_inode read_loop diskfs_read block_for old_block write_loop
    finish_write diskfs_write diskfs_sync lookup_from diskfs_lookup add_entry diskfs_create
    same_text
uncached ino = refl

read_inode-write_inode_example :
    (j : Inode) × ((read_inode 0 5 stored).0 ≡ some j) × Agree j some_inode
read_inode-write_inode_example =
    read_inode-write_inode memory-IsStorage 0 5 some_inode blank_disk stored some_inode-IsInode
      wrote_inode

write_inode-next_example :
    (j : Inode) × ((read_inode 0 6 stored).0 ≡ some j)
    × (j.type ≡ word32 some_inode.pad 60)
    × (j.size ≡ word32 some_inode.pad 64)
write_inode-next_example =
    write_inode-next memory-IsStorage 0 5 some_inode blank_disk stored (omega arith) wrote_inode
      (uncached 6)

-- An inode with block 0 in the cache of a mounted disk.
abbrev with_zero : Inode
with_zero = set_block blank_inode 0 0

abbrev holding : Disk Sectors
holding = record blank_disk {
  mounted_drive = 0;
  cache = record { num = 3; valid = true; inode = with_zero } ∷ [];
}

block_zero : (block_for blank_inode 0 (formatted blank_disk)).0 ≡ some (0, with_zero)
unfolding word32 diskfs_init diskfs_mount diskfs_format read_superblock write_superblock
    read_bitmaps write_bitmaps read_inode write_inode bitmap_set recache cached find_free_from
    bitmap_test alloc_block alloc_inode read_loop diskfs_read block_for old_block write_loop
    finish_write diskfs_write diskfs_sync lookup_from diskfs_lookup add_entry diskfs_create
    same_text
block_zero = refl

holds : read_inode 0 3 holding ≡ (some with_zero, holding)
unfolding word32 diskfs_init diskfs_mount diskfs_format read_superblock write_superblock
    read_bitmaps write_bitmaps read_inode write_inode bitmap_set recache cached find_free_from
    bitmap_test alloc_block alloc_inode read_loop diskfs_read block_for old_block write_loop
    finish_write diskfs_write diskfs_sync lookup_from diskfs_lookup add_entry diskfs_create
    same_text
holds = refl

first_block-lost_example :
    (◌≡◌ {A = ℕ} 0 0) × (diskfs_read 3 seven 0 40 holding ≡ (some 0, seven, holding))
first_block-lost_example =
    first_block-lost blank_disk holding holding blank_inode with_zero 0 3 40 seven refl refl
      block_zero refl holds
