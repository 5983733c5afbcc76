-- ===== src/Diskfs/Layout.antt =====
-- The structures of kernel/fs/diskfs.h and their bytes on disk. An array of bytes is a function.
use mex_os.Base.{
  ℕ, zero, suc, ◌+◌, ◌-◌, ◌*◌, ◌/◌, ◌%◌, List, [], ◌∷◌, ◌++◌, if◌then◌else◌, ltb, ◌==◌, get_or,
}
use mex_os.Text.{Text}

abbrev pub Bytes : Type 0
Bytes = ℕ → ℕ

abbrev pub magic_number : ℕ
magic_number = 0x6D786673

abbrev pub max_inodes : ℕ
max_inodes = 512

abbrev pub max_blocks : ℕ
max_blocks = 65536

abbrev pub inode_table_start : ℕ
inode_table_start = 33

abbrev pub data_start : ℕ
data_start = 545

abbrev pub disk_block : ℕ
disk_block = 512

abbrev pub direct_blocks : ℕ
direct_blocks = 12

-- `DISKFS_MAX_FILE_SIZE`
abbrev pub disk_file_size : ℕ
disk_file_size = 6144

abbrev pub max_filename : ℕ
max_filename = 28

abbrev pub type_file : ℕ
type_file = 1

abbrev pub type_dir : ℕ
type_dir = 2

-- `pad` is left out: nothing reads it.
pub record Superblock : Type 0 where
  pub magic : ℕ
  pub version : ℕ
  pub total_inodes : ℕ
  pub total_blocks : ℕ
  pub free_inodes : ℕ
  pub free_blocks : ℕ
  pub root_inode : ℕ
  pub block_size : ℕ

pub record Inode : Type 0 where
  pub type : ℕ
  pub size : ℕ
  pub blocks : List ℕ
  pub ctime : ℕ
  pub mtime : ℕ
  pub parent_inode : ℕ
  pub pad : Bytes

-- `sizeof(struct diskfs_inode)`, which is more than the 128 bytes of a slot in the table.
abbrev pub inode_size : ℕ
inode_size = 136

-- `sizeof(struct diskfs_dirent)`
abbrev pub dirent_size : ℕ
dirent_size = 32

-- The `k`-th byte of a `uint32_t`, lowest first.
abbrev pub byte_of : ℕ → ℕ → ℕ
byte_of w zero = w % 256
byte_of w (suc zero) = w / 256 % 256
byte_of w (suc (suc zero)) = w / 65536 % 256
byte_of w (suc (suc (suc k))) = w / 16777216 % 256

-- The `uint32_t` at an offset.
unfoldable pub word32 : Bytes → ℕ → ℕ
word32 b i = b i + 256 * b (i + 1) + 65536 * b (i + 2) + 16777216 * b (i + 3)

-- The bytes of an array of words.
abbrev pub words_bytes : List ℕ → Bytes
words_bytes ws k = byte_of (get_or ws (k / 4) 0) (k % 4)

abbrev pub superblock_bytes : Superblock → Bytes
superblock_bytes s = words_bytes (
    s.magic ∷ s.version ∷ s.total_inodes ∷ s.total_blocks ∷ s.free_inodes ∷ s.free_blocks
    ∷ s.root_inode ∷ s.block_size ∷ [])

abbrev pub superblock_of : Bytes → Superblock
superblock_of b = record {
  magic = word32 b 0;
  version = word32 b 4;
  total_inodes = word32 b 8;
  total_blocks = word32 b 12;
  free_inodes = word32 b 16;
  free_blocks = word32 b 20;
  root_inode = word32 b 24;
  block_size = word32 b 28;
}

abbrev pub inode_words : Inode → List ℕ
inode_words i = i.type ∷ i.size ∷ i.blocks ++ (i.ctime ∷ i.mtime ∷ i.parent_inode ∷ [])

abbrev pub inode_bytes : Inode → Bytes
inode_bytes i k = if ltb k 68 then words_bytes (inode_words i) k else i.pad (k - 68)

-- The `n` words from an offset on.
abbrev pub words_from : Bytes → ℕ → ℕ → List ℕ
words_from b i zero = []
words_from b i (suc n) = word32 b i ∷ words_from b (i + 4) n

abbrev pub inode_of : Bytes → Inode
inode_of b = record {
  type = word32 b 0;
  size = word32 b 4;
  blocks = words_from b 8 direct_blocks;
  ctime = word32 b 56;
  mtime = word32 b 60;
  parent_inode = word32 b 64;
  pad = λ k. b (68 + k);
}

abbrev pub blank_inode : Inode
blank_inode = record {
  type = 0;
  size = 0;
  blocks = 0 ∷ 0 ∷ 0 ∷ 0 ∷ 0 ∷ 0 ∷ 0 ∷ 0 ∷ 0 ∷ 0 ∷ 0 ∷ 0 ∷ [];
  ctime = 0;
  mtime = 0;
  parent_inode = 0;
  pad = λ k. 0;
}

-- The characters up to the first 0 of an array of `n`.
abbrev pub text_at : Bytes → ℕ → ℕ → Text
text_at b i zero = []
text_at b i (suc n) = let rest = text_at b (i + 1) n in if b i == 0 then [] else b i ∷ rest

-- A directory entry: the number of the inode, and the name with zeros behind it.
abbrev pub dirent_bytes : ℕ → Text → Bytes
dirent_bytes ino name k = if ltb k 4 then byte_of ino k else get_or name (k - 4) 0

abbrev pub entry_inode : Bytes → ℕ
entry_inode b = word32 b 0

abbrev pub entry_name : Bytes → Text
entry_name b = text_at b 4 max_filename
