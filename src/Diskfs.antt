-- ===== src/Diskfs.antt =====
-- The file system on disk, kernel/fs/diskfs.c and diskfs.h.
pub mod Layout
pub mod State
pub mod Data
pub mod Dir
pub mod Loops
pub mod Buffer
pub mod Blocks
pub mod Inodes
pub mod Table
pub mod First
mod Tests
