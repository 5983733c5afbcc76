-- ===== src/Fs.antt =====
-- The file system in memory, kernel/fs/fs.c and fs.h, over the one on disk.
pub mod Node
pub mod Ops
pub mod Disk
pub mod Rooted
pub mod Tree
pub mod Create
pub mod Lookup
pub mod Files
pub mod Contents
pub mod Append
pub mod Created
pub mod Remove
pub mod Failure
pub mod Listing
pub mod Steps
mod Tests
