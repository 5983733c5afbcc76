-- ===== src/Elf.antt =====
-- The program loader, kernel/core/elf.c and elf.h, over paging and the file system.
pub mod Load
pub mod Inside
pub mod Stores
mod Tests
