-- ===== src/Vmm.antt =====
-- Paging, kernel/mm/vmm.c and vmm.h.
pub mod Table
pub mod Space
pub mod Check
pub mod Map
pub mod Translate
mod Tests
