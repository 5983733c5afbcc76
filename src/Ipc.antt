-- ===== src/Ipc.antt =====
-- Ports and messages, kernel/ipc/ipc.c and ipc.h, over the scheduler.
pub mod Port
pub mod Send
pub mod Ring
pub mod Refine
pub mod Run
pub mod Blocking
pub mod Table
pub mod Memory
pub mod Waking
mod Tests
