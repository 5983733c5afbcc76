-- ===== src/Sched.antt =====
-- The scheduler, kernel/sched/sched.c and sched.h: tasks in a queue, newest first, one of them
-- current.
pub mod Task
pub mod Create
pub mod Life
pub mod Pick
pub mod Queue
pub mod Invariant
pub mod Running
pub mod Steps
pub mod Wait
pub mod Sleep
pub mod Fork
pub mod Starvation
pub mod Ticks
mod Tests
