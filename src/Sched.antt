-- ===== src/Sched.antt =====
-- The schedulers of `scheduler()` in kernel/proc.c.
pub mod Select
pub mod Choice
pub mod Scan
pub mod Fcfs
pub mod Pbs
pub mod Lottery
pub mod Mlfq
mod Tests
