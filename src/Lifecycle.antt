-- ===== src/Lifecycle.antt =====
-- The life of a process in kernel/proc.c: its entry in the table, sleeping and waking, waiting for a
-- child, and the accounts and alarms that this kernel adds.
pub mod Memory
pub mod Alloc
pub mod Wakeup
pub mod Wait
pub mod Alarm
mod Tests
