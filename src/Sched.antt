-- ===== src/Sched.antt =====
-- Locks, tasks and interrupts, under kernel/kernel/sched.
pub mod Mutex
pub mod Tasks
pub mod Interrupts
pub mod Dispatch
pub mod Cleanup
