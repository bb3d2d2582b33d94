-- ===== src/Proc.antt =====
-- What a process has besides its tasks, under kernel/kernel/sched and kernel/kernel/mm.
pub mod Program
pub mod Userstack
pub mod Descriptors
