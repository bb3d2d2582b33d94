-- ===== src/Init.antt =====
-- The start of the kernel, under kernel/kernel/init.
pub mod Cmdline
