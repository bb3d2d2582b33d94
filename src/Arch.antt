-- ===== src/Arch.antt =====
-- kernel/arch: what the processor architecture defines.
pub mod Vspace
