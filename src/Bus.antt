-- ===== src/Bus.antt =====
-- kernel/kernel/bus.
pub mod Pci
