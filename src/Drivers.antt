-- ===== src/Drivers.antt =====
-- kernel/drivers/pc: drivers of the devices of a personal computer.
pub mod Ata
mod Tests
