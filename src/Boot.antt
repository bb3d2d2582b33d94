-- ===== src/Boot.antt =====
-- kernel/arch/x86_64/boot32: the 32-bit stage that the boot loader starts. It reads the memory map,
-- sets up the bitmap of free frames that the kernel goes on with, and maps memory onto itself.
pub mod Regions
pub mod Opened
pub mod Small
pub mod Pagemap
pub mod Paging
pub mod Identity
pub mod Start
pub mod Mapped
pub mod Reserve
pub mod Handover
pub mod Release
pub mod Tables
mod Tests
