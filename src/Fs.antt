-- ===== src/Fs.antt =====
-- The file systems under kernel/kernel/fs.
pub mod Ext2
pub mod Partitions
pub mod Ramdisk
pub mod Vfs
pub mod Blockdevs
