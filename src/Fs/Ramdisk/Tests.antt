-- ===== src/Fs/Ramdisk/Tests.antt =====
-- A ramdisk of eight blocks.
use ulmeros.Common.{◌*◌, arith}
use ulmeros.Fs.Ext2.{Bytes}
use ulmeros.Fs.Ext2.Blocks.{Reads}
use ulmeros.Fs.Ramdisk.{Ramdisk, device_of}
use ulmeros.Fs.Ramdisk.Disk.{device-Reads}

abbrev disk : Ramdisk
disk = record { ramdisk = λ i. i; ramdisk_size = 8 }

abbrev empty : Bytes
empty i = 0

device-Reads_example : Reads (device_of disk empty) disk.ramdisk (8 * 512)
device-Reads_example = device-Reads disk (omega arith) empty
