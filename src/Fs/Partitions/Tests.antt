-- ===== src/Fs/Partitions/Tests.antt =====
-- A partition of four blocks on a ramdisk of eight.
use ulmeros.Common.{◌+◌, ◌*◌, arith}
use ulmeros.Fs.Ext2.{Bytes}
use ulmeros.Fs.Ext2.Blocks.{Reads}
use ulmeros.Fs.Ramdisk.{Ramdisk, initrd_read}
use ulmeros.Fs.Partitions.{Partition, ps_read, file_of}
use ulmeros.Fs.Partitions.Disk.{partition-Reads}

abbrev disk : Ramdisk
disk = record { ramdisk = λ i. i; ramdisk_size = 8 }

abbrev second_half : Partition
second_half = record { blk_offset = 4; blk_size = 4; kind = 0x83 }

abbrev empty : Bytes
empty i = 0

partition-Reads_example :
    Reads
      (file_of (ps_read (initrd_read disk) second_half) empty)
      (λ i. disk.ramdisk (4 * 512 + i))
      (4 * 512)
partition-Reads_example = partition-Reads disk (omega arith) second_half (omega arith) empty
