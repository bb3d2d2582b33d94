-- ===== src/Proc/Program/Loading/Tests.antt =====
-- A program of one segment, in a file of 120 bytes; and a file of an ext2 file system.
use ulmeros.Common.{◌%◌, ◌-◌, ◌+◌, leb, ◌==◌, if◌then◌else◌}
use ulmeros.Fs.Ext2.{Bytes, Device, Ext2fs, Inode}
use ulmeros.Fs.Ext2.Inodes.{superblock_of}
use ulmeros.Proc.Program.Loading.Created.{from, Created}

abbrev file : Bytes
file i =
    if i == 0
    then 0x7f
    else if i == 1
    then 0x45
    else if i == 2
    then 0x4c
    else if i == 3
    then 0x46
    else if i == 5
    then 1
    else if i == 18
    then 0x3e
    else if i == 32
    then 64
    else if i == 54
    then 56
    else if i == 56
    then 1
    else if i == 64
    then 1
    else if i == 82
    then 0x40
    else if i == 105
    then 0x10
    else 0

device : Device
device = record {
  vfs_read_at = λ offset n. (if leb (offset + n) 120 then n else 120 - offset, from file offset);
}

-- a disk of 64 kilobytes, and a file in its blocks 10 and 11
abbrev bytes : Bytes
bytes i = i % 256

disk : Device
disk = record { vfs_read_at = λ offset len. (len, λ i. bytes (offset + i)) }

abbrev fs : Ext2fs
fs = record {
  sb = superblock_of bytes;
  block_size = 1024;
  gd_count = 1;
  group_descriptors = λ i. bytes (2048 + i);
}

abbrev two_blocks : Inode
two_blocks = record { i_mode = 0x81a4; i_size = 1500; i_block = λ k. 10 + k }
