-- ===== src/Fs/Ext2/Tests.antt =====
-- A disk of one file system, whose blocks are small enough to write down.
use ulmeros.Common.{
  ℕ, ◌+◌, ◌-◌, ◌*◌, ◌/◌, ◌%◌, ◌<◌, ◌≡◌, refl, List, arith, ◌==◌, if◌then◌else◌, min, some,
}
use ulmeros.Common.Outcome.{ok}
use ulmeros.Fs.Ext2.{
  Bytes, Device, get32, Ext2fs, Inode, bg_inode_table, done, ext2_read, ext2_fetch_dir, fetch_inode,
  found, inode_at, ext2_probe, superblock_at,
}
use ulmeros.Fs.Ext2.Blocks.{Reads, Sized, OnDisk, file_block}
use ulmeros.Fs.Ext2.Read.{content, Holds, ext2_read-content}
use ulmeros.Fs.Ext2.Inodes.{Alike, fetch_inode-slot, Probed, superblock_of, ext2_probe-Probed}
use ulmeros.Fs.Ext2.Dir.{Laid, Record, entries, ext2_fetch_dir-entries}

-- the superblock: 8 inodes and 64 blocks of a kilobyte in one group, of 128 bytes each inode; and
-- the group's inode table in block 4
abbrev disk : Bytes
disk i =
    if i == 1024
    then 8
    else (if i == 1028
        then 64
        else (if i == 1056
            then 64
            else (if i == 1064
                then 8
                else (if i == 1080
                    then 0x53
                    else (if i == 1081 then 0xef else (if i == 2056 then 4 else 0))))))

abbrev capacity : ℕ
capacity = 65536

abbrev device : Device
device = record { vfs_read_at = λ offset len. (len, λ i. disk (offset + i)) }

device-Reads : Reads device disk capacity
device-Reads = record {
  complete = λ lba count h. omega arith;
  no_error = λ lba count h. omega arith;
  contents = λ lba count i h k. refl;
  small = omega arith;
}

abbrev fs : Ext2fs
fs = record {
  sb = superblock_of disk;
  block_size = 1024;
  gd_count = 1;
  group_descriptors = λ i. disk (2048 + i);
}

fs-Sized : Sized fs 2
fs-Sized = record { sectors = refl; some_sectors = omega arith }

-- a file in blocks 10 and 11
abbrev file : Inode
file = record { i_mode = 0x81a4; i_size = 1500; i_block = λ k. 10 + k }

file-OnDisk : OnDisk disk capacity 1024 file 2
unfolding file_block
file-OnDisk = record {
  direct_or_single = omega arith;
  indirect = λ h. absurd (omega arith);
  inside = λ index h. ground arith;
}

ext2_read-content_example :
    (b : Bytes) × (ext2_read device fs file 1500 (λ i. 0) 600 1000
      ≡ ok (done (min 600 (1500 - 1000)) b))
    × Holds disk 1024 file 1000 0 (min 600 (1500 - 1000)) (λ i. 0) b
ext2_read-content_example =
    ext2_read-content device disk capacity device-Reads fs 2 fs-Sized file 1500 2 file-OnDisk
      (omega arith) (omega arith) (λ i. 0) 600 1000 (omega arith) (omega arith)

fetch_inode-slot_example :
    (n : Inode) × (fetch_inode device fs 2 ≡ ok (found n))
    × Alike n (
        inode_at disk (
          bg_inode_table fs.group_descriptors ((2 - 1) / fs.sb.inodes_per_group) * 1024
          + (2 - 1) % fs.sb.inodes_per_group * 128))
unfolding superblock_at bg_inode_table get32
fetch_inode-slot_example =
    fetch_inode-slot device disk capacity device-Reads fs 2 fs-Sized 2 2 refl (omega arith) refl
      (omega arith) (omega arith) (omega arith) (omega arith)

ext2_fetch_dir-entries_example :
    (b : Bytes) × ((i : ℕ) → i < 1500 → b i ≡ content disk 1024 file i)
    × ((xs : List Record)
        → Laid b 0 1500 xs
        → ext2_fetch_dir device fs file 1500 (λ i. 0) ≡ ok (entries xs))
ext2_fetch_dir-entries_example =
    ext2_fetch_dir-entries device disk capacity device-Reads fs 2 fs-Sized file 1500 2 file-OnDisk
      (omega arith) (omega arith) (λ i. 0)

ext2_probe-Probed_example : (f : Ext2fs) × (ext2_probe device ≡ ok (some f)) × Probed disk f
unfolding superblock_at get32
ext2_probe-Probed_example =
    ext2_probe-Probed device disk capacity device-Reads refl (omega arith) (omega arith)
      (omega arith) (omega arith)
