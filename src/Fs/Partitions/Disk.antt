-- ===== src/Fs/Partitions/Disk.antt =====
-- A partition of a ramdisk is a disk: the file systems find in it what the ramdisk has there.
use ulmeros.Common.{ℕ, ◌+◌, ◌*◌, ◌/◌, ◌%◌, ◌^◌, ◌<◌, ◌≤◌, ◌≡◌, sym, ap, ◌∙◌, subst, arith}
use ulmeros.Fs.Ext2.{Bytes, Device}
use ulmeros.Fs.Ext2.Blocks.{Reads}
use ulmeros.Fs.Ramdisk.{Ramdisk, initrd_read, in_bytes, bd_read, device_of}
use ulmeros.Fs.Ramdisk.Disk.{device-Reads}
use ulmeros.Fs.Partitions.{Partition, ps_read, file_of}

module _ (rd : Ramdisk) (small : rd.ramdisk_size < 2 ^ 40) (part : Partition)
    (inside : part.blk_offset + part.blk_size ≤ rd.ramdisk_size) (buffer : Bytes) where
  abbrev partition : Device
  partition = file_of (ps_read (initrd_read rd) part) buffer

  -- A read of the partition is a read of the ramdisk, further on.
  further_on :
      (lba count : ℕ)
      → lba * 512 + count * 512 ≤ part.blk_size * 512
      → partition.vfs_read_at (lba * 512) (count * 512)
        ≡ (device_of rd buffer).vfs_read_at ((lba + part.blk_offset) * 512) (count * 512)
  unfolding ps_read bd_read
  further_on lba count h =
      let here : (lba * 512 / 512 + part.blk_offset) % 2 ^ 64
          ≡ (lba + part.blk_offset) * 512 / 512 =
        omega arith in
      ap (λ l. let (blks, b) = initrd_read rd buffer (count * 512 / 512) l in (in_bytes blks, b))
        here

  -- The descriptor of a partition that lies on a ramdisk of less than 2 ^ 40 blocks is one of a disk whose contents are the
  -- memory from the partition's first block on.
  pub partition-Reads :
      Reads partition (λ i. rd.ramdisk (part.blk_offset * 512 + i)) (part.blk_size * 512)
  partition-Reads =
      let whole = device-Reads rd small buffer in
      record {
        complete = λ lba count h.
            subst (λ v. count * 512 ≤ v.0) (sym (further_on lba count h))
              (whole.complete (lba + part.blk_offset) count (omega arith));
        no_error = λ lba count h.
            subst (λ v. v.0 < 2 ^ 63) (sym (further_on lba count h))
              (whole.no_error (lba + part.blk_offset) count (omega arith));
        contents = λ lba count i h k.
            ap (λ v. v.1 i) (further_on lba count h)
            ∙ whole.contents (lba + part.blk_offset) count i (omega arith) k
            ∙ ap rd.ramdisk (omega arith);
        small = omega arith;
      }
