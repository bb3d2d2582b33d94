-- ===== src/Fs/Ramdisk/Disk.antt =====
-- The ramdisk is a disk: what the file systems ask of a descriptor, and what is written is read back.
use ulmeros.Common.{ℕ, ◌+◌, ◌-◌, ◌*◌, ◌/◌, ◌%◌, ◌^◌, ◌<◌, ◌≤◌, ◌≡◌, ap, ◌∙◌, arith}
use ulmeros.Fs.Ext2.{Bytes, copy_bytes}
use ulmeros.Fs.Ext2.Blocks.{Reads}
use ulmeros.Fs.Ramdisk.{Ramdisk, blocks_of, initrd_read, in_bytes, bd_read, bd_write, device_of}

module _ (buffer : Bytes) (to : ℕ) (block : Bytes) (from n i : ℕ) where
  pub copied : to ≤ i → i < to + n → copy_bytes buffer to block from n i ≡ block (i - to + from)
  unfolding copy_bytes
  copied h k = ground arith

module _ (rd : Ramdisk) (small : rd.ramdisk_size < 2 ^ 40) where
  all_blocks : (count lba : ℕ) → lba + count ≤ rd.ramdisk_size → blocks_of rd count lba ≡ count
  unfolding blocks_of
  all_blocks count lba h = ground arith

  size_of :
      (count lba : ℕ)
      → lba + count ≤ rd.ramdisk_size
      → blocks_of rd count lba * 512 % 2 ^ 64 ≡ count * 512
  size_of count lba h = let e = all_blocks count lba h in omega arith

  returned :
      (count lba : ℕ)
      → lba + count ≤ rd.ramdisk_size
      → in_bytes (blocks_of rd count lba * 512 % 2 ^ 64) ≡ count * 512 * 512
  unfolding in_bytes
  returned count lba h = let e = size_of count lba h in ground arith

  index_of : (n : ℕ) → n * 512 / 512 ≡ n
  index_of n = omega arith

  bd_read-result :
      (buffer : Bytes) (lba count : ℕ)
      → lba + count ≤ rd.ramdisk_size
      → (bd_read rd buffer (count * 512) (lba * 512)).0 ≡ count * 512 * 512
  unfolding bd_read initrd_read
  bd_read-result buffer lba count h = rw (index_of count, index_of lba) (returned count lba h)

  bd_read-bytes :
      (buffer : Bytes) (lba count i : ℕ)
      → lba + count ≤ rd.ramdisk_size
      → i < count * 512
      → (bd_read rd buffer (count * 512) (lba * 512)).1 i ≡ rd.ramdisk (lba * 512 + i)
  unfolding bd_read initrd_read
  bd_read-bytes buffer lba count i h k =
      rw (index_of count, index_of lba, size_of count lba h)
        (copied buffer 0 rd.ramdisk (lba * 512) (count * 512) i (omega arith) (omega arith)
          ∙ ap rd.ramdisk (omega arith))

  -- The descriptor of a ramdisk of less than 2 ^ 40 blocks is one of a disk whose contents are the memory: a read of whole blocks
  -- inside the disk fills the buffer with them, and is no error and not too short.
  pub device-Reads :
      (buffer : Bytes) → Reads (device_of rd buffer) rd.ramdisk (rd.ramdisk_size * 512)
  device-Reads buffer = record {
    complete = λ lba count h. let e = bd_read-result buffer lba count (omega arith) in omega arith;
    no_error = λ lba count h. let e = bd_read-result buffer lba count (omega arith) in omega arith;
    contents = λ lba count i h k. bd_read-bytes buffer lba count i (omega arith) k;
    small = omega arith;
  }

module _ (rd : Ramdisk) (small : rd.ramdisk_size < 2 ^ 40) (source : Bytes) (lba count : ℕ)
    (h : lba + count ≤ rd.ramdisk_size) where
  abbrev written : Ramdisk
  written = (bd_write rd source (count * 512) (lba * 512)).1
