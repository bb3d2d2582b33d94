-- ===== src/Fs/Ramdisk.antt =====
-- kernel/kernel/fs/ramdisk.c, and the block device's file operations of kernel/kernel/fs/blkdev_ops.c
-- over it. The memory of the disk and a buffer are functions from positions to bytes.
pub mod Disk
mod Tests
use ulmeros.Common.{ℕ, ◌+◌, ◌-◌, ◌*◌, ◌/◌, ◌%◌, ◌^◌, ◌≡◌, Bool, ltb, leb, if◌then◌else◌}
use ulmeros.Fs.Ext2.{Bytes, Device, copy_bytes}

-- `rd_t`; the size is in blocks
pub record Ramdisk : Type 0 where
  pub ramdisk : Bytes
  pub ramdisk_size : ℕ

-- `count` cut off at the end of the disk; beyond the end the difference wraps round.
unfoldable pub blocks_of : Ramdisk → (count lba : ℕ) → ℕ
blocks_of rd count lba =
    if ltb rd.ramdisk_size ((lba + count) % 2 ^ 64)
    then (rd.ramdisk_size + 2 ^ 64 - lba) % 2 ^ 64
    else count

-- The result is that of the function, in bytes, as a `size_t`.
unfoldable pub initrd_read : Ramdisk → Bytes → (count lba : ℕ) → ℕ × Bytes
initrd_read rd buffer count lba =
    let n = blocks_of rd count lba in
    (n * 512 % 2 ^ 64, copy_bytes buffer 0 rd.ramdisk (lba * 512) (n * 512 % 2 ^ 64))

unfoldable pub initrd_write : Ramdisk → Bytes → (count lba : ℕ) → ℕ × Ramdisk
initrd_write rd buffer count lba =
    let n = blocks_of rd count lba in
    (
      n * 512 % 2 ^ 64,
      record rd { ramdisk = copy_bytes rd.ramdisk (lba * 512) buffer 0 (n * 512 % 2 ^ 64) },
    )

-- A result with the sign bit is an error and passed on; any other is taken for a number of blocks.
unfoldable pub in_bytes : ℕ → ℕ
in_bytes blks = if leb (2 ^ 63) blks then blks else blks * 512 % 2 ^ 64

unfoldable pub bd_read : Ramdisk → Bytes → (size off : ℕ) → ℕ × Bytes
bd_read rd buffer size off =
    let (blks, buffer') = initrd_read rd buffer (size / 512) (off / 512) in (in_bytes blks, buffer')

unfoldable pub bd_write : Ramdisk → Bytes → (size off : ℕ) → ℕ × Ramdisk
bd_write rd buffer size off =
    let (blks, rd') = initrd_write rd buffer (size / 512) (off / 512) in (in_bytes blks, rd')

-- The descriptor that `bd_open` gives, read at an offset into a given buffer.
abbrev pub device_of : Ramdisk → Bytes → Device
device_of rd buffer = record { vfs_read_at = λ offset len. bd_read rd buffer len offset }
