-- ===== src/Fs/Partitions.antt =====
-- kernel/kernel/fs/partscan.c: the partition table of a block device, and the block device that a
-- partition is.
pub mod Disk
mod Tests
use ulmeros.Common.{
  ℕ, zero, suc, ◌+◌, ◌*◌, ◌/◌, ◌%◌, ◌^◌, ◌≡◌, Bool, true, false, List, [], ◌∷◌, leb, ◌==◌, ◌&&◌,
  ◌||◌, if◌then◌else◌,
}
use ulmeros.Common.Outcome.{Outcome, ok, panic, ◌>>=◌}
use ulmeros.Fs.Ext2.{Bytes, Device, get32}
use ulmeros.Fs.Ramdisk.{in_bytes}

-- `readblk` of a driver: the result as a `size_t`, and the buffer
abbrev pub ReadBlk : Type 0
ReadBlk = Bytes → (count lba : ℕ) → ℕ × Bytes

-- `part_t`; `kind` is its `type`
pub record Partition : Type 0 where
  pub blk_offset : ℕ
  pub blk_size : ℕ
  pub kind : ℕ

unfoldable pub ps_read : ReadBlk → Partition → ReadBlk
ps_read readblk part buffer count lba = readblk buffer count ((lba + part.blk_offset) % 2 ^ 64)

-- the file operation of a block device over any driver, read at an offset
abbrev pub file_of : ReadBlk → Bytes → Device
file_of readblk buffer = record {
  vfs_read_at = λ offset len.
      let (blks, buffer') = readblk buffer (len / 512) (offset / 512) in (in_bytes blks, buffer');
}

-- `mbr.parts[i]`, whose type is not 0 where there is a partition
pub mbr_part : Bytes → ℕ → Partition
mbr_part mbr i = record {
  blk_offset = get32 mbr (446 + 16 * i + 8);
  blk_size = get32 mbr (446 + 16 * i + 12);
  kind = mbr (446 + 16 * i + 4);
}

-- the loop over the table: the minor numbers and the partitions that are registered. To register a
-- partition of no blocks fails an assertion.
scan_parts : Bytes → (left i : ℕ) → Outcome (List (ℕ × Partition))
scan_parts mbr zero i = ok []
scan_parts mbr (suc left) i =
    let rest = scan_parts mbr left (i + 1) in
    let part = mbr_part mbr i in
    if part.kind == 0
    then rest
    else (if part.blk_size == 0 then panic else (rest >>= λ parts. ok ((i, part) ∷ parts)))

-- `buffer` is the memory of `mbr` before the read. A partition's own device is not scanned.
pub partscan : (is_partition : Bool) → ReadBlk → (buffer : Bytes) → Outcome (List (ℕ × Partition))
unfolding scan_parts
partscan true readblk buffer = ok []
partscan false readblk buffer =
    let (blks, mbr) = readblk buffer 1 0 in
    if leb (2 ^ 63) blks || blks == 0
    then ok []
    else (if mbr 510 == 0x55 && mbr 511 == 0xaa then scan_parts mbr 4 0 else ok [])
