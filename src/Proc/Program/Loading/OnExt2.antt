-- ===== src/Proc/Program/Loading/OnExt2.antt =====
-- A file of an ext2 file system, read through its descriptor, is what the program loader needs.
use ulmeros.Common.{ℕ, ◌-◌, ◌^◌}
use ulmeros.Common.Outcome.{Outcome, ok}
use ulmeros.Fs.Ext2.{Bytes, Device, Ext2fs, Inode, ReadResult, done, ext2_read}

-- the number that is returned and the buffer; -EIO for an error
abbrev count_and_bytes : Outcome ReadResult → ℕ × Bytes
count_and_bytes (ok (done n b)) = (n, b)
count_and_bytes other = (2 ^ 64 - 5, λ i. 0)

-- the descriptor of a file of an ext2 file system on `d`, of so many bytes
abbrev pub ext2_file : Device → Ext2fs → Inode → (length : ℕ) → Device
ext2_file d fs inode length = record {
  vfs_read_at = λ offset n. count_and_bytes (ext2_read d fs inode length (λ i. 0) n offset);
}
