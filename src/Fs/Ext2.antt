-- ===== src/Fs/Ext2.antt =====
-- kernel/kernel/fs/ext2fs.c: the reading side of the ext2 driver. The disk is behind an open
-- descriptor; a buffer is a function from positions to bytes.
pub mod Blocks
pub mod Read
pub mod Inodes
pub mod Dir
mod Tests
use ulmeros.Common.{
  ℕ, zero, suc, ◌+◌, ◌-◌, ◌*◌, ◌/◌, ◌%◌, ◌^◌, ◌<◌, ◌≤◌, ◌≡◌, Bool, true, false, Option, none, some,
  List, [], ◌∷◌, ◌++◌, ltb, leb, ◌==◌, if◌then◌else◌,
}
use ulmeros.Common.Outcome.{Outcome, ok, panic, fault, spinning, ◌>>=◌}

abbrev pub Bytes : Type 0
Bytes = ℕ → ℕ

-- What the driver uses of the open descriptor `fs->fd`: `vfs_seek` followed by `vfs_read`. It gives
-- the result, converted to `size_t`, and the bytes that the buffer then holds.
pub record Device : Type 0 where
  pub vfs_read_at : (offset len : ℕ) → ℕ × Bytes

abbrev pub lba_size : ℕ
lba_size = 512

-- the little-endian fields of a structure in memory
abbrev pub get16 : Bytes → ℕ → ℕ
get16 b i = b i + 256 * b (i + 1)

unfoldable pub get32 : Bytes → ℕ → ℕ
get32 b i = get16 b i + 65536 * get16 b (i + 2)

pub record Superblock : Type 0 where
  pub total_inodes : ℕ
  pub total_blocks : ℕ
  pub block_size_log : ℕ
  pub blocks_per_group : ℕ
  pub inodes_per_group : ℕ
  pub signature : ℕ
  pub major_version : ℕ
  pub inode_size : ℕ

pub superblock_at : Bytes → Superblock
superblock_at b = record {
  total_inodes = get32 b 0;
  total_blocks = get32 b 4;
  block_size_log = get32 b 24;
  blocks_per_group = get32 b 32;
  inodes_per_group = get32 b 40;
  signature = get16 b 56;
  major_version = get32 b 76;
  inode_size = get16 b 88;
}

-- `group_descriptors` points to entries of 32 bytes.
pub record Ext2fs : Type 0 where
  pub sb : Superblock
  pub block_size : ℕ
  pub gd_count : ℕ
  pub group_descriptors : Bytes

unfoldable pub bg_inode_table : Bytes → ℕ → ℕ
bg_inode_table gd group_no = get32 gd (group_no * 32 + 8)

-- `ext2_inode_t`, 128 bytes of which these fields are used
pub record Inode : Type 0 where
  pub i_mode : ℕ
  pub i_size : ℕ
  pub i_block : ℕ → ℕ

unfoldable pub inode_at : Bytes → ℕ → Inode
inode_at b i = record {
  i_mode = get16 b i;
  i_size = get32 b (i + 4);
  i_block = λ k. get32 b (i + 40 + 4 * k);
}

-- `none` is false. A negative result is a large `size_t`, so it does not compare as smaller.
unfoldable pub ext2_get_block : Device → (lba count : ℕ) → Option Bytes
ext2_get_block d lba count =
    let (error, buffer) = d.vfs_read_at (lba * lba_size % 2 ^ 64) (count * lba_size) in
    if ltb error (count * lba_size) then none else some buffer

-- `a / b` of unsigned integers, which traps at 0
unfoldable pub divide : ℕ → ℕ → Outcome ℕ
divide a zero = fault
divide a (suc b) = ok (a / suc b)

-- the size of a block that the superblock states
abbrev pub block_size_of : Superblock → ℕ
block_size_of sb = 1024 * 2 ^ sb.block_size_log

-- `0x400 << block_size_log`, of `int`: the result is undefined where it does not fit
unfoldable pub block_size_shift : Superblock → Outcome ℕ
block_size_shift sb = if leb 21 sb.block_size_log then fault else ok (1024 * 2 ^ sb.block_size_log)

-- quotient rounded up, as the code does it
abbrev pub round_up : ℕ → ℕ → ℕ
round_up a b = if a % b == 0 then a / b else a / b + 1

-- where the table of group descriptors starts, in disk blocks
unfoldable pub gdt_lba_of : ℕ → ℕ
gdt_lba_of block_size = (if block_size == 1024 then 2 else 1) * (block_size / lba_size)

abbrev pub ext2_signature : ℕ
ext2_signature = 0xef53

-- the rest of `ext2_probe`, once the superblock is read
probe_superblock : Device → Superblock → Outcome (Option Ext2fs)
probe_superblock d sb =
    if sb.signature == ext2_signature
    then (do
      bs ← block_size_shift sb
      groups ← divide sb.total_blocks sb.blocks_per_group
      let gd_count = round_up sb.total_blocks sb.blocks_per_group
      ok (elim (ext2_get_block d (gdt_lba_of bs) (round_up (gd_count * 32) lba_size)) [
        | none ↦ none
        | some gdt ↦
            some (record { sb = sb; block_size = bs; gd_count = gd_count; group_descriptors = gdt })
      ]))
    else ok none

-- The result is NULL where the read fails or the signature is another one.
pub ext2_probe : Device → Outcome (Option Ext2fs)
ext2_probe d =
    let (error, b) = d.vfs_read_at (2 * lba_size) (2 * lba_size) in
    if leb (2 ^ 63) error then ok none else probe_superblock d (superblock_at b)

-- the error codes that the driver returns
pub data Errno : Type 0 where
  eio : Errno
  enoent : Errno

pub data Fetched : Type 0 where
  found : Inode → Fetched
  failed : Errno → Fetched

-- `inode_no - 1`
unfoldable pub index_of : ℕ → ℕ
index_of inode_no = (inode_no + (2 ^ 64 - 1)) % 2 ^ 64

abbrev pub inode_size_of : Superblock → ℕ
inode_size_of sb = if ltb sb.major_version 1 then 128 else sb.inode_size

-- the sector of an inode, and its place in the sector in units of `sizeof(ext2_inode_t)`
pub inode_place : Ext2fs → ℕ → Outcome (ℕ × ℕ)
inode_place fs inode_no = do
  let index = index_of inode_no
  group_no ← divide index fs.sb.inodes_per_group
  per_sector ← divide lba_size (inode_size_of fs.sb)
  lba_offset ← divide (index % fs.sb.inodes_per_group) per_sector
  ok (
    lba_offset + bg_inode_table fs.group_descriptors group_no * fs.block_size % 2 ^ 64 / lba_size,
    index % per_sector,
  )

pub fetch_inode : Device → Ext2fs → ℕ → Outcome Fetched
fetch_inode d fs inode_no = if ltb fs.sb.total_inodes inode_no then ok (failed enoent) else (do
  (itable_lba, buffer_index) ← inode_place fs inode_no
  ok (elim (ext2_get_block d itable_lba 1) [
    | none ↦ failed eio
    | some buffer ↦ found (inode_at buffer (buffer_index * 128))
  ]))

-- `(size_t)-1` where the indirect block cannot be read; the number of a disk block otherwise
pub ext2_get_file_block : Device → Ext2fs → Inode → (index : ℕ) → Outcome ℕ
ext2_get_file_block d fs inode index =
    let ptrs_per_block = fs.block_size / 4 in
    let block_lba_size = fs.block_size / lba_size in
    if ltb index 12
    then ok (inode.i_block index)
    else (if ltb index (12 + ptrs_per_block)
        then elim (ext2_get_block d (inode.i_block 12 * block_lba_size) block_lba_size) [
          | none ↦ ok (2 ^ 64 - 1)
          | some block_buffer ↦ ok (get32 block_buffer (4 * (index - 12)))
        ]
        else panic)

-- `memcpy(buffer + to, block + from, n)`
unfoldable pub copy_bytes : (buffer : Bytes) (to : ℕ) (block : Bytes) (from n : ℕ) → Bytes
copy_bytes buffer to block from n i =
    if ltb i to then buffer i else (if ltb i (to + n) then block (i - to + from) else buffer i)

-- the number of bytes read, and the buffer; or the error
pub data ReadResult : Type 0 where
  done : ℕ → Bytes → ReadResult
  error : Errno → Bytes → ReadResult

abbrev pub buffer_of : ReadResult → Bytes
buffer_of (done n b) = b
buffer_of (error e b) = b

-- where in its block a read starts, and how much of the block it copies
abbrev pub bb_offset : (block_size offset bytes_read : ℕ) → ℕ
bb_offset block_size offset bytes_read = if bytes_read == 0 then offset % block_size else 0

abbrev pub cpy_size : (room bytes_read len : ℕ) → ℕ
cpy_size room bytes_read len =
    if ltb len (bytes_read + room) then room - (bytes_read + room - len) else room

-- `while (bytes_read < len)`: each round copies a byte or more, so `len` rounds are enough.
read_from : Device → Ext2fs → Inode → (fuel len offset bytes_read : ℕ) → Bytes → Outcome ReadResult
read_from d fs inode zero len offset bytes_read buffer =
    if ltb bytes_read len then spinning else ok (done bytes_read buffer)
read_from d fs inode (suc fuel) len offset bytes_read buffer = elim (ltb bytes_read len) [
  | false ↦ ok (done bytes_read buffer)
  | true ↦
      (ext2_get_file_block d fs inode ((offset + bytes_read) / fs.block_size) >>= λ block_no.
      elim (ext2_get_block d (block_no * fs.block_size % 2 ^ 64 / lba_size)
        (fs.block_size / lba_size)) [
          | none ↦ ok (error eio buffer)
          | some block ↦
              let from = bb_offset fs.block_size offset bytes_read in
              let n = cpy_size (fs.block_size - from) bytes_read len in
              read_from d fs inode fuel len offset (bytes_read + n)
                (copy_bytes buffer bytes_read block from n)
        ])
]

-- `len` cut off at the end of the file; beyond the end the difference wraps round.
unfoldable pub truncate : (length len offset : ℕ) → ℕ
truncate length len offset =
    if ltb length ((offset + len) % 2 ^ 64) then (length + 2 ^ 64 - offset) % 2 ^ 64 else len

pub ext2_read :
    Device → Ext2fs → Inode → (length : ℕ) → Bytes → (len offset : ℕ) → Outcome ReadResult
unfolding read_from
ext2_read d fs inode length buffer len offset =
    let n = truncate length len offset in read_from d fs inode n n offset 0 buffer

-- the bytes of a name: up to a NUL, at most `n`
pub name_at : Bytes → (i n : ℕ) → List ℕ
name_at b i zero = []
name_at b i (suc n) = let rest = name_at b (i + 1) n in if b i == 0 then [] else b i ∷ rest

pub record Dentry : Type 0 where
  pub name : List ℕ
  pub inode : ℕ

-- the record at `i`: its inode, its size, and its name
abbrev pub dentry_at : Bytes → ℕ → Dentry
unfolding name_at
dentry_at b i = record { name = name_at b (i + 8) (b (i + 6)); inode = get32 b i }

-- `while (index < length)`. A record of size 0 is met for ever.
list_from : Bytes → (fuel length index : ℕ) → List Dentry → Outcome (List Dentry)
unfolding name_at
list_from b zero length index files = if ltb index length then spinning else ok files
list_from b (suc fuel) length index files = elim (ltb index length) [
  | false ↦ ok files
  | true ↦
      list_from b fuel length (index + get16 b (index + 4))
        (if get32 b index == 0 then files else files ++ dentry_at b index ∷ [])
]

-- `buffer` is the memory that `kmalloc` returns; the result of the read is not looked at.
pub ext2_fetch_dir : Device → Ext2fs → Inode → (length : ℕ) (buffer : Bytes) → Outcome (List Dentry)
unfolding list_from
ext2_fetch_dir d fs inode length buffer =
    ext2_read d fs inode length buffer length 0 >>= λ r. list_from (buffer_of r) length length 0 []
