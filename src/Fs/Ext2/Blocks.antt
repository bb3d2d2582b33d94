-- ===== src/Fs/Ext2/Blocks.antt =====
-- Blocks of the disk, and the blocks of a file: `ext2_get_block` and `ext2_get_file_block`.
use ulmeros.Common.{
  ℕ, ◌+◌, ◌-◌, ◌*◌, ◌/◌, ◌%◌, ◌^◌, ◌<◌, ◌≤◌, ◌≡◌, true, false, Option, some, ltb, if◌then◌else◌, ap,
  sym, ◌∙◌, arith, subst, Bool-cases, inl, inr,
}
use native.Mathlib.Nat.{mul_assoc}
use ulmeros.Common.Outcome.{ok}
use ulmeros.Fs.Ext2.{
  Bytes, Device, lba_size, get32, Ext2fs, Inode, ext2_get_block, ext2_get_file_block,
}

-- The descriptor is that of a disk of `capacity` bytes, which are `disk`: a read of whole disk blocks
-- inside it fills the buffer, and returns no error and no less than was asked for.
pub record Reads (d : Device) (disk : Bytes) (capacity : ℕ) : Type 0 where
  pub complete :
      (lba count : ℕ)
      → lba * 512 + count * 512 ≤ capacity
      → count * 512 ≤ (d.vfs_read_at (lba * 512) (count * 512)).0
  pub no_error :
      (lba count : ℕ)
      → lba * 512 + count * 512 ≤ capacity
      → (d.vfs_read_at (lba * 512) (count * 512)).0 < 2 ^ 63
  pub contents :
      (lba count i : ℕ)
      → lba * 512 + count * 512 ≤ capacity
      → i < count * 512
      → (d.vfs_read_at (lba * 512) (count * 512)).1 i ≡ disk (lba * 512 + i)
  pub small : capacity < 2 ^ 64

-- A block is `k` disk blocks.
pub record Sized (fs : Ext2fs) (k : ℕ) : Type 0 where
  pub sectors : fs.block_size ≡ k * 512
  pub some_sectors : 0 < k

-- what `ext2_get_block` gives inside the disk
abbrev pub Got : Option Bytes → Bytes → (start len : ℕ) → Type 0
Got o disk start len = (b : Bytes) × (o ≡ some b) × ((i : ℕ) → i < len → b i ≡ disk (start + i))

module _ (d : Device) (disk : Bytes) (capacity : ℕ) (r : Reads d disk capacity) where
  pub get_block-Got :
      (lba count : ℕ)
      → lba * 512 + count * 512 ≤ capacity
      → Got (ext2_get_block d lba count) disk (lba * 512) (count * 512)
  unfolding ext2_get_block
  get_block-Got lba count h =
      let same : lba * 512 % 2 ^ 64 ≡ lba * 512 = omega (arith, r.small) in
      let full : ltb (d.vfs_read_at (lba * 512 % 2 ^ 64) (count * 512)).0 (count * 512) ≡ false =
        (let e : count * 512 ≤ (d.vfs_read_at (lba * 512 % 2 ^ 64) (count * 512)).0 =
            subst (λ o. count * 512 ≤ (d.vfs_read_at o (count * 512)).0) (sym same)
              (r.complete lba count h) in
          ground arith) in
      (
        (d.vfs_read_at (lba * 512 % 2 ^ 64) (count * 512)).1,
        rw full,
        λ i below.
            ap (λ o. (d.vfs_read_at o (count * 512)).1 i) same ∙ r.contents lba count i h below,
      )

  module _ (fs : Ext2fs) (k : ℕ) (s : Sized fs k) where
    pub sectors_of : fs.block_size / 512 ≡ k
    sectors_of = omega (arith, s.sectors)

    -- the place of a block, in disk blocks and in bytes
    pub block_start : (block_no : ℕ) → block_no * fs.block_size ≡ block_no * k * 512
    block_start block_no = ap (λ b. block_no * b) s.sectors ∙ sym (mul_assoc block_no k 512)

    pub sector_start :
        (block_no : ℕ)
        → (block_no + 1) * fs.block_size ≤ capacity
        → block_no * fs.block_size % 2 ^ 64 / 512 ≡ block_no * k
    sector_start block_no h = let start = block_start block_no in omega (arith, r.small)

    block_end :
        (block_no : ℕ)
        → (block_no + 1) * fs.block_size ≤ capacity
        → block_no * k * 512 + k * 512 ≤ capacity
    block_end block_no h = let start = block_start block_no in let size = s.sectors in omega arith

    -- a whole block, read where the code reads it
    pub whole-Got :
        (block_no lba : ℕ)
        → lba ≡ block_no * k
        → (block_no + 1) * fs.block_size ≤ capacity
        → Got
            (ext2_get_block d lba (fs.block_size / lba_size))
            disk
            (block_no * fs.block_size)
            fs.block_size
    whole-Got block_no lba at h =
        let (b, e, c) = get_block-Got (block_no * k) k (block_end block_no h) in
        (
          b,
          ap (λ l. ext2_get_block d l (fs.block_size / 512)) at
              ∙ ap (ext2_get_block d (block_no * k)) sectors_of
              ∙ e,
          λ i below.
              c i (subst (λ n. i < n) s.sectors below)
              ∙ ap (λ m. disk (m + i)) (sym (block_start block_no)),
        )

-- the number of the block that holds block `index` of a file, in the inode or in its indirect block
unfoldable pub file_block : Bytes → (block_size : ℕ) → Inode → (index : ℕ) → ℕ
file_block disk block_size inode index =
    if ltb index 12
    then inode.i_block index
    else get32 disk (inode.i_block 12 * block_size + 4 * (index - 12))

-- The first `count` blocks of the file are inside the disk, and need no more than one indirect
-- block, which is inside the disk.
pub record OnDisk (disk : Bytes) (capacity block_size : ℕ) (inode : Inode) (count : ℕ)
    : Type 0 where
  pub direct_or_single : count ≤ 12 + block_size / 4
  pub indirect : 12 < count → (inode.i_block 12 + 1) * block_size ≤ capacity
  pub inside :
      (index : ℕ)
      → index < count
      → (file_block disk block_size inode index + 1) * block_size ≤ capacity

pub same_word :
    (b disk : Bytes) (start i n : ℕ)
    → i + 3 < n
    → ((j : ℕ) → j < n → b j ≡ disk (start + j))
    → get32 b i ≡ get32 disk (start + i)
unfolding get32
same_word b disk start i n h c =
    let q = c i (omega arith) in
    let q₁ : b (i + 1) ≡ disk (start + i + 1) = c (i + 1) (omega arith) ∙ ap disk (omega arith) in
    let q₂ : b (i + 2) ≡ disk (start + i + 2) = c (i + 2) (omega arith) ∙ ap disk (omega arith) in
    let q₃ : b (i + 2 + 1) ≡ disk (start + i + 2 + 1) =
      c (i + 2 + 1) (omega arith) ∙ ap disk (omega arith) in
    rw (q, q₁, q₂, q₃)

module _ (d : Device) (disk : Bytes) (capacity : ℕ) (r : Reads d disk capacity) (fs : Ext2fs)
    (k : ℕ) (s : Sized fs k) (inode : Inode) (count : ℕ)
    (on : OnDisk disk capacity fs.block_size inode count) where
  pub get_file_block-file_block :
      (index : ℕ)
      → index < count
      → ext2_get_file_block d fs inode index ≡ ok (file_block disk fs.block_size inode index)
  unfolding ext2_get_file_block file_block
  get_file_block-file_block index h = elim (Bool-cases (ltb index 12)) [
    | inl direct ↦ rw direct
    | inr beyond ↦
        let limit = on.direct_or_single in
        let single : ltb index (12 + fs.block_size / 4) ≡ true = ground arith in
        let past : 12 ≤ index = ground arith in
        let (b, e, c) =
          whole-Got d disk capacity r fs k s (inode.i_block 12)
            (inode.i_block 12 * (fs.block_size / 512))
            (ap (λ m. inode.i_block 12 * m) (sectors_of d disk capacity r fs k s))
            (on.indirect (omega arith)) in
        rw (beyond, single, e) (ap ok (same_word b disk _ _ fs.block_size (omega arith) c))
  ]
