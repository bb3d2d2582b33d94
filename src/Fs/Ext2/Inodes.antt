-- ===== src/Fs/Ext2/Inodes.antt =====
-- Where the driver finds an inode and the tables of the file system: `fetch_inode`, `ext2_probe`.
use ulmeros.Common.{
  ℕ, zero, suc, ◌+◌, ◌-◌, ◌*◌, ◌/◌, ◌%◌, ◌^◌, ◌<◌, ◌≤◌, ◌≡◌, refl, true, false, none, some, ltb,
  leb, ◌==◌, if◌then◌else◌, ap, sym, ◌∙◌, arith, subst, Bool-cases, inl, inr,
}
use native.Mathlib.Nat.{mul_assoc, mul-add-mod_self_right, div-add-mod', mod-lt, two-pow-succ}
use ulmeros.Common.Outcome.{ok}
use ulmeros.Fs.Ext2.{
  Bytes, Device, get32, Superblock, superblock_at, Ext2fs, Inode, inode_at, bg_inode_table, divide,
  index_of, inode_size_of, inode_place, ext2_get_block, Fetched, found, failed, eio, fetch_inode,
  block_size_shift, ext2_probe, probe_superblock, ext2_signature, gdt_lba_of, round_up,
  block_size_of,
}
use ulmeros.Fs.Ext2.Blocks.{Reads, Sized, get_block-Got, block_start, same_word}

divide-ok : (a b : ℕ) → 0 < b → divide a b ≡ ok (a / b)
unfolding divide
divide-ok a zero h = absurd (omega arith)
divide-ok a (suc b) h = refl

index_of_lem : (n : ℕ) → 0 < n → n < 2 ^ 64 → index_of n ≡ n - 1
unfolding index_of
index_of_lem n h k = omega arith

-- two inodes with the same mode, size and fifteen block numbers
pub record Alike (n m : Inode) : Type 0 where
  pub i_mode : n.i_mode ≡ m.i_mode
  pub i_size : n.i_size ≡ m.i_size
  pub i_block : (j : ℕ) → j < 15 → n.i_block j ≡ m.i_block j

-- An inode in a buffer that holds a part of the disk.
inode-Alike :
    (b disk : Bytes) (start i : ℕ)
    → i + 128 ≤ 512
    → ((j : ℕ) → j < 512 → b j ≡ disk (start + j))
    → Alike (inode_at b i) (inode_at disk (start + i))
unfolding inode_at
inode-Alike b disk start i h c =
    let q = c i (omega arith) in
    let q₁ : b (i + 1) ≡ disk (start + i + 1) = c (i + 1) (omega arith) ∙ ap disk (omega arith) in
    record {
      i_mode = rw (q, q₁);
      i_size = same_word b disk start (i + 4) 512 (omega arith) c ∙ ap (get32 disk) (omega arith);
      i_block = λ j k.
          same_word b disk start (i + 40 + 4 * j) 512 (omega arith) c
          ∙ ap (get32 disk) (omega arith);
    }

module _ (d : Device) (disk : Bytes) (capacity : ℕ) (r : Reads d disk capacity) (fs : Ext2fs)
    (k : ℕ) (s : Sized fs k) (m inode_no : ℕ) (classic : inode_size_of fs.sb ≡ 128)
    (m_positive : 0 < m) (whole_sectors : fs.sb.inodes_per_group ≡ m * 4) (positive : 0 < inode_no)
    (known : inode_no ≤ fs.sb.total_inodes) (small : fs.sb.total_inodes < 2 ^ 32) where
  abbrev group_of : ℕ
  group_of = (inode_no - 1) / fs.sb.inodes_per_group

  abbrev slot_of : ℕ
  slot_of = (inode_no - 1) % fs.sb.inodes_per_group

  abbrev table : ℕ
  table = bg_inode_table fs.group_descriptors group_of

  module _ (inside : table * fs.block_size + (slot_of + 4) * 128 ≤ capacity) where
    place : inode_place fs inode_no ≡ ok (table * k + slot_of / 4, slot_of % 4)
    unfolding inode_place
    place =
        let x = inode_no - 1 in
        let e₁ = index_of_lem inode_no positive (omega arith) in
        let e₂ = divide-ok x fs.sb.inodes_per_group (omega arith) in
        let e₃ : divide 512 (inode_size_of fs.sb) ≡ ok 4 =
          ap (divide 512) classic ∙ divide-ok 512 128 (omega arith) in
        let e₄ = divide-ok slot_of 4 (omega arith) in
        let start = block_start d disk capacity r fs k s table in
        let e₅ : slot_of / 4 + table * fs.block_size % 2 ^ 64 / 512 ≡ table * k + slot_of / 4 =
          omega (arith, r.small) in
        let e₆ : x % 4 ≡ slot_of % 4 =
          ap (λ t. t % 4)
            (sym (div-add-mod' x fs.sb.inodes_per_group)
              ∙ ap (λ t. t + slot_of)
                  (ap (λ g. group_of * g) whole_sectors ∙ sym (mul_assoc group_of m 4)))
          ∙ mul-add-mod_self_right (group_of * m) 4 slot_of in
        rw (e₁, e₂, e₃, e₄, e₅, e₆)

    -- In a file system with inodes of 128 bytes, whole sectors of which make up a group's table,
    -- `fetch_inode` reads an inode that exists, and whose
    -- sector is on the disk, from its slot in the table of its group.
    pub fetch_inode-slot :
        (n : Inode) × (fetch_inode d fs inode_no ≡ ok (found n))
        × Alike n (inode_at disk (table * fs.block_size + slot_of * 128))
    unfolding fetch_inode
    fetch_inode-slot =
        let (b, e, c) =
          get_block-Got d disk capacity r (table * k + slot_of / 4) 1
            (omega (arith, block_start d disk capacity r fs k s table)) in
        let exists : ltb fs.sb.total_inodes inode_no ≡ false = ground arith in
        let at : (table * k + slot_of / 4) * 512 + slot_of % 4 * 128
            ≡ table * fs.block_size + slot_of * 128 =
          let start = block_start d disk capacity r fs k s table in omega arith in
        (
          inode_at b (slot_of % 4 * 128),
          rw (exists, place)
              (ap
                (λ o. ok (elim o as (λ x. Fetched) [
                  | none ↦ failed eio
                  | some buffer ↦ found (inode_at buffer (slot_of % 4 * 128))
                ]))
                e),
          subst (λ p. Alike (inode_at b (slot_of % 4 * 128)) (inode_at disk p)) at
              (inode-Alike b disk ((table * k + slot_of / 4) * 512) (slot_of % 4 * 128)
                (omega arith) c),
        )

round_up_enough : (a b : ℕ) → 0 < b → (a ≤ round_up a b * b) × (round_up a b * b < a + b)
round_up_enough a b h = elim (Bool-cases (a % b == 0)) [
  | inl e ↦
      let exact : a % b ≡ 0 = ground arith in
      let parts = div-add-mod' a b in rw e (omega arith, omega arith)
  | inr e ↦
      let rest : 0 < a % b = ground arith in
      let below = mod-lt a h in let parts = div-add-mod' a b in rw e (omega arith, omega arith)
]

two_pow_positive : (n : ℕ) → 0 < 2 ^ n
two_pow_positive zero = omega arith
two_pow_positive (suc n) = omega (arith, two_pow_positive n, two-pow-succ n)

-- the superblock of a disk, a kilobyte from its start
abbrev pub superblock_of : Bytes → Superblock
superblock_of disk = superblock_at (λ i. disk (1024 + i))

-- where the group descriptors start, in bytes: the block after the superblock's
abbrev pub gdt_start : (block_size : ℕ) → ℕ
gdt_start block_size = if block_size == 1024 then 2048 else block_size

-- What `ext2_probe` promises of a file system: its block size, the number of its block groups, which
-- cover all blocks and no more, and their descriptors.
pub record Probed (disk : Bytes) (fs : Ext2fs) : Type 0 where
  pub sb : fs.sb ≡ superblock_of disk
  pub sized : Sized fs (2 * 2 ^ (superblock_of disk).block_size_log)
  pub enough :
      (superblock_of disk).total_blocks ≤ fs.gd_count * (superblock_of disk).blocks_per_group
  pub no_more :
      fs.gd_count * (superblock_of disk).blocks_per_group
      < (superblock_of disk).total_blocks + (superblock_of disk).blocks_per_group
  pub descriptors :
      (i : ℕ) → i < fs.gd_count * 32 → fs.group_descriptors i ≡ disk (gdt_start fs.block_size + i)

module _ (b disk : Bytes) (c : (j : ℕ) → j < 1024 → b j ≡ disk (1024 + j)) where
  word-at : (i : ℕ) → i + 3 < 1024 → get32 b i ≡ get32 (λ j. disk (1024 + j)) i
  word-at i h =
      same_word b (λ j. disk (1024 + j)) 0 i 1024 h
        (λ j k. c j k ∙ ap (λ t. disk (1024 + t)) (omega arith))
      ∙ ap (get32 (λ j. disk (1024 + j))) (omega arith)

  same_superblock : superblock_at b ≡ superblock_of disk
  unfolding superblock_at
  same_superblock = rw (
    word-at 0 (omega arith),
    word-at 4 (omega arith),
    word-at 24 (omega arith),
    word-at 32 (omega arith),
    word-at 40 (omega arith),
    word-at 76 (omega arith),
    c 56 (omega arith),
    c 57 (omega arith),
    c 88 (omega arith),
    c 89 (omega arith),
  )

gdt_at :
    (block_size k : ℕ) → block_size ≡ k * 512 → gdt_lba_of block_size * 512 ≡ gdt_start block_size
unfolding gdt_lba_of
gdt_at block_size k e = elim (Bool-cases (block_size == 1024)) [
  | inl small ↦ let is : block_size ≡ 1024 = ground arith in rw small (omega arith)
  | inr large ↦ rw large (omega arith)
]

in_sectors : (n : ℕ) → n ≤ round_up n 512 * 512
in_sectors n = (round_up_enough n 512 (omega arith)).0

leb-lt : (a b : ℕ) → b < a → leb a b ≡ false
leb-lt a b h = ground arith

module _ (d : Device) (disk : Bytes) (capacity : ℕ) (r : Reads d disk capacity)
    (signed : (superblock_of disk).signature ≡ ext2_signature)
    (shifts : (superblock_of disk).block_size_log < 21)
    (grouped : 0 < (superblock_of disk).blocks_per_group)
    (inside : gdt_start (block_size_of (superblock_of disk))
        + round_up
            (round_up (superblock_of disk).total_blocks (superblock_of disk).blocks_per_group * 32)
            512
          * 512
      ≤ capacity)
    (room : 2048 ≤ capacity) where
  on_superblock :
      (gdt : Bytes)
      → ext2_get_block d (gdt_lba_of (block_size_of (superblock_of disk))) (
          round_up
            (round_up (superblock_of disk).total_blocks (superblock_of disk).blocks_per_group * 32)
            512)
        ≡ some gdt
      → ((superblock_of disk).signature == ext2_signature) ≡ true
      → probe_superblock d (superblock_of disk)
        ≡ ok (
            some (record {
              sb = superblock_of disk;
              block_size = block_size_of (superblock_of disk);
              gd_count =
                  round_up (superblock_of disk).total_blocks (superblock_of disk).blocks_per_group;
              group_descriptors = gdt;
            }))
  unfolding probe_superblock block_size_shift
  on_superblock gdt e t = rw (
    t,
    leb-lt 21 (superblock_of disk).block_size_log shifts,
    divide-ok (superblock_of disk).total_blocks (superblock_of disk).blocks_per_group grouped,
    e,
  )

  -- On a disk with the signature of an ext2 file system and a positive number of blocks in a group, the
  -- logarithm of whose block size is below 21 and whose group descriptors lie on it, `ext2_probe` succeeds: the block size is that
  -- of the superblock, the groups cover all blocks and no group more is counted, and the group
  -- descriptors are those of the disk, after the superblock's block.
  pub ext2_probe-Probed : (fs : Ext2fs) × (ext2_probe d ≡ ok (some fs)) × Probed disk fs
  unfolding ext2_probe
  ext2_probe-Probed =
      let sb = superblock_of disk in
      let b = (d.vfs_read_at 1024 1024).1 in
      let same : superblock_at b ≡ sb =
        same_superblock b disk (λ j h. r.contents 2 2 j (omega arith) h) in
      let whole : leb (2 ^ 63) (d.vfs_read_at 1024 1024).0 ≡ false =
        (let full = r.no_error 2 2 (omega arith) in ground arith) in
      let bs = block_size_of sb in
      let start : gdt_lba_of bs * 512 ≡ gdt_start bs =
        gdt_at bs (2 * 2 ^ sb.block_size_log) (omega arith) in
      let count = round_up sb.total_blocks sb.blocks_per_group in
      let (gdt, e, c) =
        get_block-Got d disk capacity r (gdt_lba_of bs) (round_up (count * 32) 512)
          (omega (arith, inside)) in
      let is_ext2 : (sb.signature == ext2_signature) ≡ true = ground (arith, signed) in
      let (enough, no_more) = round_up_enough sb.total_blocks sb.blocks_per_group grouped in
      (
        record { sb = sb; block_size = bs; gd_count = count; group_descriptors = gdt },
        rw whole (ap (probe_superblock d) same ∙ on_superblock gdt e is_ext2),
        record {
          sb = refl;
          sized = record {
            sectors = omega arith;
            some_sectors = omega (arith, two_pow_positive sb.block_size_log);
          };
          enough = enough;
          no_more = no_more;
          descriptors =
              λ i h. c i (omega (arith, in_sectors (count * 32))) ∙ ap (λ m. disk (m + i)) start;
        },
      )
