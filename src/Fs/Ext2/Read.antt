-- ===== src/Fs/Ext2/Read.antt =====
-- `ext2_read`: what is read is what the file holds.
use ulmeros.Common.{
  ℕ, zero, suc, ◌+◌, ◌-◌, ◌*◌, ◌/◌, ◌%◌, ◌^◌, ◌<◌, ◌≤◌, ◌≡◌, refl, true, false, none, some, ltb, ap,
  sym, ◌∙◌, arith, Bool-cases, ◌⊎◌, inl, inr, min,
}
use native.Mathlib.Nat.{mod-lt, div-lt_iff_lt-mul}
use native.Mathlib.Decide.{dec_lt}
use ulmeros.Common.Division.{same_block, next_block}
use ulmeros.Common.Outcome.{Outcome, ok}
use ulmeros.Fs.Ext2.{
  Bytes, Device, Ext2fs, Inode, ext2_get_block, ext2_get_file_block, copy_bytes, ReadResult, done,
  error, eio, bb_offset, cpy_size, read_from, truncate, ext2_read,
}
use ulmeros.Fs.Ext2.Blocks.{
  Reads, Sized, whole-Got, sector_start, file_block, OnDisk, get_file_block-file_block,
}

-- the byte of a file at a position
pub content : Bytes → (block_size : ℕ) → Inode → (pos : ℕ) → ℕ
content disk block_size inode pos =
    disk (file_block disk block_size inode (pos / block_size) * block_size + pos % block_size)

-- Between `from` and `to` the buffer holds the file from `offset` on, and elsewhere it is `old`.
pub record Holds (disk : Bytes) (block_size : ℕ) (inode : Inode) (offset from to : ℕ)
    (old buffer : Bytes) : Type 0 where
  pub filled : (i : ℕ) → from ≤ i → i < to → buffer i ≡ content disk block_size inode (offset + i)
  pub below : (i : ℕ) → i < from → buffer i ≡ old i
  pub above : (i : ℕ) → to ≤ i → buffer i ≡ old i

module _ (buffer : Bytes) (to : ℕ) (block : Bytes) (from n i : ℕ) where
  copied-in : to ≤ i → i < to + n → copy_bytes buffer to block from n i ≡ block (i - to + from)
  unfolding copy_bytes
  copied-in h k = ground arith

  copied-below : i < to → copy_bytes buffer to block from n i ≡ buffer i
  unfolding copy_bytes
  copied-below h = ground arith

  copied-above : to + n ≤ i → copy_bytes buffer to block from n i ≡ buffer i
  unfolding copy_bytes
  copied-above h = ground arith

module _ (d : Device) (disk : Bytes) (capacity : ℕ) (r : Reads d disk capacity) (fs : Ext2fs)
    (k : ℕ) (s : Sized fs k) (inode : Inode) (count : ℕ)
    (on : OnDisk disk capacity fs.block_size inode count) (len offset : ℕ)
    (fits : offset + len ≤ count * fs.block_size) where
  -- a round starts at the start of the read, or at the start of a block
  abbrev Aligned : ℕ → Type 0
  Aligned bytes_read =
      bytes_read < len
      → bb_offset fs.block_size offset bytes_read ≡ (offset + bytes_read) % fs.block_size

  positive : 0 < fs.block_size
  positive = omega (arith, s.sectors, s.some_sectors)

  index_in : (bytes_read : ℕ) → bytes_read < len → (offset + bytes_read) / fs.block_size < count
  index_in bytes_read h = (div-lt_iff_lt-mul positive).1 (omega arith)

  cut :
      (room bytes_read : ℕ)
      → 0 < room
      → bytes_read < len
      → (0 < cpy_size room bytes_read len)
        × (cpy_size room bytes_read len ≤ room)
        × (bytes_read + cpy_size room bytes_read len ≤ len)
        × ((cpy_size room bytes_read len ≡ room)
            ⊎ (bytes_read + cpy_size room bytes_read len ≡ len))
  cut room bytes_read h k = elim (Bool-cases (ltb len (bytes_read + room))) [
    | inl e ↦ rw e (ground arith, ground arith, ground arith, inr (ground arith))
    | inr e ↦ rw e (h, omega arith, ground arith, inl refl)
  ]

  content-in :
      (pos q m : ℕ)
      → pos / fs.block_size ≡ q
      → pos % fs.block_size ≡ m
      → content disk fs.block_size inode pos
        ≡ disk (file_block disk fs.block_size inode q * fs.block_size + m)
  unfolding content
  content-in pos q m e e' = rw (e, e')

  one_round :
      (fuel bytes_read : ℕ) (buffer : Bytes) (block_no : ℕ) (b : Bytes)
      → ltb bytes_read len ≡ true
      → ext2_get_file_block d fs inode ((offset + bytes_read) / fs.block_size) ≡ ok block_no
      → ext2_get_block d (block_no * fs.block_size % 2 ^ 64 / 512) (fs.block_size / 512) ≡ some b
      → read_from d fs inode (suc fuel) len offset bytes_read buffer
        ≡ read_from d fs inode fuel len offset
            (bytes_read
              + cpy_size (fs.block_size - bb_offset fs.block_size offset bytes_read) bytes_read len)
            (copy_bytes buffer bytes_read b
              (bb_offset fs.block_size offset bytes_read)
              (cpy_size (fs.block_size - bb_offset fs.block_size offset bytes_read) bytes_read len))
  unfolding read_from
  one_round fuel bytes_read buffer block_no b t number e =
      let from = bb_offset fs.block_size offset bytes_read in
      let n = cpy_size (fs.block_size - from) bytes_read len in
      rw (read_from, t, number)
        (ap
          (λ o. elim o as (λ x. Outcome ReadResult) [
            | none ↦ ok (error eio buffer)
            | some block ↦
                read_from d fs inode fuel len offset (bytes_read + n)
                  (copy_bytes buffer bytes_read block from n)
          ])
          e)

  -- what one round promises: `n` bytes more, and at least one
  record Round (bytes_read : ℕ) (buffer : Bytes) : Type 0 where
    n : ℕ
    buffer' : Bytes
    goes_on :
        (fuel : ℕ)
        → read_from d fs inode (suc fuel) len offset bytes_read buffer
          ≡ read_from d fs inode fuel len offset (bytes_read + n) buffer'
    progress : 0 < n
    within : bytes_read + n ≤ len
    aligned : Aligned (bytes_read + n)
    holds : Holds disk fs.block_size inode offset bytes_read (bytes_read + n) buffer buffer'

  round :
      (bytes_read : ℕ) (buffer : Bytes)
      → bytes_read < len
      → Aligned bytes_read
      → Round bytes_read buffer
  round bytes_read buffer more al =
      let bs = fs.block_size in
      let p = offset + bytes_read in
      let from = bb_offset bs offset bytes_read in
      let starts : from ≡ p % bs = al more in
      let in_block : p % bs < bs = mod-lt p positive in
      let index_ok = index_in bytes_read more in
      let number =
        get_file_block-file_block d disk capacity r fs k s inode count on (p / bs) index_ok in
      let fb = file_block disk bs inode (p / bs) in
      let inside = on.inside (p / bs) index_ok in
      let (b, e, c) =
        whole-Got d disk capacity r fs k s fb (fb * bs % 2 ^ 64 / 512)
          (sector_start d disk capacity r fs k s fb inside) inside in
      let n = cpy_size (bs - from) bytes_read len in
      let (progress, room, within, why) = cut (bs - from) bytes_read (omega arith) more in
      let t : ltb bytes_read len ≡ true = ground arith in
      record {
        n = n;
        buffer' = copy_bytes buffer bytes_read b from n;
        goes_on = λ fuel. one_round fuel bytes_read buffer fb b t number e;
        progress = progress;
        within = within;
        aligned = λ on_. elim why [
          | inl whole ↦
              let start : bb_offset bs offset (bytes_read + n) ≡ 0 = ground arith in
              start
              ∙ sym (ap (λ m. m % bs) (omega arith) ∙ next_block p n bs positive (omega arith))
          | inr end ↦ absurd (omega arith)
        ];
        holds = record {
          filled = λ i h k.
              let (quotient, remainder) = same_block p (i - bytes_read) bs positive (omega arith) in
              copied-in buffer bytes_read b from n i h k
              ∙ c (i - bytes_read + from) (omega arith)
              ∙ ap (λ m. disk (fb * bs + m)) (omega arith)
              ∙ sym (content-in (p + (i - bytes_read)) (p / bs) _ quotient remainder)
              ∙ ap (content disk bs inode) (omega arith);
          below = λ i h. copied-below buffer bytes_read b from n i h;
          above = λ i h. copied-above buffer bytes_read b from n i h;
        };
      }

  loop :
      (fuel bytes_read : ℕ) (buffer : Bytes)
      → Aligned bytes_read
      → bytes_read ≤ len
      → len ≤ bytes_read + fuel
      → (b : Bytes) × (read_from d fs inode fuel len offset bytes_read buffer ≡ ok (done len b))
        × Holds disk fs.block_size inode offset bytes_read len buffer b
  unfolding read_from
  loop zero bytes_read buffer al le enough =
      let same : bytes_read ≡ len = omega arith in
      let t : ltb bytes_read len ≡ false = ground arith in
      (
        buffer,
        rw (t, same),
        record { filled = λ i h k. absurd (omega arith); below = λ i h. refl; above = λ i h. refl },
      )
  loop (suc fuel) bytes_read buffer al le enough = elim (dec_lt bytes_read len) [
    | no stop ↦
        let same : bytes_read ≡ len = omega arith in
        let t : ltb bytes_read len ≡ false = ground arith in
        (
          buffer,
          rw (read_from, t, same),
          record {
            filled = λ i h k. absurd (omega arith);
            below = λ i h. refl;
            above = λ i h. refl;
          },
        )
    | yes more ↦
        let o = round bytes_read buffer more al in
        let progress = o.progress in
        let (b, e, h) = loop fuel (bytes_read + o.n) o.buffer' o.aligned o.within (omega arith) in
        (
          b,
          o.goes_on fuel ∙ e,
          record {
            filled = λ i u v. elim (dec_lt i (bytes_read + o.n)) [
              | yes w ↦ h.below i w ∙ o.holds.filled i u w
              | no w ↦ h.filled i (omega arith) v
            ];
            below = λ i u. h.below i (omega arith) ∙ o.holds.below i u;
            above = λ i u. h.above i u ∙ o.holds.above i (omega (arith, o.within));
          },
        )
  ]

cut_off :
    (length len offset : ℕ)
    → offset ≤ length
    → length < 2 ^ 63
    → len < 2 ^ 63
    → truncate length len offset ≡ min len (length - offset)
unfolding truncate
cut_off length len offset h k l = ground arith

module _ (d : Device) (disk : Bytes) (capacity : ℕ) (r : Reads d disk capacity) (fs : Ext2fs)
    (k : ℕ) (s : Sized fs k) (inode : Inode) (length count : ℕ)
    (on : OnDisk disk capacity fs.block_size inode count) (fits : length ≤ count * fs.block_size)
    (small : length < 2 ^ 63) where
  -- In a file of less than 2 ^ 63 bytes, whose blocks are on the disk and need at most one indirect block,
  -- `ext2_read` of less than 2 ^ 63 bytes at an offset up to the end ends, returns
  -- the smaller of the length asked for and the length left, and leaves in that many bytes of the
  -- buffer what the file holds from the offset on; no other byte of the buffer has changed.
  pub ext2_read-content :
      (buffer : Bytes) (len offset : ℕ)
      → offset ≤ length
      → len < 2 ^ 63
      → (b : Bytes) × (ext2_read d fs inode length buffer len offset
          ≡ ok (done (min len (length - offset)) b))
        × Holds disk fs.block_size inode offset 0 (min len (length - offset)) buffer b
  unfolding ext2_read
  ext2_read-content buffer len offset inside short =
      let n = min len (length - offset) in
      let (b, e, h) =
        loop d disk capacity r fs k s inode count on n offset (omega arith) n 0 buffer
          (λ more. ap (λ m. m % fs.block_size) (omega arith)) (omega arith) (omega arith) in
      (
        b,
        ap (λ m. read_from d fs inode m m offset 0 buffer)
              (cut_off length len offset inside (omega arith) short)
            ∙ e,
        h,
      )
