-- ===== src/Drivers/Ata/Transfers.antt =====
-- `ata_read`: the blocks that are asked for reach the buffer.
use ulmeros.Common.{
  ℕ, zero, suc, ◌+◌, ◌-◌, ◌*◌, ◌/◌, ◌%◌, ◌^◌, ◌≤◌, ◌<◌, ◌≡◌, refl, ap, ◌∙◌, Bool, true, false, ◌&&◌,
  some, [], ◌∷◌, ltb, leb, ◌==◌, if◌then◌else◌, arith, Bool-cases, inl, inr, bool_clash,
}
use native.Mathlib.Decide.{dec_lt}
use ulmeros.Common.Outcome.{Outcome, ok}
use ulmeros.Drivers.Ata.{
  Bytes, file, bus, PortWrites, Channel, Command, Hardware, Controller, read_writes, read_command,
  failed, copy_at, smaller, read_blocks, channel_of, ata_read, blocks_per_prd,
}

-- A register of the disk keeps the value before the last one, too.
pub latch : (register : ℕ) → PortWrites → (previous current : ℕ) → ℕ × ℕ
latch register [] previous current = (previous, current)
latch register (bus r value ∷ writes) previous current = latch register writes previous current
latch register (file r value ∷ writes) previous current =
    latch register writes (if r == register then current else previous)
      (if r == register then value else current)

-- The values that the disk reads out of the writes: previous values are the higher bytes.
pub lba_of : PortWrites → ℕ
lba_of writes =
    let (p₀, c₀) = latch 3 writes 0 0 in
    let (p₁, c₁) = latch 4 writes 0 0 in
    let (p₂, c₂) = latch 5 writes 0 0 in
    c₀ + 2 ^ 8 * c₁ + 2 ^ 16 * c₂ + 2 ^ 24 * p₀ + 2 ^ 32 * p₁ + 2 ^ 40 * p₂

pub count_of : PortWrites → ℕ
count_of writes = let (p, c) = latch 2 writes 0 0 in c + 2 ^ 8 * p

pub drive_of : PortWrites → ℕ
drive_of writes = (latch 6 writes 0 0).1 / 16 % 2

-- the bit of the device register that says that the block number is one
pub lba_mode : PortWrites → ℕ
lba_mode writes = (latch 6 writes 0 0).1 / 64 % 2

-- The bus master is stopped behind the transfer.
pub is_stopped : PortWrites → Bool
is_stopped [] = false
is_stopped (file r value ∷ writes) = false
is_stopped (bus r value ∷ writes) = (r == 0) && (value % 2 == 0)

-- The last write to the disk is the command READ DMA EXT, then the bus master is started towards memory,
-- and then stopped.
pub transfers : (issued : Bool) → PortWrites → Bool
transfers issued [] = false
transfers issued (file r value ∷ writes) = transfers ((r == 7) && (value == 0x25)) writes
transfers issued (bus r value ∷ writes) =
    let later = transfers issued writes in
    if issued && (r == 0) && (value == 0x09) then is_stopped writes else later

bytes_of_lba :
    (n : ℕ)
    → n < 2 ^ 48
    → n % 256
        + 2 ^ 8 * (n / 2 ^ 8 % 256)
        + 2 ^ 16 * (n / 2 ^ 16 % 256)
        + 2 ^ 24 * (n / 2 ^ 24 % 256)
        + 2 ^ 32 * (n / 2 ^ 32 % 256)
        + 2 ^ 40 * (n / 2 ^ 40 % 256)
      ≡ n
bytes_of_lba n h = omega arith

module _ (stat drive tr_size lba : ℕ) where
  lba_of-read : lba < 2 ^ 48 → lba_of (read_writes stat drive tr_size lba) ≡ lba
  unfolding read_writes latch lba_of
  lba_of-read h = bytes_of_lba lba h

  count_of-read : tr_size < 2 ^ 16 → count_of (read_writes stat drive tr_size lba) ≡ tr_size
  unfolding read_writes latch count_of
  count_of-read h = omega arith

  drive_of-read : drive < 2 → drive_of (read_writes stat drive tr_size lba) ≡ drive
  unfolding read_writes latch drive_of
  drive_of-read h = omega arith

  transfers-read : transfers false (read_writes stat drive tr_size lba) ≡ true
  unfolding read_writes transfers is_stopped
  transfers-read = refl

  lba_mode-read : drive < 2 → lba_mode (read_writes stat drive tr_size lba) ≡ 1
  unfolding read_writes latch lba_mode
  lba_mode-read h = omega arith

-- The disks at a channel answer as documented: where the disk is given READ DMA EXT for a block number, the
-- bus master is started behind it and stopped in the end, and the command did not fail, the bytes of the
-- blocks that the registers name are in the buffer, as far as the region descriptor is long.
abbrev pub Serves : Hardware → (disk : Channel → (drive : ℕ) → Bytes) → Type 0
Serves hw disk =
    (c : Command) (i : ℕ)
    → transfers false c.writes ≡ true
    → lba_mode c.writes ≡ 1
    → failed (hw.answer c).0 ≡ false
    → i < count_of c.writes * 512
    → i < c.prd_bytes
    → (hw.answer c).1 i ≡ disk c.channel (drive_of c.writes) (lba_of c.writes * 512 + i)

-- `n` blocks were read: they stand in the buffer, and the rest of it is as before.
abbrev pub Filled : (disk : Bytes) → (from : ℕ) → (n lba : ℕ) → (old new : Bytes) → Type 0
Filled disk from n lba old new =
    (i : ℕ)
    → new i ≡ (
        if leb (from * 512) i && ltb i (n * 512)
        then disk (lba * 512 + (i - from * 512))
        else old i)

-- the number of blocks read and the buffer: fewer than asked for only after a command failed
abbrev pub Reads :
    (disk : Bytes) → Hardware → (from count lba : ℕ) → Bytes → Outcome (ℕ × Bytes) → Type 0
Reads disk hw from count lba buf out =
    (n : ℕ) × (new : Bytes) × (out ≡ ok (n, new))
    × (from ≤ n)
    × (n ≤ from + count)
    × Filled disk from n lba buf new
    × (((c : Command) → failed (hw.answer c).0 ≡ false) → n ≡ from + count)

step-Filled :
    (disk reply old new : Bytes) (from t n lba : ℕ)
    → from + t ≤ n
    → ((k : ℕ) → k < t * 512 → reply k ≡ disk (lba * 512 + k))
    → Filled disk (from + t) n (lba + t) (copy_at (from * 512) (t * 512) reply old) new
    → Filled disk from n lba old new
unfolding copy_at
step-Filled disk reply old new from t n lba le same rest i = elim (dec_lt i (from * 512)) [
  | yes before ↦ ground (arith, rest i)
  | no at ↦ elim (dec_lt i ((from + t) * 512)) [
    | yes now ↦ let copied = same (i - from * 512) (omega arith) in ground (arith, rest i, copied)
    | no later ↦
        let place : (lba + t) * 512 + (i - (from + t) * 512) ≡ lba * 512 + (i - from * 512) =
          omega arith in
        ground (arith, rest i, ap disk place)
  ]
]

module _ (hw : Hardware) (disk : Channel → (drive : ℕ) → Bytes) (serves : Serves hw disk)
    (channel : Channel) (drive : ℕ) (d : drive < 2) where
  reply_right :
      (stat t lba k : ℕ)
      → t ≤ blocks_per_prd
      → lba < 2 ^ 48
      → failed (hw.answer (read_command channel stat drive t lba)).0 ≡ false
      → k < t * 512
      → (hw.answer (read_command channel stat drive t lba)).1 k ≡ disk channel drive (lba * 512 + k)
  unfolding read_command
  reply_right stat t lba k small l fine h =
      let c = read_command channel stat drive t lba in
      let n = count_of-read stat drive t lba (omega arith) in
      serves c k (transfers-read stat drive t lba) (lba_mode-read stat drive t lba d) fine
        (omega (arith, n)) (omega arith)
      ∙ ap (λ v. disk channel v (lba_of c.writes * 512 + k)) (drive_of-read stat drive t lba d)
      ∙ ap (λ a. disk channel drive (a * 512 + k)) (lba_of-read stat drive t lba l)

  read_blocks-Reads :
      (fuel count lba from : ℕ) (buf : Bytes)
      → count < fuel
      → lba + count ≤ 2 ^ 48
      → Reads
          (disk channel drive)
          hw
          from
          count
          lba
          buf
          (read_blocks hw channel drive fuel count lba from buf)
  unfolding read_blocks
  read_blocks-Reads zero count lba from buf f h = absurd (omega arith)
  read_blocks-Reads (suc fuel) count lba from buf f h = elim (Bool-cases (count == 0)) [
    | inl done ↦
        rw done
          (from, buf, refl, omega arith, omega arith, (λ i. ground arith), λ fine. ground arith)
    | inr more ↦
        let t = smaller count in
        let stat = hw.dma_stat from in
        let c = read_command channel stat drive t lba in
        let t_fits : (0 < t) × (t ≤ count) × (t ≤ blocks_per_prd) = ground arith in
        elim (Bool-cases (failed (hw.answer c).0)) [
          | inl bad ↦
              rw (more, bad)
                (
                  from,
                  buf,
                  refl,
                  omega arith,
                  omega arith,
                  (λ i. ground arith),
                  λ fine. absurd (bool_clash bad (fine c)),
                )
          | inr good ↦
              let wrap : (lba + t) % 2 ^ 64 ≡ lba + t = omega arith in
              let (n, new, e, lo, hi, fill, all) =
                read_blocks-Reads fuel (count - t) (lba + t) (from + t)
                  (copy_at (from * 512) (t * 512) (hw.answer c).1 buf) (omega arith)
                  (omega arith) in
              rw (more, good, wrap, e)
                (
                  n,
                  new,
                  refl,
                  omega arith,
                  omega arith,
                  step-Filled (disk channel drive) (hw.answer c).1 buf new from t n lba lo
                      (λ k b. reply_right stat t lba k t_fits.2 (omega arith) good b) fill,
                  λ fine. omega (arith, all fine),
                )
        ]
  ]

-- the disk that a minor number stands for
abbrev pub disk_of : (disk : Channel → (drive : ℕ) → Bytes) → Controller → (minor : ℕ) → Bytes
disk_of disk c minor = disk (channel_of c minor) (minor % 2)

-- Where the disks at the controller answer as documented and the blocks asked for lie below 2^48,
-- `ata_read` returns; the blocks that it reports stand in the buffer in order, each as the disk of that
-- minor number has it, the rest of the buffer is unchanged, and all blocks asked for are reported
-- unless a command failed.
pub ata_read-Reads :
    (hw : Hardware) (disk : Channel → (drive : ℕ) → Bytes) (c : Controller) (minor count lba : ℕ)
    (buf : Bytes)
    → Serves hw disk
    → lba + count ≤ 2 ^ 48
    → Reads (disk_of disk c minor) hw 0 count lba buf (ata_read hw (some c) minor count lba buf)
unfolding ata_read
ata_read-Reads hw disk c minor count lba buf serves h =
    read_blocks-Reads hw disk serves (channel_of c minor) (minor % 2) (omega arith) (count + 1)
      count lba 0 buf (omega arith) h
