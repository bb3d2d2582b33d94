-- ===== src/Drivers/Ata.antt =====
-- kernel/drivers/pc/ata.c: hard disks at an IDE controller. What the program writes to a
-- channel's ports is a list of registers and values in order. A disk's answer to a command is a parameter: the status that it reports and
-- what it puts in the DMA buffer. The disk is taken to become ready and to send its interrupt, so the
-- loops that poll it and the wait for it end. `transfer_lock` is held round the body of `ata_read`.
pub mod Transfers
pub mod Slots
use ulmeros.Common.{
  ℕ, zero, suc, ◌+◌, ◌-◌, ◌*◌, ◌/◌, ◌%◌, ◌^◌, Bool, true, false, not, ◌&&◌, ◌||◌, Option, none,
  some, List, [], ◌∷◌, ◌++◌, ltb, leb, ◌==◌, if◌then◌else◌,
}
use ulmeros.Common.Outcome.{Outcome, ok, spinning}

abbrev pub Bytes : Type 0
Bytes = ℕ → ℕ

-- a byte to a register, by its offset from the `base` of the channel or from its `busmaster`
pub data PortWrite : Type 0 where
  file : (register value : ℕ) → PortWrite
  bus : (register value : ℕ) → PortWrite

abbrev pub PortWrites : Type 0
PortWrites = List PortWrite

-- `ide_channel_t`
pub record Channel : Type 0 where
  pub base : ℕ
  pub busmaster : ℕ

-- `BLOCKS_PER_PRD`
abbrev pub blocks_per_prd : ℕ
blocks_per_prd = 64 * 1024 / 512 - 1

-- what a channel is told: the length in the region descriptor, and the writes to its ports
pub record Command : Type 0 where
  pub channel : Channel
  pub prd_bytes : ℕ
  pub writes : PortWrites

-- `dma_stat &= ~(DMA_STAT_FAIL | DMA_STAT_IRQ)`, of a byte
abbrev pub without_flags : ℕ → ℕ
without_flags dma_stat = dma_stat % 256 / 8 * 8 + dma_stat % 2

-- The writes of one round: DMA_CMD and DMA_STAT, the registers from HDDEVSEL to COMMAND, then START and,
-- once the disk has sent its interrupt, STOP. Each write takes a byte. `drive` is 0 or 1.
unfoldable pub read_writes : (dma_stat drive tr_size current_lba : ℕ) → PortWrites
read_writes dma_stat drive tr_size current_lba =
    bus 0 0x08
    ∷ bus 2 (without_flags dma_stat)
    ∷ file 6 (0xe0 + drive * 16)
    ∷ file 2 (tr_size / 2 ^ 8 % 256)
    ∷ file 3 (current_lba / 2 ^ 24 % 256)
    ∷ file 4 (current_lba / 2 ^ 32 % 256)
    ∷ file 5 (current_lba / 2 ^ 40 % 256)
    ∷ file 2 (tr_size % 256)
    ∷ file 3 (current_lba % 256)
    ∷ file 4 (current_lba / 2 ^ 8 % 256)
    ∷ file 5 (current_lba / 2 ^ 16 % 256)
    ∷ file 7 0x25
    ∷ bus 0 0x09
    ∷ bus 0 0x08
    ∷ []

unfoldable pub read_command : Channel → (dma_stat drive tr_size current_lba : ℕ) → Command
read_command channel dma_stat drive tr_size current_lba = record {
  channel = channel;
  prd_bytes = tr_size * 512 % 2 ^ 16;
  writes = read_writes dma_stat drive tr_size current_lba;
}

-- `(status & ATA_SR_ERR) || (status & ATA_SR_DF)`
abbrev pub failed : ℕ → Bool
failed status = (status % 2 == 1) || (status / 32 % 2 == 1)

-- `memcpy(current_buffer, data_ptr, tr_size * 512)`, where the buffer begins `offset` bytes before
unfoldable pub copy_at : (offset n : ℕ) → Bytes → Bytes → Bytes
copy_at offset n from buf i =
    if leb offset i && ltb i (offset + n) then from (i - offset) else buf i

abbrev pub smaller : ℕ → ℕ
smaller blocks_remaining =
    if ltb blocks_per_prd blocks_remaining then blocks_per_prd else blocks_remaining

-- What the hardware does: the DMA status that is read when so many blocks have been read, and the answer to
-- a command, the disk's status behind it and the bytes in the DMA buffer.
pub record Hardware : Type 0 where
  pub dma_stat : (blocks_read : ℕ) → ℕ
  pub answer : Command → ℕ × Bytes

-- the loop: how many blocks were read, and the buffer
unfoldable pub read_blocks :
    Hardware
    → Channel
    → (drive fuel blocks_remaining current_lba blocks_read : ℕ) → Bytes
    → Outcome (ℕ × Bytes)
read_blocks hw channel drive zero blocks_remaining current_lba blocks_read buf = spinning
read_blocks hw channel drive (suc fuel) blocks_remaining current_lba blocks_read buf =
    let tr_size = smaller blocks_remaining in
    let reply =
      hw.answer (read_command channel (hw.dma_stat blocks_read) drive tr_size current_lba) in
    let rest =
      read_blocks hw channel drive fuel (blocks_remaining - tr_size)
        ((current_lba + tr_size) % 2 ^ 64) (blocks_read + tr_size)
        (copy_at (blocks_read * 512) (tr_size * 512) reply.1 buf) in
    if blocks_remaining == 0
    then ok (blocks_read, buf)
    else if failed reply.0
    then ok (blocks_read, buf)
    else rest

-- `ide_channels`
pub record Controller : Type 0 where
  pub primary : Channel
  pub secondary : Channel

abbrev pub channel_of : Controller → (minor : ℕ) → Channel
channel_of c minor = if leb 2 (minor % 4) then c.secondary else c.primary

-- A controller that is NULL gives -ENODEV. Each round takes at least one block.
unfoldable pub ata_read :
    Hardware → Option Controller → (minor count lba : ℕ) → Bytes → Outcome (ℕ × Bytes)
ata_read hw none minor count lba buf = ok (2 ^ 64 - 19, buf)
ata_read hw (some c) minor count lba buf =
    read_blocks hw (channel_of c minor) (minor % 2) (count + 1) count lba 0 buf
