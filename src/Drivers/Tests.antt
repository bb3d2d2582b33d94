-- ===== src/Drivers/Tests.antt =====
-- The disk driver on a small disk.
use ulmeros.Common.{
  false, if◌then◌else◌, ℕ, zero, suc, ◌+◌, ◌*◌, refl, arith, Option, none, some, List, [], ◌∷◌,
}
use ulmeros.Drivers.Ata.{Bytes, Channel, Hardware, Controller, ata_read}
use ulmeros.Drivers.Ata.Transfers.{
  transfers, lba_of, drive_of, Serves, Reads, disk_of, ata_read-Reads,
}
use ulmeros.Drivers.Ata.Slots.{Found, probe_disks, identify_all-Found, IdeDev}

abbrev controller : Controller
controller = record {
  primary = record { base = 0x1f0; busmaster = 0xc000 };
  secondary = record { base = 0x170; busmaster = 0xc008 };
}

abbrev disk : Channel → (drive : ℕ) → Bytes
disk channel drive i = channel.base + drive + i

-- a disk that is always ready, and carries out no command but READ DMA EXT
abbrev hardware : Hardware
hardware = record {
  dma_stat = λ blocks_read. 0x24;
  answer = λ c.
      if transfers false c.writes
      then (0x50, λ i. disk c.channel (drive_of c.writes) (lba_of c.writes * 512 + i))
      else (0x51, λ i. 0);
}

hardware-Serves : Serves hardware disk
hardware-Serves c i given by_lba fine named long = rw given refl

ata_read-Reads_example :
    Reads
      (disk_of disk controller 2)
      hardware
      0
      300
      70000
      (λ i. 0)
      (ata_read hardware (some controller) 2 300 70000 (λ i. 0))
ata_read-Reads_example =
    ata_read-Reads hardware disk controller 2 300 70000 (λ i. 0) hardware-Serves (omega arith)

abbrev blank : IdeDev
blank = record {
  present = 0;
  channel = 0;
  drive = 0;
  signat = 0;
  capa = 0;
  cmd_sets = 0;
  sectors = 0;
  model = λ i. 0;
}

-- a master and a slave on the primary channel
abbrev two_disks : (channel drive : ℕ) → Option Bytes
two_disks zero drive = some (λ i. 7)
two_disks (suc channel) drive = none

abbrev hdd : ℕ → List ℕ
hdd i = b'h' ∷ b'd' ∷ b'd' ∷ (b'0' + i) ∷ []

identify_all-Found_example :
    Found 1 4 hdd (some (λ i. 7)) none none (probe_disks two_disks (λ i. blank) 1 4 hdd)
identify_all-Found_example = identify_all-Found two_disks (λ i. blank) 1 4 hdd
