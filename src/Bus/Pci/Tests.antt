-- ===== src/Bus/Pci/Tests.antt =====
-- A bus with a disk controller.
use ulmeros.Common.{
  ℕ, ◌≡◌, false, refl, arith, none, List, [], ◌∷◌, ◌==◌, if◌then◌else◌, map, zero, suc,
}
use ulmeros.Bus.Pci.{
  Config, PciDev, IdPair, pci_init, pci_register_driver, pci_write32, dev_at, pci_read16,
  pci_read32, config_address,
}
use ulmeros.Bus.Pci.Access.{InRange, same_word, pci_read32-write32}
use ulmeros.Bus.Pci.Scan.{Lists, pci_init-Lists}
use ulmeros.Bus.Pci.Probing.{registered, pci_register_driver-map}

-- one function, at slot 1 of bus 0
abbrev config : Config
config address = if address == 0x80000800 then 0x70108086 else 0xffffffff

pci_init-Lists_example :
    Lists config (λ b s f. (none, 0)) 0 1 0 (pci_init config (λ b s f. (none, 0)) false)
pci_init-Lists_example =
    pci_init-Lists config (λ b s f. (none, 0)) 0 1 0 (omega arith) (omega arith) (omega arith)

-- `ata_pci_ids`
abbrev ids : ℕ → IdPair
ids zero = (0x8086, 0x7111)
ids (suc zero) = (0x8086, 0x7010)
ids (suc (suc i)) = (0, 0)

abbrev found : List PciDev
found =
    record {
      bus = 0;
      slot = 1;
      func = 0;
      vendor = 0x8086;
      device = 0x7010;
      driver = none;
      driver_data = 0;
    }
    ∷ []

pci_register_driver-map_example :
    pci_register_driver 5 ids (λ b s f. 0x1000) found
    ≡ map (registered 5 ids (λ b s f. 0x1000)) found
pci_register_driver-map_example = pci_register_driver-map 5 ids (λ b s f. 0x1000) found

reads :
    pci_read16 config
      (record {
        bus = 0;
        slot = 1;
        func = 0;
        vendor = 0;
        device = 0;
        driver = none;
        driver_data = 0;
      })
      2
    ≡ 0x7010
unfolding pci_read16 pci_read32 config_address
reads = refl

InRange-at : InRange (dev_at 0 1 0)
InRange-at = record { bus = omega arith; slot = omega arith; func = omega arith }

word_read_back : pci_read32 (pci_write32 config (dev_at 0 1 0) 4 7) (dev_at 0 1 0) 6 ≡ (
    if same_word (dev_at 0 1 0) 4 (dev_at 0 1 0) 6 then 7 else pci_read32 config (dev_at 0 1 0) 6)
word_read_back =
    pci_read32-write32 config (dev_at 0 1 0) (dev_at 0 1 0) 4 6 7 InRange-at InRange-at
      (omega arith) (omega arith)
