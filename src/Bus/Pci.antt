-- ===== src/Bus/Pci.antt =====
-- kernel/kernel/bus/pci.c and kernel/drivers/pc/pci.c: the functions on the PCI bus. The configuration space is
-- a parameter, the word that the data port gives for each address; spin lock and mutex are held round
-- each body. The fields of an address do not overlap, so that `|` is a sum.
pub mod Access
pub mod Scan
pub mod Probing
mod Tests
use ulmeros.Common.{
  ℕ, zero, suc, ◌+◌, ◌-◌, ◌*◌, ◌/◌, ◌%◌, ◌^◌, Bool, true, false, not, ◌&&◌, ◌||◌, Option, none,
  some, List, [], ◌∷◌, ◌++◌, ltb, ◌==◌, if◌then◌else◌,
}
use ulmeros.Common.Outcome.{Outcome, ok, panic}

-- the words of the configuration space, by the value in the address port
abbrev pub Config : Type 0
Config = ℕ → ℕ

-- `pci_dev_t`; a driver is a number, and `none` is NULL.
pub record PciDev : Type 0 where
  pub bus : ℕ
  pub slot : ℕ
  pub func : ℕ
  pub vendor : ℕ
  pub device : ℕ
  pub driver : Option ℕ
  pub driver_data : ℕ

-- `address` in `pci_read32` and `pci_write32`
unfoldable pub config_address : (bus slot func offset : ℕ) → ℕ
config_address bus slot func offset =
    bus * 2 ^ 16 + slot * 2 ^ 11 + func * 2 ^ 8 + offset % 256 / 4 * 4 + 2 ^ 31

unfoldable pub pci_read32 : Config → PciDev → (offset : ℕ) → ℕ
pci_read32 config dev offset = config (config_address dev.bus dev.slot dev.func offset)

unfoldable pub pci_write32 : Config → PciDev → (offset value : ℕ) → Config
pci_write32 config dev offset value address =
    if address == config_address dev.bus dev.slot dev.func offset then value else config address

-- `(data >> ((offset & 2) * 8)) & 0xffff`
unfoldable pub pci_read16 : Config → PciDev → (offset : ℕ) → ℕ
pci_read16 config dev offset = pci_read32 config dev offset / 2 ^ (offset / 2 % 2 * 16) % 2 ^ 16

unfoldable pub pci_read8 : Config → PciDev → (offset : ℕ) → ℕ
pci_read8 config dev offset = pci_read32 config dev offset / 2 ^ (offset % 4 * 8) % 2 ^ 8

unfoldable pub pci_get_bar : Config → PciDev → (bar : ℕ) → ℕ
pci_get_bar config dev bar = pci_read32 config dev ((0x10 + bar * 4) % 256)

-- `cmd |= BIT(2)`
unfoldable pub pci_enable_busmaster : Config → PciDev → Config
pci_enable_busmaster config dev =
    let cmd = pci_read32 config dev 0x04 in
    pci_write32 config dev 0x04 (if cmd / 4 % 2 == 1 then cmd else cmd + 4)

-- what `kmalloc` leaves in `driver` and `driver_data`, by the function that it is called for
abbrev pub Leftover : Type 0
Leftover = (bus slot func : ℕ) → Option ℕ × ℕ

abbrev pub dev_at : (bus slot func : ℕ) → PciDev
dev_at bus slot func = record {
  bus = bus;
  slot = slot;
  func = func;
  vendor = 0;
  device = 0;
  driver = none;
  driver_data = 0;
}

unfoldable pub pci_is_present : Config → (bus slot func : ℕ) → Bool
pci_is_present config bus slot func = not (pci_read16 config (dev_at bus slot func) 0x00 == 0xffff)

-- the device that `pci_init` makes; `driver` and `driver_data` are not written
unfoldable pub new_dev : Config → Leftover → (bus slot func : ℕ) → PciDev
new_dev config old bus slot func =
    let dev = dev_at bus slot func in
    record dev {
      vendor = pci_read16 config dev 0x00;
      device = pci_read16 config dev 0x02;
      driver = (old bus slot func).0;
      driver_data = (old bus slot func).1;
    }

-- `for (k = first; k < first + left; k++)`, where each round adds to the list
unfoldable pub rounds : (ℕ → List PciDev) → (left first : ℕ) → List PciDev
rounds body zero first = []
rounds body (suc left) first = body first ++ rounds body left (first + 1)

unfoldable pub scan_func : Config → Leftover → (bus slot func : ℕ) → List PciDev
scan_func config old bus slot func =
    if pci_is_present config bus slot func then new_dev config old bus slot func ∷ [] else []

unfoldable pub scan_slot : Config → Leftover → (bus slot : ℕ) → List PciDev
scan_slot config old bus slot =
    if pci_is_present config bus slot 0 then rounds (scan_func config old bus slot) 8 0 else []

-- `device_list` afterwards; a second call panics
unfoldable pub pci_init : Config → Leftover → (pci_initialized : Bool) → Outcome (List PciDev)
pci_init config old pci_initialized =
    if pci_initialized
    then panic
    else ok (rounds (λ bus. rounds (scan_slot config old bus) 32 0) 256 0)

-- `pci_idpair_t`, vendor and device
abbrev pub IdPair : Type 0
IdPair = ℕ × ℕ

-- The loop over `i`; `probe` gives the driver's data, and 0 for NULL. It goes on after a match.
unfoldable pub try_ids :
    (drv_info : ℕ)
    → (devices : ℕ → IdPair) → (probe : (bus slot func : ℕ) → ℕ) → (left i : ℕ) → PciDev
    → PciDev
try_ids drv_info devices probe zero i dev = dev
try_ids drv_info devices probe (suc left) i dev =
    let (vendor, device) = devices i in
    let drv_data = probe dev.bus dev.slot dev.func in
    let matched =
      if (dev.vendor == vendor) && (dev.device == device) && not (drv_data == 0)
      then record dev { driver = some drv_info; driver_data = drv_data }
      else dev in
    let rest = try_ids drv_info devices probe left (i + 1) matched in
    if (vendor == 0) && (device == 0) then dev else rest

unfoldable pub pci_register_driver :
    (drv_info : ℕ)
    → (devices : ℕ → IdPair) → (probe : (bus slot func : ℕ) → ℕ) → List PciDev
    → List PciDev
pci_register_driver drv_info devices probe [] = []
pci_register_driver drv_info devices probe (dev ∷ devs) =
    let rest = pci_register_driver drv_info devices probe devs in
    elim dev.driver [ some d ↦ dev ∷ rest | none ↦ try_ids drv_info devices probe 100 0 dev ∷ rest ]
