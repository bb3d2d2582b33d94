-- ===== src/Bus/Pci/Access.antt =====
-- The configuration space read after it was written.
use ulmeros.Common.{
  ℕ, ◌+◌, ◌*◌, ◌/◌, ◌%◌, ◌^◌, ◌<◌, ◌≡◌, refl, Bool, ◌&&◌, ◌==◌, if◌then◌else◌, arith,
}
use ulmeros.Bus.Pci.{Config, PciDev, config_address, pci_read32, pci_write32}

-- The numbers fit their fields in an address.
pub record InRange (d : PciDev) : Type 0 where
  pub bus : d.bus < 256
  pub slot : d.slot < 32
  pub func : d.func < 8

-- the same word of the same function
abbrev pub same_word : PciDev → ℕ → PciDev → ℕ → Bool
same_word d offset e other =
    (d.bus == e.bus) && (d.slot == e.slot) && (d.func == e.func) && (offset / 4 == other / 4)

address_same :
    (b s f w b' s' f' w' : ℕ)
    → s < 32
    → f < 8
    → w < 64
    → s' < 32
    → f' < 8
    → w' < 64
    → (b' * 2 ^ 16 + s' * 2 ^ 11 + f' * 2 ^ 8 + w' * 4 + 2 ^ 31
        == b * 2 ^ 16 + s * 2 ^ 11 + f * 2 ^ 8 + w * 4 + 2 ^ 31)
      ≡ ((b == b') && (s == s') && (f == f') && (w == w'))
address_same b s f w b' s' f' w' h₁ h₂ h₃ h₄ h₅ h₆ = ground arith

-- At functions in the range of bus, slot and function numbers and at offsets below 256, `pci_read32` after
-- `pci_write32` gives the value written at the same word of the same function, and what it gave before at
-- every other word.
pub pci_read32-write32 :
    (config : Config) (d e : PciDev) (offset other value : ℕ)
    → InRange d
    → InRange e
    → offset < 256
    → other < 256
    → pci_read32 (pci_write32 config d offset value) e other
      ≡ (if same_word d offset e other then value else pci_read32 config e other)
unfolding pci_read32 pci_write32 config_address
pci_read32-write32 config d e offset other value hd he ho hp =
    let a : offset % 256 / 4 ≡ offset / 4 = omega arith in
    let b : other % 256 / 4 ≡ other / 4 = omega arith in
    rw
      (
        a,
        b,
        address_same d.bus d.slot d.func (offset / 4) e.bus e.slot e.func (other / 4) hd.slot
            hd.func (omega arith) he.slot he.func (omega arith),
      )
      refl
