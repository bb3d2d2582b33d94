-- ===== src/Bus/Pci/Probing.antt =====
-- `pci_register_driver`: which devices a driver takes.
use ulmeros.Common.{
  ℕ, zero, suc, ◌+◌, ◌≡◌, refl, ap, ◌∙◌, sym, Bool, true, false, not, ◌&&◌, ◌||◌, Option, none,
  some, List, [], ◌∷◌, map, ◌==◌, if◌then◌else◌, arith, inl, inr, Bool-cases,
}
use ulmeros.Bus.Pci.{PciDev, IdPair, try_ids, pci_register_driver}

-- One of the `left` pairs from place `i` on is the device's, and no pair of zeros comes before it.
pub handles : (devices : ℕ → IdPair) → (left i : ℕ) → PciDev → Bool
handles devices zero i dev = false
handles devices (suc left) i dev =
    let (vendor, device) = devices i in
    let rest = handles devices left (i + 1) dev in
    if (vendor == 0) && (device == 0)
    then false
    else ((dev.vendor == vendor) && (dev.device == device)) || rest

if_same {ℓ} : {A : Type ℓ} (c : Bool) (x y z : A) → x ≡ z → y ≡ z → (if c then x else y) ≡ z
if_same true x y z e f = e
if_same false x y z e f = f

not_probed {ℓ} :
    {A : Type ℓ} (a b c : Bool) (x y : A) → c ≡ true → (if a && b && not c then x else y) ≡ y
not_probed a b c x y e = ground arith

no_data {ℓ} : {A : Type ℓ} (a c : Bool) (x y : A) → c ≡ true → (if a && not c then x else y) ≡ y
no_data a c x y e = ground arith

with_data {ℓ} :
    {A : Type ℓ} (a c : Bool) (x y : A)
    → c ≡ false
    → (if a && not c then x else y) ≡ (if a then x else y)
with_data a c x y e = ground arith

choose :
    (o : Option ℕ) (x y z : PciDev) (rest other : List PciDev)
    → y ≡ z
    → rest ≡ other
    → ◌≡◌ {A = List PciDev}
        (elim o [ some d ↦ x ∷ rest | none ↦ y ∷ rest ])
        ((elim o [ some d ↦ x | none ↦ z ]) ∷ other)
choose (some d) x y z rest other e f = ap (λ l. x ∷ l) f
choose none x y z rest other e f = ap (λ a. a ∷ rest) e ∙ ap (λ l. z ∷ l) f

module _ (drv_info : ℕ) (devices : ℕ → IdPair) (probe : (bus slot func : ℕ) → ℕ) where
  -- the device with the driver entered
  abbrev pub taken_by : PciDev → PciDev
  taken_by dev = record dev {
    driver = some drv_info;
    driver_data = probe dev.bus dev.slot dev.func;
  }

  abbrev not_found : PciDev → Bool
  not_found dev = probe dev.bus dev.slot dev.func == 0

  abbrev entered : ℕ → PciDev → PciDev
  entered i dev =
      if (dev.vendor == (devices i).0) && (dev.device == (devices i).1) && not (not_found dev)
      then taken_by dev
      else dev

  try_ids-same :
      (left i : ℕ) (dev : PciDev)
      → not_found dev ≡ true
      → try_ids drv_info devices probe left i dev ≡ dev
  unfolding try_ids
  try_ids-same zero i dev h = refl
  try_ids-same (suc left) i dev h =
      if_same (((devices i).0 == 0) && ((devices i).1 == 0)) _ _ _ refl (
        ap (try_ids drv_info devices probe left (i + 1)) (
          not_probed (dev.vendor == (devices i).0) (dev.device == (devices i).1) (not_found dev) _ _
            h)
        ∙ try_ids-same left (i + 1) dev h)

  try_ids-taken :
      (left i : ℕ) (dev : PciDev)
      → try_ids drv_info devices probe left i (taken_by dev) ≡ taken_by dev
  unfolding try_ids
  try_ids-taken zero i dev = refl
  try_ids-taken (suc left) i dev =
      if_same (((devices i).0 == 0) && ((devices i).1 == 0)) _ _ _ refl (
        ap (try_ids drv_info devices probe left (i + 1)) (
          if_same
            ((dev.vendor == (devices i).0) && (dev.device == (devices i).1) && not (not_found dev))
            _ _ _ refl refl)
        ∙ try_ids-taken left (i + 1) dev)

  try_ids-handles :
      (left i : ℕ) (dev : PciDev)
      → not_found dev ≡ false
      → try_ids drv_info devices probe left i dev
        ≡ (if handles devices left i dev then taken_by dev else dev)
  unfolding try_ids handles
  try_ids-handles zero i dev h = refl
  try_ids-handles (suc left) i dev h =
      elim (Bool-cases (((devices i).0 == 0) && ((devices i).1 == 0))) [
        | inl stop ↦ rw stop refl
        | inr go ↦
            elim (Bool-cases ((dev.vendor == (devices i).0) && (dev.device == (devices i).1))) [
              | inl match ↦ rw (go, match, h) (try_ids-taken left (i + 1) dev)
              | inr other ↦ rw (go, other) (try_ids-handles left (i + 1) dev h)
            ]
      ]

  try_ids-all :
      (dev : PciDev)
      → try_ids drv_info devices probe 100 0 dev
        ≡ (if handles devices 100 0 dev && not (not_found dev) then taken_by dev else dev)
  try_ids-all dev = elim (Bool-cases (not_found dev)) [
    | inl none_there ↦
        try_ids-same 100 0 dev none_there
        ∙ sym (no_data (handles devices 100 0 dev) _ _ _ none_there)
    | inr there ↦
        try_ids-handles 100 0 dev there ∙ sym (with_data (handles devices 100 0 dev) _ _ _ there)
  ]

  -- a driver takes a device that has none, whose pair is in its table and for which its probe gives data
  abbrev pub registered : PciDev → PciDev
  registered dev = elim dev.driver [
    | some d ↦ dev
    | none ↦ if handles devices 100 0 dev && not (not_found dev) then taken_by dev else dev
  ]

  -- `pci_register_driver` enters the driver and the data that its probe gives in each device that has no
  -- driver, whose pair is one of the first hundred of the driver's table and stands before a pair of zeros,
  -- and for which the probe gives data; it leaves every other device and their order as they are.
  pub pci_register_driver-map :
      (devs : List PciDev) → pci_register_driver drv_info devices probe devs ≡ map registered devs
  unfolding pci_register_driver
  pci_register_driver-map [] = refl
  pci_register_driver-map (dev ∷ devs) =
      choose dev.driver dev _ _ _ _ (try_ids-all dev) (pci_register_driver-map devs)
