-- ===== src/Bus/Pci/Scan.antt =====
-- `pci_init`: which functions are on the list.
use ulmeros.Common.{
  ℕ, zero, suc, ◌+◌, ◌≤◌, ◌<◌, ◌≡◌, ◌≢◌, ◌*◌, ◌/◌, ◌%◌, refl, ap, ◌∙◌, Bool, false, not, ◌&&◌, List,
  [], ◌∷◌, ◌++◌, ◌==◌, if◌then◌else◌, arith, inl, inr, Bool-cases,
}
use mathlib.Core.List.{append-nil}
use native.Mathlib.Decide.{ℕ_discrete}
use ulmeros.Common.Outcome.{Outcome, ok}
use ulmeros.Bus.Pci.Access.{InRange}
use ulmeros.Bus.Pci.{
  config_address, pci_read16, pci_read32, Config, PciDev, Leftover, pci_is_present, new_dev, rounds,
  scan_func, scan_slot, pci_init,
}

-- the devices on the list that pass the test
pub select : (PciDev → Bool) → List PciDev → List PciDev
select test [] = []
select test (d ∷ ds) = let rest = select test ds in if test d then d ∷ rest else rest

select-append :
    (test : PciDev → Bool) (xs ys : List PciDev)
    → select test (xs ++ ys) ≡ select test xs ++ select test ys
unfolding select
select-append test [] ys = refl
select-append test (d ∷ xs) ys = elim (Bool-cases (test d)) [
  | inl t ↦ rw t (ap (λ l. d ∷ l) (select-append test xs ys))
  | inr f ↦ rw f (select-append test xs ys)
]

nothing_found :
    (test : PciDev → Bool) (body : ℕ → List PciDev) (left first : ℕ)
    → ((j : ℕ) → first ≤ j → select test (body j) ≡ [])
    → select test (rounds body left first) ≡ []
unfolding rounds select
nothing_found test body zero first h = refl
nothing_found test body (suc left) first h =
    select-append test (body first) (rounds body left (first + 1))
    ∙ rw (h first (omega arith))
        (nothing_found test body left (first + 1) (λ j l. h j (omega arith)))

-- Where only one round can add such a device, the loop has what that round adds.
select-rounds :
    (test : PciDev → Bool) (body : ℕ → List PciDev) (left first k : ℕ)
    → first ≤ k
    → k < first + left
    → ((j : ℕ) → j ≢ k → select test (body j) ≡ [])
    → select test (rounds body left first) ≡ select test (body k)
unfolding rounds select
select-rounds test body zero first k lo hi h = absurd (omega arith)
select-rounds test body (suc left) first k lo hi h =
    select-append test (body first) (rounds body left (first + 1)) ∙ elim (ℕ_discrete first k) [
      | yes e ↦
          let others = nothing_found test body left (first + 1) (λ j l. h j (omega arith)) in
          ap (λ l. select test (body first) ++ l) others
          ∙ append-nil (select test (body first))
          ∙ ap (λ j. select test (body j)) e
      | no ne ↦
          ap (λ l. l ++ select test (rounds body left (first + 1))) (h first ne)
          ∙ select-rounds test body left (first + 1) k (omega arith) (omega arith) h
    ]

pub AllInRange : List PciDev → Type 0
AllInRange [] = Unit
AllInRange (d ∷ ds) = InRange d × AllInRange ds

AllInRange-append : (xs ys : List PciDev) → AllInRange xs → AllInRange ys → AllInRange (xs ++ ys)
unfolding AllInRange
AllInRange-append [] ys a b = b
AllInRange-append (x ∷ xs) ys (i, a) b = (i, AllInRange-append xs ys a b)

rounds-AllInRange :
    (body : ℕ → List PciDev) (left first : ℕ)
    → ((j : ℕ) → j < first + left → AllInRange (body j))
    → AllInRange (rounds body left first)
unfolding rounds AllInRange
rounds-AllInRange body zero first h = tt
rounds-AllInRange body (suc left) first h =
    AllInRange-append (body first) (rounds body left (first + 1)) (h first (omega arith))
      (rounds-AllInRange body left (first + 1) (λ j l. h j (omega arith)))

abbrev pub is_at : (bus slot func : ℕ) → PciDev → Bool
is_at bus slot func d = (d.bus == bus) && (d.slot == slot) && (d.func == func)

module _ (config : Config) (old : Leftover) (bus slot func : ℕ) where
  abbrev test : PciDev → Bool
  test = is_at bus slot func

  other_func :
      (b s f : ℕ)
      → (is_at bus slot func (new_dev config old b s f) ≡ false)
      → select test (scan_func config old b s f) ≡ []
  unfolding scan_func select
  other_func b s f h = elim (Bool-cases (pci_is_present config b s f)) [
    | inl t ↦ rw (t, h) refl
    | inr e ↦ rw e refl
  ]

  other_slot :
      (b s : ℕ)
      → ((f : ℕ) → is_at bus slot func (new_dev config old b s f) ≡ false)
      → select test (scan_slot config old b s) ≡ []
  unfolding scan_slot select
  other_slot b s h = elim (Bool-cases (pci_is_present config b s 0)) [
    | inl t ↦
        rw t (nothing_found test (scan_func config old b s) 8 0 (λ f l. other_func b s f (h f)))
    | inr e ↦ rw e refl
  ]

  this_func :
      select test (scan_func config old bus slot func)
      ≡ (if pci_is_present config bus slot func then new_dev config old bus slot func ∷ [] else [])
  unfolding scan_func select new_dev
  this_func = elim (Bool-cases (pci_is_present config bus slot func)) [
    | inl t ↦ rw t (ground arith)
    | inr e ↦ rw e refl
  ]

  this_slot :
      func < 8
      → select test (scan_slot config old bus slot) ≡ (
          if pci_is_present config bus slot 0 && pci_is_present config bus slot func
          then new_dev config old bus slot func ∷ []
          else [])
  unfolding scan_slot select new_dev
  this_slot hf = elim (Bool-cases (pci_is_present config bus slot 0)) [
    | inl t ↦ rw t (
        select-rounds test (scan_func config old bus slot) 8 0 func (omega arith) (omega arith)
          (λ f ne. other_func bus slot f (ground arith))
        ∙ this_func)
    | inr e ↦ rw e refl
  ]

  pub scan-AllInRange : AllInRange (rounds (λ b. rounds (scan_slot config old b) 32 0) 256 0)
  unfolding scan_slot scan_func AllInRange new_dev
  scan-AllInRange =
      rounds-AllInRange (λ b. rounds (scan_slot config old b) 32 0) 256 0
        (λ b hb. rounds-AllInRange (scan_slot config old b) 32 0 (λ s hs.
          elim (Bool-cases (pci_is_present config b s 0)) [
            | inr e ↦ rw e tt
            | inl t ↦ rw t (
                rounds-AllInRange (scan_func config old b s) 8 0 (λ f hf.
                  elim (Bool-cases (pci_is_present config b s f)) [
                    | inr e ↦ rw e tt
                    | inl e ↦ rw e (record { bus = hb; slot = hs; func = hf }, tt)
                  ]))
          ]))

  listed :
      bus < 256
      → slot < 32
      → func < 8
      → select test (rounds (λ b. rounds (scan_slot config old b) 32 0) 256 0) ≡ (
          if pci_is_present config bus slot 0 && pci_is_present config bus slot func
          then new_dev config old bus slot func ∷ []
          else [])
  unfolding new_dev
  listed hb hs hf =
      select-rounds test (λ b. rounds (scan_slot config old b) 32 0) 256 0 bus (omega arith)
        (omega arith)
        (λ b ne.
          nothing_found test (scan_slot config old b) 32 0
            (λ s l. other_slot b s (λ f. ground arith)))
      ∙ select-rounds test (scan_slot config old bus) 32 0 slot (omega arith) (omega arith)
          (λ s ne. other_slot bus s (λ f. ground arith))
      ∙ this_slot hf

-- The first word that the bus has for a function: the vendor in the low half, the device in the high half.
abbrev pub id_word : Config → (bus slot func : ℕ) → ℕ
id_word config bus slot func = config (0x80000000 + bus * 65536 + slot * 2048 + func * 256)

abbrev pub answers : Config → (bus slot func : ℕ) → Bool
answers config bus slot func = not (id_word config bus slot func % 65536 == 65535)

-- the device that stands for a function
abbrev pub described : Config → Leftover → (bus slot func : ℕ) → PciDev
described config old bus slot func = record {
  bus = bus;
  slot = slot;
  func = func;
  vendor = id_word config bus slot func % 65536;
  device = id_word config bus slot func / 65536 % 65536;
  driver = (old bus slot func).0;
  driver_data = (old bus slot func).1;
}

module _ (config : Config) (bus slot func : ℕ) where
  is_present-answers : pci_is_present config bus slot func ≡ answers config bus slot func
  unfolding pci_is_present pci_read16 pci_read32 config_address
  is_present-answers =
      let place : bus * 65536 + slot * 2048 + func * 256 + 0 + 0x80000000
          ≡ 0x80000000 + bus * 65536 + slot * 2048 + func * 256 =
        omega arith in
      let half : config (bus * 65536 + slot * 2048 + func * 256 + 0 + 0x80000000) / 1 % 65536
          ≡ id_word config bus slot func % 65536 =
        rw place (omega arith) in
      ap (λ v. not (v == 65535)) half

  new_dev-described :
      (old : Leftover) → new_dev config old bus slot func ≡ described config old bus slot func
  unfolding new_dev pci_read16 pci_read32 config_address
  new_dev-described old =
      let place : bus * 65536 + slot * 2048 + func * 256 + 0 + 0x80000000
          ≡ 0x80000000 + bus * 65536 + slot * 2048 + func * 256 =
        omega arith in
      let low : config (bus * 65536 + slot * 2048 + func * 256 + 0 + 0x80000000) / 1 % 65536
          ≡ id_word config bus slot func % 65536 =
        rw place (omega arith) in
      let high : config (bus * 65536 + slot * 2048 + func * 256 + 0 + 0x80000000) / 65536 % 65536
          ≡ id_word config bus slot func / 65536 % 65536 =
        rw place refl in
      ap
        (λ (v : ℕ × ℕ). record {
          bus = bus;
          slot = slot;
          func = func;
          vendor = v.0;
          device = v.1;
          driver = (old bus slot func).0;
          driver_data = (old bus slot func).1;
        })
        (pair low high)
    where
      pair : {a b c d : ℕ} → a ≡ b → c ≡ d → ◌≡◌ {A = ℕ × ℕ} (a, c) (b, d)
      pair e f = rw (e, f) refl

module _ (config : Config) (old : Leftover) (bus slot func : ℕ) where
  -- All on the list are functions of the bus; and the list has the function once, as its words in the
  -- configuration space describe it, if it and function 0 of its slot answer, and else not at all.
  abbrev pub Lists : Outcome (List PciDev) → Type 0
  Lists out =
      (devs : List PciDev) × (out ≡ ok devs)
      × AllInRange devs
      × (select (is_at bus slot func) devs ≡ (
          if answers config bus slot 0 && answers config bus slot func
          then described config old bus slot func ∷ []
          else []))

  -- The first call of `pci_init` returns a list of functions of 256 buses of 32 slots of eight each. It has
  -- each of these exactly once, with the vendor and device numbers of its first configuration word, if the
  -- vendor numbers of that one and of function 0 of its slot are not 0xffff, and else not at all.
  pub pci_init-Lists : bus < 256 → slot < 32 → func < 8 → Lists (pci_init config old false)
  unfolding pci_init
  pci_init-Lists hb hs hf = (
    _,
    refl,
    scan-AllInRange config old bus slot func,
    listed config old bus slot func hb hs hf
        ∙ rw
            (
              is_present-answers config bus slot 0,
              is_present-answers config bus slot func,
              new_dev-described config bus slot func old,
            )
            refl,
  )
