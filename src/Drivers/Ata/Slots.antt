-- ===== src/Drivers/Ata/Slots.antt =====
-- kernel/drivers/pc/ata.c: which disks `ata_probe` finds, and where `ide_identify` puts them. Whether a
-- disk answers, and the 512 bytes that it identifies itself by, is a parameter. Writing past the array of
-- four is a fault.
use ulmeros.Common.{
  ℕ, zero, suc, ◌+◌, ◌-◌, ◌*◌, ◌/◌, ◌%◌, ◌^◌, ◌≡◌, refl, not, ◌&&◌, Option, none, some, List, [],
  ◌∷◌, ◌++◌, ltb, ◌==◌, if◌then◌else◌, Bool, true, false,
}
use ulmeros.Common.Outcome.{Outcome, ok, panic, fault, ◌>>=◌, ◌>>◌, assert}
use ulmeros.Common.Words.{word16, word32}
use ulmeros.Fs.Blockdevs.{Blockdev}
use ulmeros.Drivers.Ata.{Bytes}

-- `ide_dev_t`; the text of `model` is a byte at each of 41 places.
pub record IdeDev : Type 0 where
  pub present : ℕ
  pub channel : ℕ
  pub drive : ℕ
  pub signat : ℕ
  pub capa : ℕ
  pub cmd_sets : ℕ
  pub sectors : ℕ
  pub model : Bytes

-- `controller->ide_devices`
abbrev pub Slots : Type 0
Slots = ℕ → IdeDev

-- `model[i]` and `model[i + 1]` are swapped; place 40 keeps what it had.
unfoldable pub swapped : Bytes → Bytes → Bytes
swapped idspace old i =
    if ltb i 40 then (if i % 2 == 0 then idspace (54 + i + 1) else idspace (54 + i - 1)) else old i

-- the loop from `i` on down: spaces at the end become 0
unfoldable pub trim : (places : ℕ) → Bytes → Bytes
trim zero text = text
trim (suc i) text =
    let rest = trim i (λ k. if k == i then 0 else text k) in
    if not (text i == b' ') && not (text i == 0) then text else rest

unfoldable pub model_of : Bytes → Bytes → Bytes
model_of idspace old i = if i == 40 then 0 else trim 41 (swapped idspace old) i

unfoldable pub identified : (channel drive : ℕ) → Bytes → IdeDev → IdeDev
identified channel drive idspace old =
    let cmd_sets = word32 idspace 164 in
    record {
      present = 1;
      channel = channel;
      drive = drive;
      signat = word16 idspace 0;
      capa = word16 idspace 98;
      cmd_sets = cmd_sets;
      sectors = if cmd_sets / 2 ^ 26 % 2 == 1 then word32 idspace 200 else word32 idspace 120;
      model = model_of idspace old.model;
    }

unfoldable pub put_slot : Slots → ℕ → IdeDev → Slots
put_slot slots k dev i = if i == k then dev else slots i

-- `ide_device` points to slot `drv_id`, and is then indexed by `drv_id` again. `none`: no disk answers,
-- or it reports an error.
unfoldable pub ide_identify : (answer : Option Bytes) → (channel drive : ℕ) → Slots → Outcome Slots
ide_identify answer channel drive slots =
    let drv_id = channel * 2 + drive in
    let cleared = put_slot slots drv_id (record (slots drv_id) { present = 0 }) in
    elim answer [
      | none ↦ ok cleared
      | some idspace ↦
          if ltb (drv_id + drv_id) 4
          then ok (
              put_slot cleared (drv_id + drv_id)
                (identified channel drive idspace (cleared (drv_id + drv_id))))
          else fault
    ]

-- the four calls in `ata_probe`
unfoldable pub identify_all : (answer : (channel drive : ℕ) → Option Bytes) → Slots → Outcome Slots
identify_all answer slots = do
  s₁ ← ide_identify (answer 0 0) 0 0 slots
  s₂ ← ide_identify (answer 0 1) 0 1 s₁
  s₃ ← ide_identify (answer 1 0) 1 0 s₂
  ide_identify (answer 1 1) 1 1 s₃

-- The body of the loop over `i`: the block device that is registered for a slot; `bd_register` asserts
-- that its capacity is not 0. `name_of` is "hdd%zu".
unfoldable pub disk_of_slot :
    (major minor_base : ℕ) → (name_of : ℕ → List ℕ) → Slots → ℕ → Outcome (List Blockdev)
disk_of_slot major minor_base name_of slots i = if (slots i).present == 0 then ok [] else (do
  assert (not ((slots i).sectors == 0))
  ok (
      record {
        major = major;
        minor = minor_base + i;
        capacity = (slots i).sectors;
        name = name_of i;
      }
      ∷ []))

unfoldable pub register_disks :
    (major minor_base : ℕ) → (name_of : ℕ → List ℕ) → Slots → Outcome (List Blockdev)
register_disks major minor_base name_of slots = do
  first ← disk_of_slot major minor_base name_of slots 0
  second ← disk_of_slot major minor_base name_of slots 1
  third ← disk_of_slot major minor_base name_of slots 2
  ok (first ++ (second ++ third))

-- what `ata_probe` does to the array of disks
abbrev pub probe_disks :
    (answer : (channel drive : ℕ) → Option Bytes)
    → Slots
    → (major minor_base : ℕ) → (name_of : ℕ → List ℕ) → Outcome (List Blockdev)
probe_disks answer slots major minor_base name_of =
    identify_all answer slots >>= register_disks major minor_base name_of

-- the number of blocks that a disk reports: in 48 bits' commands at 200, and else at 120
abbrev pub blocks_of : Bytes → ℕ
blocks_of idspace =
    if word32 idspace 164 / 2 ^ 26 % 2 == 1 then word32 idspace 200 else word32 idspace 120

-- what is registered where only the master of the primary channel counts
abbrev pub master_only :
    (major minor_base : ℕ) → (name_of : ℕ → List ℕ) → Option Bytes → Outcome (List Blockdev)
master_only major minor_base name_of none = ok []
master_only major minor_base name_of (some idspace) =
    if blocks_of idspace == 0
    then panic
    else ok (
        record {
          major = major;
          minor = minor_base + 0;
          capacity = blocks_of idspace;
          name = name_of 0;
        }
        ∷ [])

-- by what answers as the primary master, the secondary master and the secondary slave
abbrev pub Found :
    (major minor_base : ℕ)
    → (name_of : ℕ → List ℕ) → Option Bytes
    → Option Bytes
    → Option Bytes
    → Outcome (List Blockdev)
    → Type 0
Found major minor_base name_of first none none out =
    out ≡ master_only major minor_base name_of first
Found major minor_base name_of first none (some idspace) out = out ≡ fault
Found major minor_base name_of first (some idspace) other out = out ≡ fault

-- Only the first slot holds a disk, whose capacity may be 0.
only_first :
    (empty : Bool) (disk : Blockdev)
    → ((assert (not empty) >> ok (disk ∷ [])) >>= λ first.
        ok [] >>= λ second. ok [] >>= λ third. ok (first ++ (second ++ third)))
      ≡ (if empty then panic else ok (disk ∷ []))
only_first true disk = refl
only_first false disk = refl

-- Where no disk answers on the secondary channel, `ata_probe` registers the disk that answers as the
-- primary channel's master, if there is one, and no other, even if a slave answers, and panics if that
-- master reports no blocks; where one answers on the secondary channel, `ide_identify` writes past the end
-- of the array of disks.
pub identify_all-Found :
    (answer : (channel drive : ℕ) → Option Bytes) (slots : Slots) (major minor_base : ℕ)
    (name_of : ℕ → List ℕ)
    → Found major minor_base name_of
        (answer 0 0)
        (answer 1 0)
        (answer 1 1)
        (probe_disks answer slots major minor_base name_of)
unfolding identify_all ide_identify register_disks disk_of_slot put_slot identified
identify_all-Found answer slots major minor_base name_of =
    go (answer 0 0) (answer 0 1) (answer 1 0) (answer 1 1)
  where
    go :
        (a b c d : Option Bytes)
        → Found major minor_base name_of a c d (
            (ide_identify a 0 0 slots >>= λ s₁.
            ide_identify b 0 1 s₁ >>= λ s₂. ide_identify c 1 0 s₂ >>= λ s₃. ide_identify d 1 1 s₃)
            >>= register_disks major minor_base name_of)
    go none none none none = refl
    go none (some b) none none = refl
    go (some a) none none none = only_first _ _
    go (some a) (some b) none none = only_first _ _
    go none none none (some d) = refl
    go none (some b) none (some d) = refl
    go (some a) none none (some d) = refl
    go (some a) (some b) none (some d) = refl
    go none none (some c) d = refl
    go none (some b) (some c) d = refl
    go (some a) none (some c) d = refl
    go (some a) (some b) (some c) d = refl
