-- ===== src/Proc/Program/Loading.antt =====
-- kernel/kernel/sched/loader.c: a program's file is opened, its header and its table of segments are read. The
-- lock of the loader is a field, since an error leaves it held; a task that takes it then waits for ever.
pub mod Created
mod OnExt2
mod Tests
use ulmeros.Common.{
  ℕ, zero, suc, ◌+◌, ◌-◌, ◌*◌, ◌%◌, ◌^◌, Bool, true, false, not, ◌&&◌, ◌||◌, Option, none, some,
  List, [], ◌∷◌, ltb, leb, ◌==◌, if◌then◌else◌,
}
use ulmeros.Common.Outcome.{Outcome, ok, spinning, ◌>>=◌}
use ulmeros.Common.Words.{word16, word32, word64}
use ulmeros.Mm.Page.{Phys}
use ulmeros.Fs.Ext2.{Bytes, Device}
use ulmeros.Proc.Program.{Segment, load_heap_brk, loader_load}

-- the fields of `elf64_t` that are read
pub record Header : Type 0 where
  pub magic : ℕ
  pub endianness : ℕ
  pub isa : ℕ
  pub entry : ℕ
  pub pht_pos : ℕ
  pub pht_entry_size : ℕ
  pub pht_entries : ℕ

unfoldable pub header_of : Bytes → Header
header_of b = record {
  magic = word32 b 0;
  endianness = b 5;
  isa = word16 b 18;
  entry = word64 b 24;
  pht_pos = word64 b 32;
  pht_entry_size = word16 b 54;
  pht_entries = word16 b 56;
}

-- `sizeof(elf64_t)` and `sizeof(elf64_phte_t)`
abbrev pub header_size : ℕ
header_size = 64

abbrev pub phte_size : ℕ
phte_size = 56

-- the entries of the table as it stands in the buffer
unfoldable pub pht_of : Bytes → (left first : ℕ) → List Segment
pht_of b zero first = []
pht_of b (suc left) first =
    let at = first * phte_size in
    record {
      kind = word32 b at;
      flags = word32 b (at + 4);
      p_offset = word64 b (at + 8);
      p_vaddr = word64 b (at + 16);
      p_memsz = word64 b (at + 40);
    }
    ∷ pht_of b left (first + 1)

-- `none` is -ENOEXEC. The number of bytes read is compared as an unsigned number.
unfoldable pub load_pht : Device → Header → Option (List Segment)
load_pht d h =
    let pht_size = h.pht_entries * h.pht_entry_size in
    let (n, b) = d.vfs_read_at h.pht_pos pht_size in
    if not (h.pht_entry_size == phte_size)
    then none
    else if ltb n pht_size
    then none
    else some (pht_of b h.pht_entries 0)

-- `loader_t`; the file is an argument of the functions. `held` is whether the lock is taken.
pub record Loader : Type 0 where
  pub entry_addr : ℕ
  pub header : Header
  pub pht : Option (List Segment)
  pub held : Bool
  pub refs : ℕ
  pub min_heap_break : ℕ

-- `load_heap_brk`, where the table is still to be read: an error returns with the lock held.
unfoldable pub start_heap : Option (List Segment) → Loader → Outcome Loader
start_heap none ldr = ok (record ldr { held = true; min_heap_break = 2 ^ 64 - 1 })
start_heap (some pht) ldr = do
  brk ← load_heap_brk pht
  ok (record ldr { pht = some pht; min_heap_break = brk })

-- ELF_ISA and ELF_ENDIANNESS of x86_64
unfoldable pub is_program : Header → Bool
is_program h = (h.magic == 0x464c457f) && (h.isa == 0x3e) && (h.endianness == 1)

-- `none` is NULL.
unfoldable pub loader_create : Device → Outcome (Option Loader)
loader_create d =
    let (n, b) = d.vfs_read_at 0 header_size in
    let h = header_of b in
    if leb (2 ^ 63) n then ok none else if not (is_program h) then ok none else (do
      ldr ← start_heap (load_pht d h) (record {
        entry_addr = h.entry;
        header = h;
        pht = none;
        held = false;
        refs = 1;
        min_heap_break = 0;
      })
      ok (some ldr))

-- `loader_load` with its lock, and with the table read first where it is not there yet
unfoldable pub loader_load_locked :
    Device → Loader → (virt_page : ℕ) → Phys → (pml4_ppn : ℕ) → Outcome (Bool × Loader × Phys)
loader_load_locked d ldr virt_page p root = if ldr.held then spinning else elim ldr.pht [
  | some pht ↦ do (loaded, p') ← loader_load d pht virt_page p root; ok (loaded, ldr, p')
  | none ↦ elim (load_pht d ldr.header) [
    | none ↦ ok (false, record ldr { held = true }, p)
    | some pht ↦ do
      (loaded, p') ← loader_load d pht virt_page p root
      ok (loaded, record ldr { pht = some pht }, p')
  ]
]

-- `none`: the last reference is gone, and the loader is freed.
unfoldable pub loader_release : Loader → Outcome (Option Loader)
loader_release ldr =
    if ldr.held
    then spinning
    else if (ldr.refs + 2 ^ 64 - 1) % 2 ^ 64 == 0
    then ok none
    else ok (some (record ldr { refs = (ldr.refs + 2 ^ 64 - 1) % 2 ^ 64 }))
