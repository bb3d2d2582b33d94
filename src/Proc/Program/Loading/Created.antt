-- ===== src/Proc/Program/Loading/Created.antt =====
-- What `loader_create` makes of a file.
use ulmeros.Common.{
  ℕ, ◌+◌, ◌*◌, ◌^◌, ◌≡◌, ◌≤◌, ◌<◌, ◌-◌, Bool, true, false, ◌&&◌, Option, none, some, List, leb,
  ◌==◌, if◌then◌else◌,
}
use ulmeros.Common.Outcome.{Outcome, ok, spinning, ◌>>=◌}
use ulmeros.Mm.Page.{Phys}
use ulmeros.Fs.Ext2.{Bytes, Device}
use ulmeros.Proc.Program.{Segment, load_heap_brk}
use ulmeros.Proc.Program.Loading.{
  Header, Loader, header_of, phte_size, pht_of, load_pht, start_heap, loader_load_locked,
  loader_release,
}

-- the bytes of a file from a position on
abbrev pub from : Bytes → ℕ → Bytes
from file offset i = file (offset + i)

-- The descriptor reads the file: from an offset in it, all that was asked for if it is there, and what is
-- left at the end.
pub record ReadsFile (d : Device) (file : Bytes) (length : ℕ) : Type 0 where
  pub count :
      (offset n : ℕ)
      → offset ≤ length
      → n < 2 ^ 63
      → (d.vfs_read_at offset n).0 ≡ (if leb (offset + n) length then n else length - offset)
  pub contents :
      (offset n i : ℕ)
      → offset + n ≤ length
      → n < 2 ^ 63
      → i < n
      → (d.vfs_read_at offset n).1 i ≡ file (offset + i)

-- The first `n` bytes are the same.
abbrev Agree : (n : ℕ) → (b c : Bytes) → Type 0
Agree n b c = (i : ℕ) → i < n → b i ≡ c i

-- The table of the header has entries of the right size, and lies in the file.
abbrev pub table_fits : Header → (length : ℕ) → Bool
table_fits h length =
    (h.pht_entry_size == phte_size) && leb (h.pht_pos + h.pht_entries * h.pht_entry_size) length

-- Whoever takes the lock of the loader waits for ever.
pub record IsStuck (d : Device) (ldr : Loader) : Type 0 where
  pub load :
      (virt_page : ℕ) (p : Phys) (root : ℕ) → loader_load_locked d ldr virt_page p root ≡ spinning
  pub release : loader_release ldr ≡ spinning

abbrev segments : Bytes → List Segment
segments file = let h = header_of (from file 0) in pht_of (from file h.pht_pos) h.pht_entries 0

-- the loader of a program whose table has been read
abbrev pub ready : Bytes → (min_heap_break : ℕ) → Loader
ready file min_heap_break =
    let h = header_of (from file 0) in
    record {
      entry_addr = h.entry;
      header = h;
      pht = some (pht_of (from file h.pht_pos) h.pht_entries 0);
      held = false;
      refs = 1;
      min_heap_break = min_heap_break;
    }

-- by whether the file is a program, and whether its table is there
abbrev pub Created : Device → Bytes → (program fits : Bool) → Outcome (Option Loader) → Type 0
Created d file false fits out = out ≡ ok none
Created d file true true out =
    out
    ≡ (load_heap_brk (segments file) >>= λ min_heap_break. ok (some (ready file min_heap_break)))
Created d file true false out = (ldr : Loader) × (out ≡ ok (some ldr)) × IsStuck d ldr

module _ (d : Device) (file : Bytes) (length : ℕ) (r : ReadsFile d file length)
    (below : length < 2 ^ 63) where
  -- the loader before its table is read
  abbrev fresh : Loader
  fresh =
      let h = header_of (from file 0) in
      record {
        entry_addr = h.entry;
        header = h;
        pht = none;
        held = false;
        refs = 1;
        min_heap_break = 0;
      }

  abbrev opened : Outcome (Option Loader)
  opened = start_heap (load_pht d (header_of (from file 0))) fresh >>= λ ldr. ok (some ldr)
