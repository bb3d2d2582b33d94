-- ===== src/Proc/Program/Tests.antt =====
-- A program with code, a note that is not loaded, and data.
use ulmeros.Common.{ℕ, List, [], ◌∷◌, arith}
use ulmeros.Common.{◌+◌, ◌*◌, ◌≡◌, refl, inr, false}
use ulmeros.Common.Outcome.{ok}
use ulmeros.Mm.Page.{Phys}
use ulmeros.Fs.Ext2.{Device}
use ulmeros.Proc.Userstack.{start_page_of}
use ulmeros.Proc.Program.Faults.{page_fault-guard}
use ulmeros.Proc.Program.{Segment, load_heap_brk, find_segment, in_segment, page_fault}
use ulmeros.Proc.Program.Breaks.{IsAbove, load_heap_brk-IsAbove}

abbrev segment : (kind p_vaddr p_memsz : ℕ) → Segment
segment kind p_vaddr p_memsz = record {
  kind = kind;
  flags = 5;
  p_offset = 0;
  p_vaddr = p_vaddr;
  p_memsz = p_memsz;
}

abbrev program : List Segment
program = segment 1 0x400000 0x1234 ∷ segment 4 0 0x20 ∷ segment 1 0x600000 0x3000 ∷ []

load_heap_brk-IsAbove_example : IsAbove program (load_heap_brk program)
load_heap_brk-IsAbove_example =
    load_heap_brk-IsAbove program (λ l. omega arith, (λ l. omega arith, (λ l. omega arith, tt)))

abbrev memory : Phys
memory = record { free_pages = record { size = 0; bitmap = [] }; frames = λ q i. 0 }

abbrev no_file : Device
no_file = record { vfs_read_at = λ offset len. (0, λ i. 0) }

page_fault-guard_example :
    page_fault no_file program [] 0x700000 0x604000 ((start_page_of 0 + 9000) * 4096) memory 0
    ≡ ok (false, [], memory)
unfolding find_segment in_segment start_page_of
page_fault-guard_example =
    page_fault-guard no_file program [] 0x700000 0x604000 ((start_page_of 0 + 9000) * 4096) memory 0
      0 tt (omega arith) (omega arith) (omega arith) (omega arith) (inr (omega arith)) refl
