-- ===== src/Proc/Program.antt =====
-- kernel/kernel/sched/loader.c, kernel/kernel/mm/sbrk.c and kernel/kernel/mm/pagefault.c: the segments of
-- a program, its heap, and page faults. The locks are held round each body. The program header table
-- is the list of segments that `load_pht` has read.
pub mod Breaks
pub mod Faults
pub mod Loading
mod Tests
use ulmeros.Common.{
  ℕ, zero, suc, ◌+◌, ◌-◌, ◌*◌, ◌/◌, ◌%◌, ◌^◌, ◌≡◌, Bool, true, false, not, Option, none, some, List,
  [], ◌∷◌, ltb, leb, ◌==◌, ◌&&◌, if◌then◌else◌,
}
use ulmeros.Common.Outcome.{Outcome, ok, panic, spinning, ◌>>=◌}
use ulmeros.Mm.Page.{Phys, page_size, alloc_page, free_page}
use ulmeros.Arch.Vspace.{Flags, vspace_map, unmap_range}
use ulmeros.Fs.Ext2.{Bytes, Device}
use ulmeros.Proc.Userstack.{Userstack, stack_load}

-- `elf64_phte_t`; `kind` is its `type`
pub record Segment : Type 0 where
  pub kind : ℕ
  pub flags : ℕ
  pub p_offset : ℕ
  pub p_vaddr : ℕ
  pub p_memsz : ℕ

abbrev pub is_load : Segment → Bool
is_load s = s.kind == 1

abbrev pub end_of : Segment → ℕ
end_of s = (s.p_vaddr + s.p_memsz) % 2 ^ 64

-- the loop over the segments, with the break so far
heap_brk_from : List Segment → ℕ → ℕ
heap_brk_from [] min_heap_break = min_heap_break
heap_brk_from (s ∷ pht) min_heap_break = heap_brk_from pht (
    if is_load s && ltb min_heap_break (end_of s)
    then (end_of s / page_size + 1) * page_size % 2 ^ 64
    else min_heap_break)

-- Without a segment to load, the assertion fails.
pub load_heap_brk : List Segment → Outcome ℕ
unfolding heap_brk_from
load_heap_brk pht = if heap_brk_from pht 0 == 0 then panic else ok (heap_brk_from pht 0)

unfoldable pub in_segment : Segment → ℕ → Bool
in_segment s vaddr = is_load s && leb s.p_vaddr vaddr && ltb vaddr (end_of s)

-- the first segment to be loaded that has the address
unfoldable pub find_segment : List Segment → ℕ → Option Segment
find_segment [] vaddr = none
find_segment (s ∷ pht) vaddr =
    let rest = find_segment pht vaddr in if in_segment s vaddr then some s else rest

pub segment_flags : Segment → Flags
segment_flags s = record { no_exec = s.flags % 2 == 0; write = s.flags / 2 % 2 == 1; user = true }

-- how many bytes of the page are read from the file
pub read_size : Segment → (f_addr : ℕ) → ℕ
read_size s f_addr =
    if ltb (end_of s) ((f_addr + page_size) % 2 ^ 64)
    then (end_of s + 2 ^ 64 - f_addr) % 2 ^ 64
    else page_size

-- the words of a frame, all zero before, after `n` bytes are read into it
pub page_words : Bytes → (n i : ℕ) → ℕ
page_words b n i =
    byte 0
    + 2 ^ 8 * byte 1
    + 2 ^ 16 * byte 2
    + 2 ^ 24 * byte 3
    + 2 ^ 32 * byte 4
    + 2 ^ 40 * byte 5
    + 2 ^ 48 * byte 6
    + 2 ^ 56 * byte 7
  where
    byte : ℕ → ℕ
    byte k = if ltb (8 * i + k) n then b (8 * i + k) else 0

map_segment : Segment → (virt_page ppn : ℕ) → Phys → (pml4_ppn : ℕ) → Outcome (Bool × Phys)
map_segment s virt_page ppn p root =
    vspace_map p root virt_page ppn (segment_flags s) >>= λ p'. ok (true, p')

-- true is SUCCESS, and false EIO
pub loader_map_page :
    Device → Segment → (virt_page : ℕ) → Phys → (pml4_ppn : ℕ) → Outcome (Bool × Phys)
unfolding map_segment
loader_map_page d s virt_page p₀ root = do
  (ppn, p) ← alloc_page p₀
  let f_addr = virt_page * page_size % 2 ^ 64
  let n = read_size s f_addr
  let read_offset = (s.p_offset + f_addr + 2 ^ 64 - s.p_vaddr) % 2 ^ 64
  let (error, b) = d.vfs_read_at read_offset n
  (if ltb f_addr (end_of s)
      then (if leb n page_size
          then (if leb (2 ^ 63) error
              then (free_page p ppn >>= λ p'. ok (false, p'))
              else map_segment s virt_page ppn
                  (record p { frames = λ g i. if g == ppn then page_words b n i else p.frames g i })
                  root)
          else panic)
      else map_segment s virt_page ppn p root)

-- false where no segment has the page, or it cannot be read
pub loader_load :
    Device → List Segment → (virt_page : ℕ) → Phys → (pml4_ppn : ℕ) → Outcome (Bool × Phys)
loader_load d pht virt_page p root = elim (find_segment pht (virt_page * page_size % 2 ^ 64)) [
  | none ↦ ok (false, p)
  | some s ↦ loader_map_page d s virt_page p root
]

-- `increment` is a `ssize_t` as a number modulo 2 ^ 64.
pub new_break : (heap_brk increment min_heap_break : ℕ) → ℕ
new_break heap_brk increment min_heap_break =
    if ltb ((heap_brk + increment) % 2 ^ 64) min_heap_break
    then min_heap_break
    else (heap_brk + increment) % 2 ^ 64

-- The result, the new break, and memory. The break is never 0, so that the last page to unmap does not
-- wrap round.
pub sys_sbrk :
    (heap_brk min_heap_break increment : ℕ) → Phys → (pml4_ppn : ℕ) → Outcome (ℕ × ℕ × Phys)
sys_sbrk heap_brk min_heap_break increment p root =
    let brk = new_break heap_brk increment min_heap_break in
    let first_unmap = if brk % page_size == 0 then brk / page_size else brk / page_size + 1 in
    let last_unmap =
      if heap_brk % page_size == 0 then heap_brk / page_size - 1 else heap_brk / page_size in
    if heap_brk == 2 ^ 64 - 1
    then ok (2 ^ 64 - 1, heap_brk, p)
    else (if leb (2 ^ 63) increment
        then (unmap_range (last_unmap + 1 - first_unmap) first_unmap p root >>= λ p'.
            ok (heap_brk, brk, p'))
        else ok (heap_brk, brk, p))

abbrev pub heap_flags : Flags
heap_flags = record { no_exec = false; write = true; user = true }

-- true is SUCCESS, and false ENOENT
pub heap_load : (heap_brk min_heap_break addr : ℕ) → Phys → (pml4_ppn : ℕ) → Outcome (Bool × Phys)
heap_load heap_brk min_heap_break addr p root =
    if leb min_heap_break addr && ltb addr heap_brk
    then (do
      (ppn, p') ← alloc_page p
      p'' ← vspace_map p' root (addr / page_size) ppn heap_flags
      ok (true, p''))
    else ok (false, p)

-- A fault of a task that has a process: the stacks are asked first, then the heap, then the program.
pub page_fault :
    Device
    → List Segment
    → List Userstack
    → (heap_brk min_heap_break address : ℕ) → Phys
    → (pml4_ppn : ℕ) → Outcome (Bool × List Userstack × Phys)
page_fault d pht stacks heap_brk min_heap_break address p root = do
  (on_stack, stacks', p₁) ← stack_load stacks p root (address / page_size)
  (if on_stack then ok (true, stacks', p₁) else (do
    (on_heap, p₂) ← heap_load heap_brk min_heap_break address p₁ root
    (if on_heap then ok (true, stacks', p₂) else (do
      (loaded, p₃) ← loader_load d pht (address / page_size) p₂ root
      ok (loaded, stacks', p₃)))))
