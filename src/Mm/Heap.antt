-- ===== src/Mm/Heap.antt =====
-- kernel/kernel/mm/heap.c: the kernel heap, a doubly linked list of blocks that lie one after another
-- from `heap_start` to the break. Each block starts with its header. Headers are kept by address; the
-- bytes of a block behind its header are its owner's. Each body runs under `kheap_mutex`.
pub mod Chain
pub mod Blocks
pub mod Splice
pub mod Reuse
pub mod Grow
pub mod Malloc
pub mod Merge
pub mod Settle
pub mod Trim
pub mod Free
pub mod Pieces
mod Tests
use ulmeros.Common.{
  ℕ, zero, suc, ◌+◌, ◌-◌, ◌*◌, ◌/◌, ◌%◌, ◌^◌, Bool, true, false, Option, none, some, ltb, leb, ◌==◌,
  if◌then◌else◌, ◌&&◌, ◌||◌, not,
}
use ulmeros.Common.Outcome.{Outcome, ok, panic, spinning, ◌>>=◌, ◌>>◌, assert}
use ulmeros.Mm.Page.{Phys, page_size, alloc_page}
use ulmeros.Arch.Vspace.{Flags, vspace_map, unmap_range}

-- `hblock_t`, without the file and line of the call that the debug build notes in it. The pointers are
-- addresses, and 0 is NULL.
pub record Header : Type 0 where
  pub available : Bool
  pub magic : ℕ
  pub prev : ℕ
  pub next : ℕ
  pub size : ℕ

abbrev pub heap_magic : ℕ
heap_magic = 0xabcdefab

-- `sizeof(hblock_t)` of the debug build, packed
abbrev pub header_size : ℕ
header_size = 44

-- arch/definitions.h
abbrev pub kheap_start : ℕ
kheap_start = 0xffffe00000000000

-- The three pointers of the file, the headers in memory, and the physical pages behind the heap.
pub record KHeap : Type 0 where
  pub headers : ℕ → Header
  pub heap_start : ℕ
  pub heap_last : ℕ
  pub kheap_break : ℕ
  pub phys : Phys

-- `size_t` and pointer arithmetic
unfoldable pub add64 : ℕ → ℕ → ℕ
add64 a b = (a + b) % 2 ^ 64

unfoldable pub sub64 : ℕ → ℕ → ℕ
sub64 a b = (a + 2 ^ 64 - b) % 2 ^ 64

unfoldable pub put : KHeap → ℕ → Header → KHeap
put s p x = record s { headers = λ q. if q == p then x else s.headers q }

-- The first page that starts at an address or above it.
first_page : ℕ → ℕ
first_page address =
    if address % page_size == 0 then address / page_size else address / page_size + 1

-- `vspace_map(VSPACE_KERNEL, page, alloc_page(), PG_NOEXEC|PG_WRITE)` for the pages left
map_range : (pages page : ℕ) → Phys → (pml4_ppn : ℕ) → Outcome Phys
map_range zero page p root = ok p
map_range (suc pages) page p root = alloc_page p >>= λ (ppn, p').
    vspace_map p' root page ppn (record { no_exec = true; write = true; user = false }) >>= λ p''.
    map_range pages (page + 1) p'' root

-- The two loops of `kbrk`, from the old break to the new one.
pub resize : (pml4_ppn : ℕ) → Phys → (orig_brk new_brk : ℕ) → Outcome Phys
unfolding first_page map_range
resize root p orig_brk new_brk =
    if ltb new_brk orig_brk
    then unmap_range (orig_brk / page_size + 1 - first_page new_brk) (first_page new_brk) p root
    else map_range (new_brk / page_size + 1 - first_page orig_brk) (first_page orig_brk) p root

-- Returns the old break. A negative increment is the number less 2^64.
pub kbrk : (pml4_ppn : ℕ) → KHeap → (increment : ℕ) → Outcome (ℕ × KHeap)
kbrk root s increment = do
  let new_brk = add64 s.kheap_break increment
  p ← resize root s.phys s.kheap_break new_brk
  ok (s.kheap_break, record s { kheap_break = new_brk; phys = p })

-- What follows a block learns that the block is before it, or the block is the last one.
unfoldable pub link_back : KHeap → ℕ → KHeap
link_back s b =
    let next = (s.headers b).next in
    if next == 0
    then record s { heap_last = b }
    else put s next (record (s.headers next) { prev = b })

split : KHeap → (block new_size excess_size : ℕ) → KHeap
split s block new_size excess_size =
    let rest = add64 block new_size in
    let original_next = (s.headers block).next in
    let s' = put s block (record (s.headers block) { size = new_size; next = rest }) in
    link_back
      (put s' rest (record {
        available = true;
        magic = heap_magic;
        prev = block;
        next = original_next;
        size = excess_size;
      }))
      rest

pub crop : KHeap → (block new_size : ℕ) → KHeap
crop s block new_size =
    let excess_size = sub64 (s.headers block).size new_size in
    if leb excess_size header_size then s else split s block new_size excess_size

-- The search of `_kmalloc`: the first free block that is large enough.
pub find_block : (fuel : ℕ) → (ℕ → Header) → (entry required_size : ℕ) → Outcome (Option ℕ)
find_block zero headers entry required_size = spinning
find_block (suc fuel) headers entry required_size =
    let rest = find_block fuel headers (headers entry).next required_size in
    if entry == 0
    then ok none
    else if (headers entry).magic == heap_magic
    then (if (headers entry).available && leb required_size (headers entry).size
        then ok (some entry)
        else rest)
    else panic

-- The new block at the old break.
pub append_block : KHeap → (blk required_size : ℕ) → KHeap
append_block s blk required_size =
    let s' = put s blk (record {
      available = false;
      magic = heap_magic;
      prev = s.heap_last;
      next = 0;
      size = required_size;
    }) in
    let s'' =
      if s.heap_last == 0
      then s'
      else put s' s.heap_last (record (s'.headers s.heap_last) { next = blk }) in
    record s'' { heap_last = blk; heap_start = if s.heap_start == 0 then blk else s.heap_start }

use_block : (pml4_ppn : ℕ) → KHeap → (required_size : ℕ) → Option ℕ → Outcome (ℕ × KHeap)
use_block root s required_size (some entry) = ok (
  add64 entry header_size,
  crop (put s entry (record (s.headers entry) { available = false })) entry required_size,
)
use_block root s required_size none = do
  (blk, s') ← kbrk root s required_size
  if blk == 2 ^ 64 - 1
      then ok (0, s')
      else ok (add64 blk header_size, append_block s' blk required_size)

-- `_kmalloc`: the address of the memory, and 0 for none. The list has no more blocks than the heap has
-- bytes.
pub kmalloc : (pml4_ppn : ℕ) → KHeap → (size : ℕ) → Outcome (ℕ × KHeap)
kmalloc root s size = do
  let required_size = add64 header_size size
  found ← find_block (suc s.kheap_break) s.headers s.heap_start required_size
  use_block root s required_size found

pub merge_blocks : KHeap → (first second : ℕ) → Outcome KHeap
merge_blocks s first second = do
  assert ((s.headers first).magic == heap_magic && (s.headers second).magic == heap_magic)
  let joined = record (s.headers first) {
    size = add64 (s.headers first).size (s.headers second).size;
    next = (s.headers second).next;
  }
  let s' = link_back (put s first joined) first
  ok (put s' second (record (s'.headers second) { magic = 0 }))

-- `if (tofree->next != NULL && tofree->next->available)`
pub merge_next : KHeap → (tofree : ℕ) → Outcome KHeap
merge_next s tofree =
    let next = (s.headers tofree).next in
    if next == 0
    then ok s
    else if (s.headers next).available
    then merge_blocks s tofree next
    else ok s

pub merge_prev : KHeap → (tofree : ℕ) → Outcome KHeap
merge_prev s tofree =
    let prev = (s.headers tofree).prev in
    if prev == 0
    then ok s
    else if (s.headers prev).available
    then merge_blocks s prev tofree
    else ok s

-- The body of the last loop of `kfree`, for the last block.
pub drop_last : KHeap → KHeap
drop_last s =
    let last = s.heap_last in
    let prev = (s.headers last).prev in
    let s' = put s last (record (s.headers last) { magic = 0 }) in
    if prev == 0
    then record s' { heap_start = 0; heap_last = 0 }
    else record (put s' prev (record (s'.headers prev) { next = 0 })) { heap_last = prev }

pub trim : (fuel pml4_ppn : ℕ) → KHeap → Outcome KHeap
trim zero root s = spinning
trim (suc fuel) root s =
    let again = do
      (_, s') ← kbrk root (drop_last s) (sub64 0 (s.headers s.heap_last).size)
      trim fuel root s'
    in if s.heap_last == 0 then ok s else if (s.headers s.heap_last).available then again else ok s

pub kfree : (pml4_ppn : ℕ) → KHeap → (ptr : ℕ) → Outcome KHeap
kfree root s ptr =
    let tofree = sub64 ptr header_size in
    let block = s.headers tofree in
    let released = do
      assert (
          not (
            s.heap_last == 0
            || s.heap_start == 0
            || ltb ptr s.heap_start
            || ltb (add64 s.heap_last header_size) ptr))
      assert (block.magic == heap_magic && not block.available)
      s₁ ← merge_next (put s tofree (record block { available = true })) tofree
      s₂ ← merge_prev s₁ tofree
      trim (suc s.kheap_break) root s₂
    in if ptr == 0 then ok s else released
