-- ===== src/Proc/Userstack.antt =====
-- kernel/kernel/sched/userstack.c: the stacks of a process, in the order of its `stack_list`, whose
-- lock is held round each body. The list itself is the one of Util/LinkedList.
pub mod Slots
pub mod Load
mod Tests
use ulmeros.Common.{
  ℕ, zero, suc, ◌+◌, ◌-◌, ◌*◌, ◌/◌, ◌%◌, ◌^◌, ◌≡◌, Bool, true, false, Option, none, some, List, [],
  ◌∷◌, ◌++◌, ltb, leb, ◌&&◌, if◌then◌else◌, length, get_elem?, set,
}
use ulmeros.Common.Outcome.{Outcome, ok, panic, spinning, ◌>>=◌}
use ulmeros.Mm.Page.{Phys, alloc_page}
use ulmeros.Arch.Vspace.{Flags, vspace_map, vspace_unmap}

-- `stack_ptr` is the first address after the stack.
pub record Userstack : Type 0 where
  pub index : ℕ
  pub start_page : ℕ
  pub page_count : ℕ
  pub stack_ptr : ℕ
  pub allocated : Bool
  pub pages_mapped : ℕ

-- STACK_SIZE / PAGE_SIZE, and the page of USER_BREAK
abbrev pub stack_pages : ℕ
stack_pages = 8192

abbrev pub break_page : ℕ
break_page = 2 ^ 35

-- the first stack that is not allocated, and the list with it allocated
reuse : List Userstack → Option (Userstack × List Userstack)
reuse [] = none
reuse (x ∷ xs) =
    let rest = reuse xs in
    if x.allocated
    then elim rest [ none ↦ none | some (y, ys) ↦ some (y, x ∷ ys) ]
    else some (record x { allocated = true }, record x { allocated = true } ∷ xs)

unfoldable pub start_page_of : ℕ → ℕ
start_page_of index = (break_page + 2 ^ 64 - 2 * (index + 1) * stack_pages % 2 ^ 64) % 2 ^ 64

pub new_stack : ℕ → Userstack
new_stack index = record {
  index = index;
  start_page = start_page_of index;
  page_count = stack_pages;
  stack_ptr = (start_page_of index + stack_pages) * 4096 % 2 ^ 64;
  allocated = true;
  pages_mapped = 0;
}

pub create_stack : List Userstack → Userstack × List Userstack
unfolding reuse
create_stack stacks = elim (reuse stacks) [
  | some found ↦ found
  | none ↦ (new_stack (length stacks), stacks ++ new_stack (length stacks) ∷ [])
]

-- whether a stack is allocated and has the page
unfoldable pub has_page : Userstack → ℕ → Bool
has_page x virt_page =
    x.allocated && leb x.start_page virt_page && ltb virt_page (x.start_page + x.page_count)

abbrev pub stack_flags : Flags
stack_flags = record { no_exec = true; write = true; user = true }

-- true is SUCCESS, and false ENOENT
pub stack_load :
    List Userstack → Phys → (pml4_ppn virt_page : ℕ) → Outcome (Bool × List Userstack × Phys)
stack_load [] p root virt_page = ok (false, [], p)
stack_load (x ∷ xs) p root virt_page =
    let rest = stack_load xs p root virt_page in
    if has_page x virt_page
    then (do
      (ppn, p') ← alloc_page p
      p'' ← vspace_map p' root virt_page ppn stack_flags
      ok (true, record x { pages_mapped = x.pages_mapped + 1 } ∷ xs, p''))
    else (do (loaded, ys, p') ← rest; ok (loaded, x ∷ ys, p'))

-- `while (stack->pages_mapped)`, downwards from a page
unmap_stack : (fuel pages_mapped page : ℕ) → Phys → (pml4_ppn : ℕ) → Outcome Phys
unmap_stack fuel zero page p root = ok p
unmap_stack zero (suc n) page p root = spinning
unmap_stack (suc fuel) (suc n) page p root = vspace_unmap p root page >>= λ (unmapped, p').
    unmap_stack fuel (if unmapped then n else suc n) ((page + (2 ^ 64 - 1)) % 2 ^ 64) p' root

-- The stacks at the end of the list that are not allocated are removed.
pub trim : List Userstack → List Userstack
trim [] = []
trim (x ∷ xs) = elim (trim xs) [ [] ↦ if x.allocated then x ∷ [] else [] | y ∷ ys ↦ x ∷ y ∷ ys ]

delete_found :
    Option Userstack
    → (fuel : ℕ) → List Userstack
    → Phys
    → (pml4_ppn index : ℕ) → Outcome (List Userstack × Phys)
unfolding unmap_stack
delete_found none fuel stacks p root index = panic
delete_found (some x) fuel stacks p root index =
    if x.allocated
    then (do
      p' ← unmap_stack fuel x.pages_mapped (x.start_page + x.page_count - 1) p root
      ok (trim (set stacks index (record x { allocated = false; pages_mapped = 0 })), p'))
    else panic

-- The list position is the index: stacks are only added and removed at the end.
pub delete_stack :
    (fuel : ℕ) → List Userstack → Phys → (pml4_ppn index : ℕ) → Outcome (List Userstack × Phys)
unfolding delete_found
delete_stack fuel stacks p root index =
    delete_found (get_elem? stacks index) fuel stacks p root index
