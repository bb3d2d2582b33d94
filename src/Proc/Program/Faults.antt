-- ===== src/Proc/Program/Faults.antt =====
-- Page faults that no part of the process answers for.
use ulmeros.Common.{
  ℕ, ◌+◌, ◌*◌, ◌/◌, ◌%◌, ◌^◌, ◌<◌, ◌≤◌, ◌≡◌, ap, Bool, false, none, some, List, ltb, leb, ◌&&◌,
  length, arith, ◌⊎◌,
}
use ulmeros.Common.Outcome.{Outcome, ok}
use ulmeros.Mm.Page.{Phys, page_size}
use ulmeros.Fs.Ext2.{Device}
use ulmeros.Proc.Userstack.{Userstack, stack_pages, start_page_of}
use ulmeros.Proc.Userstack.Slots.{AreSlots}
use ulmeros.Proc.Userstack.Load.{stack_load-guard}
use ulmeros.Proc.Program.{
  Segment, find_segment, heap_load, loader_load, loader_map_page, page_fault,
}

heap_load-outside :
    (brk min addr : ℕ) (p : Phys) (root : ℕ)
    → (addr < min) ⊎ (brk ≤ addr)
    → heap_load brk min addr p root ≡ ok (false, p)
unfolding heap_load
heap_load-outside brk min addr p root h =
    let out : (leb min addr && ltb addr brk) ≡ false = ground arith in rw out

loader_load-outside :
    (d : Device) (pht : List Segment) (page : ℕ) (p : Phys) (root : ℕ)
    → find_segment pht (page * page_size % 2 ^ 64) ≡ none
    → loader_load d pht page p root ≡ ok (false, p)
unfolding loader_load
loader_load-outside d pht page p root e =
    ap
      (λ o. elim o as (λ x. Outcome (Bool × Phys)) [
        | none ↦ ok (false, p)
        | some s ↦ loader_map_page d s page p root
      ])
      e

-- A fault in the guard above the stack of any of the first 2 ^ 20 slots, where the stacks are no
-- more, at an address that is in no segment of the program
-- and not in the heap, is refused, and changes neither the stacks nor memory: a stack that overflows
-- into its guard is not continued.
pub page_fault-guard :
    (d : Device) (pht : List Segment) (stacks : List Userstack) (brk min address : ℕ) (p : Phys)
    (root n : ℕ)
    → AreSlots 0 stacks
    → length stacks ≤ 2 ^ 20
    → n < 2 ^ 20
    → start_page_of n + stack_pages ≤ address / page_size
    → address / page_size < start_page_of n + 2 * stack_pages
    → (address < min) ⊎ (brk ≤ address)
    → find_segment pht (address / page_size * page_size % 2 ^ 64) ≡ none
    → page_fault d pht stacks brk min address p root ≡ ok (false, stacks, p)
unfolding page_fault
page_fault-guard d pht stacks brk min address p root n s few slot above below heap program =
    let e₁ = stack_load-guard stacks p root (address / page_size) n s few slot above below in
    let e₂ = heap_load-outside brk min address p root heap in
    let e₃ = loader_load-outside d pht (address / page_size) p root program in rw (e₁, e₂, e₃)
