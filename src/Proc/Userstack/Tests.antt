-- ===== src/Proc/Userstack/Tests.antt =====
-- Two stacks, the first of which is free again.
use ulmeros.Common.{ℕ, ◌+◌, ◌*◌, ◌≡◌, ◌≤◌, refl, Bool, true, false, List, [], ◌∷◌, arith}
use ulmeros.Common.Outcome.{ok}
use ulmeros.Mm.Page.{Phys}
use ulmeros.Proc.Userstack.{
  Userstack, stack_pages, break_page, start_page_of, create_stack, stack_load,
}
use ulmeros.Proc.Userstack.Slots.{AreSlots, Created, create_stack-Created, stacks-guarded}
use ulmeros.Proc.Userstack.Load.{stack_load-guard}

abbrev slot : ℕ → Bool → Userstack
slot i allocated = record {
  index = i;
  start_page = start_page_of i;
  page_count = stack_pages;
  stack_ptr = (start_page_of i + stack_pages) * 4096;
  allocated = allocated;
  pages_mapped = 0;
}

abbrev two_stacks : List Userstack
two_stacks = slot 0 false ∷ slot 1 true ∷ []

two_stacks-AreSlots : AreSlots 0 two_stacks
two_stacks-AreSlots = (
  record { index = refl; start_page = refl; page_count = refl },
  (record { index = refl; start_page = refl; page_count = refl }, tt),
)

abbrev memory : Phys
memory = record { free_pages = record { size = 0; bitmap = [] }; frames = λ q i. 0 }

create_stack-Created_example :
    Created 0 two_stacks (create_stack two_stacks).0 (create_stack two_stacks).1
create_stack-Created_example = create_stack-Created two_stacks two_stacks-AreSlots

stacks-guarded_example :
    (start_page_of 1 + stack_pages + stack_pages ≤ start_page_of 0)
    × (start_page_of 0 + stack_pages + stack_pages ≤ break_page)
stacks-guarded_example =
    stacks-guarded two_stacks 0 1 (slot 0 false) (slot 1 true) two_stacks-AreSlots (omega arith)
      refl refl (omega arith)

guard_refused :
    stack_load two_stacks memory 0 (start_page_of 1 + 10000) ≡ ok (false, two_stacks, memory)
guard_refused =
    stack_load-guard two_stacks memory 0 (start_page_of 1 + 10000) 1 two_stacks-AreSlots
      (omega arith) (omega arith) (omega arith) (omega arith)
