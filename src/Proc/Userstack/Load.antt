-- ===== src/Proc/Userstack/Load.antt =====
-- `stack_load` at the pages of the guards.
use ulmeros.Common.{
  ℕ, zero, suc, ◌+◌, ◌*◌, ◌^◌, ◌<◌, ◌≤◌, ◌≡◌, refl, ap, false, some, List, [], ◌∷◌, length,
  get_elem?, arith, Bool-cases, ◌⊎◌, inl, inr,
}
use ulmeros.Common.Outcome.{ok, ◌>>=◌}
use ulmeros.Mm.Page.{Phys}
use ulmeros.Proc.Userstack.{Userstack, stack_pages, start_page_of, has_page, stack_load}
use ulmeros.Proc.Userstack.Slots.{AreSlots, get-IsSlot, start_page_of_lem}

-- At a page that no stack has, nothing is loaded.
load_none :
    (stacks : List Userstack) (p : Phys) (root page : ℕ)
    → ((i : ℕ) (x : Userstack) → get_elem? stacks i ≡ some x → has_page x page ≡ false)
    → stack_load stacks p root page ≡ ok (false, stacks, p)
unfolding stack_load
load_none [] p root page h = refl
load_none (x ∷ xs) p root page h =
    rw (h zero x refl)
      (ap (λ o. o >>= λ (l, ys, q). ok (l, x ∷ ys, q)) (load_none xs p root page (λ i. h (suc i))))

outside :
    (x : Userstack) (page : ℕ)
    → (page < x.start_page) ⊎ (x.start_page + x.page_count ≤ page)
    → has_page x page ≡ false
unfolding has_page
outside x page h = elim (Bool-cases x.allocated) [ inl e ↦ ground arith | inr e ↦ rw e ]

-- A fault at a page of the guard above the stack of any of the first 2 ^ 20 slots, where the stacks are
-- no more, is refused: `stack_load` returns
-- ENOENT, and changes neither the stacks nor memory.
pub stack_load-guard :
    (stacks : List Userstack) (p : Phys) (root page n : ℕ)
    → AreSlots 0 stacks
    → length stacks ≤ 2 ^ 20
    → n < 2 ^ 20
    → start_page_of n + stack_pages ≤ page
    → page < start_page_of n + 2 * stack_pages
    → stack_load stacks p root page ≡ ok (false, stacks, p)
stack_load-guard stacks p root page n s few slot above below = load_none stacks p root page apart
  where
    apart : (i : ℕ) (x : Userstack) → get_elem? stacks i ≡ some x → has_page x page ≡ false
    apart i x e =
        let (is, within) = get-IsSlot 0 stacks i x s e in
        let e_i = start_page_of_lem (0 + i) (omega arith) in
        let e_n = start_page_of_lem n slot in
        outside x page (ground (arith, is.start_page, is.page_count))
