-- ===== src/Proc/Userstack/Slots.antt =====
-- `create_stack` and the slots: where the stacks lie, and the guards between them.
use ulmeros.Common.{
  ℕ, zero, suc, ◌+◌, ◌*◌, ◌^◌, ◌<◌, ◌≤◌, ◌≡◌, ◌≢◌, refl, sym, ap, ◌∙◌, subst, Bool, true, false,
  Option, none, some, List, [], ◌∷◌, ◌++◌, if◌then◌else◌, length, get_elem?, arith, Bool-cases, ◌⊎◌,
  inl, inr,
}
use ulmeros.Proc.Userstack.{
  Userstack, stack_pages, break_page, reuse, start_page_of, new_stack, create_stack,
}

-- The stack is the one of slot `k`.
pub record IsSlot (k : ℕ) (x : Userstack) : Type 0 where
  pub index : x.index ≡ k
  pub start_page : x.start_page ≡ start_page_of k
  pub page_count : x.page_count ≡ stack_pages

-- The stacks are those of the slots from `k` on, one after the other.
abbrev pub AreSlots : ℕ → List Userstack → Type 0
AreSlots k [] = Unit
AreSlots k (x ∷ xs) = IsSlot k x × AreSlots (k + 1) xs

-- what `create_stack` promises: a stack that was not allocated, or of a new slot, is allocated, and
-- every other one is as before
pub record Created (k : ℕ) (stacks : List Userstack) (x : Userstack) (stacks' : List Userstack)
    : Type 0 where
  pub slots : AreSlots k stacks'
  pub allocated : x.allocated ≡ true
  pub place : ℕ
  pub its_index : x.index ≡ k + place
  pub there : get_elem? stacks' place ≡ some x
  pub was_free :
      (get_elem? stacks place ≡ none)
      ⊎ ((y : Userstack) × (get_elem? stacks place ≡ some y) × (y.allocated ≡ false))
  pub others : (j : ℕ) → j ≢ place → get_elem? stacks' j ≡ get_elem? stacks j

at_head :
    (y x : Userstack) (xs : List Userstack) (j : ℕ)
    → j ≢ zero
    → get_elem? (y ∷ xs) j ≡ get_elem? (x ∷ xs) j
at_head y x xs zero n = absurd (n refl)
at_head y x xs (suc j) n = refl

below_head :
    (x : Userstack) (xs ys : List Userstack) (place : ℕ)
    → ((j : ℕ) → j ≢ place → get_elem? ys j ≡ get_elem? xs j)
    → (j : ℕ) → j ≢ suc place
    → get_elem? (x ∷ ys) j ≡ get_elem? (x ∷ xs) j
below_head x xs ys place h zero n = refl
below_head x xs ys place h (suc j) n = h j (λ e. n (ap suc e))

new_stack-IsSlot : (k : ℕ) → IsSlot k (new_stack k)
unfolding new_stack
new_stack-IsSlot k = record { index = refl; start_page = refl; page_count = refl }

-- what `reuse` promises of its result
abbrev Reused : ℕ → List Userstack → Option (Userstack × List Userstack) → Type 0
Reused k stacks none = Unit {0}
Reused k stacks (some (x, stacks')) = Created k stacks x stacks'

further :
    (k : ℕ) (x : Userstack) (xs : List Userstack) (o : Option (Userstack × List Userstack))
    → IsSlot k x
    → Reused (k + 1) xs o
    → Reused k (x ∷ xs) (elim o [ none ↦ none | some (y, ys) ↦ some (y, x ∷ ys) ])
further k x xs none s r = tt
further k x xs (some (y, ys)) s r = record {
  slots = (s, r.slots);
  allocated = r.allocated;
  place = suc r.place;
  its_index = r.its_index ∙ (omega arith);
  there = r.there;
  was_free = r.was_free;
  others = below_head x xs ys r.place r.others;
}

reuse-Reused :
    (k : ℕ) (stacks : List Userstack) → AreSlots k stacks → Reused k stacks (reuse stacks)
unfolding reuse
reuse-Reused k [] s = tt
reuse-Reused k (x ∷ xs) (s, more) = elim (Bool-cases x.allocated) [
  | inl taken ↦ by_case taken (further k x xs (reuse xs) s (reuse-Reused (k + 1) xs more))
  | inr free ↦ by_case free (record {
    slots =
        (record { index = s.index; start_page = s.start_page; page_count = s.page_count }, more);
    allocated = refl;
    place = zero;
    its_index = s.index ∙ (omega arith);
    there = refl;
    was_free = inr (x, refl, free);
    others = at_head _ x xs;
  })
]
  where
    found : Bool → Option (Userstack × List Userstack)
    found b =
        if b
        then elim (reuse xs) [ none ↦ none | some (y, ys) ↦ some (y, x ∷ ys) ]
        else some (record x { allocated = true }, record x { allocated = true } ∷ xs)

    by_case :
        {b : Bool}
        → x.allocated ≡ b
        → Reused k (x ∷ xs) (found b)
        → Reused k (x ∷ xs) (found x.allocated)
    by_case e r = subst (λ b. Reused k (x ∷ xs) (found b)) (sym e) r

-- A stack added at the end.
append-AreSlots :
    (k : ℕ) (stacks : List Userstack) (x : Userstack)
    → AreSlots k stacks
    → IsSlot (k + length stacks) x
    → AreSlots k (stacks ++ x ∷ [])
append-AreSlots k [] x s e = (subst (λ n. IsSlot n x) (omega arith) e, tt)
append-AreSlots k (y ∷ ys) x (s, more) e =
    (s, append-AreSlots (k + 1) ys x more (subst (λ n. IsSlot n x) (omega arith) e))

past_end : (stacks : List Userstack) → get_elem? stacks (length stacks) ≡ none
past_end [] = refl
past_end (x ∷ xs) = past_end xs

at_end :
    (stacks : List Userstack) (x : Userstack)
    → get_elem? (stacks ++ x ∷ []) (length stacks) ≡ some x
at_end [] x = refl
at_end (y ∷ ys) x = at_end ys x

not_end :
    (stacks : List Userstack) (x : Userstack) (j : ℕ)
    → j ≢ length stacks
    → get_elem? (stacks ++ x ∷ []) j ≡ get_elem? stacks j
not_end [] x zero n = absurd (n refl)
not_end [] x (suc j) n = refl
not_end (y ∷ ys) x zero n = refl
not_end (y ∷ ys) x (suc j) n = not_end ys x j (λ e. n (ap suc e))

-- `create_stack` keeps the slots, and gives an allocated stack whose index is its place in the list.
-- That place was free: the stack there was not allocated, or there was none. No other place changes.
pub create_stack-Created :
    (stacks : List Userstack)
    → AreSlots 0 stacks
    → Created 0 stacks (create_stack stacks).0 (create_stack stacks).1
unfolding create_stack new_stack
create_stack-Created stacks s = go (reuse stacks) (reuse-Reused 0 stacks s)
  where
    go :
        (o : Option (Userstack × List Userstack))
        → Reused 0 stacks o
        → let r : Userstack × List Userstack = elim o [
          | some found ↦ found
          | none ↦ (new_stack (length stacks), stacks ++ new_stack (length stacks) ∷ [])
        ] in
          Created 0 stacks r.0 r.1
    go (some (x, ys)) r = r
    go none r = record {
      slots = append-AreSlots 0 stacks (new_stack (length stacks)) s (
          subst (λ n. IsSlot n (new_stack (length stacks))) (omega arith)
            (new_stack-IsSlot (length stacks)));
      allocated = refl;
      place = length stacks;
      its_index = omega arith;
      there = at_end stacks _;
      was_free = inl (past_end stacks);
      others = λ j n. not_end stacks _ j n;
    }

-- the stack at a place is that of its slot
pub get-IsSlot :
    (k : ℕ) (stacks : List Userstack) (i : ℕ) (x : Userstack)
    → AreSlots k stacks
    → get_elem? stacks i ≡ some x
    → IsSlot (k + i) x × (i < length stacks)
get-IsSlot k [] i x s e = absurd (ground arith)
get-IsSlot k (y ∷ ys) zero x (s, more) e = (
  subst (λ n. IsSlot n x) (omega arith)
      (subst (IsSlot k) (ap (λ o. elim o [ none ↦ y | some z ↦ z ]) e) s),
  omega arith,
)
get-IsSlot k (y ∷ ys) (suc i) x (s, more) e =
    let (slot, below) = get-IsSlot (k + 1) ys i x more e in
    (subst (λ n. IsSlot n x) (omega arith) slot, omega arith)

pub start_page_of_lem :
    (i : ℕ) → i < 2 ^ 20 → start_page_of i + 2 * (i + 1) * stack_pages ≡ break_page
unfolding start_page_of
start_page_of_lem i h = omega arith

-- In a list of at most 2 ^ 20 stacks, of two stacks the one of the higher index lies below the other, with a guard as large as a stack
-- between them, and another guard lies above the first.
pub stacks-guarded :
    (stacks : List Userstack) (i j : ℕ) (x y : Userstack)
    → AreSlots 0 stacks
    → length stacks ≤ 2 ^ 20
    → get_elem? stacks i ≡ some x
    → get_elem? stacks j ≡ some y
    → i < j
    → (y.start_page + y.page_count + stack_pages ≤ x.start_page)
      × (x.start_page + x.page_count + stack_pages ≤ break_page)
stacks-guarded stacks i j x y s few at_i at_j below =
    let (slot_i, in_i) = get-IsSlot 0 stacks i x s at_i in
    let (slot_j, in_j) = get-IsSlot 0 stacks j y s at_j in
    let e_i = start_page_of_lem (0 + i) (omega arith) in
    let e_j = start_page_of_lem (0 + j) (omega arith) in
    (
      omega (arith, slot_i.start_page, slot_j.start_page, slot_j.page_count),
      omega (arith, slot_i.start_page, slot_i.page_count),
    )
