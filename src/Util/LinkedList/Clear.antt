-- ===== src/Util/LinkedList/Clear.antt =====
-- `list_clear`: every item is freed, once, and the loop ends.
use ulmeros.Common.{
  ℕ, zero, suc, ◌≤◌, ◌≡◌, refl, Bool, true, false, ◌||◌, Option, none, [], ◌∷◌, arith, ◌==◌,
  if◌then◌else◌, length, ◌∙◌, ap,
}
use ulmeros.Util.LinkedList.{Ptr, Item, Heap, LinkedList, list_magic, list_clear, clear_from}
use ulmeros.Util.LinkedList.Chain.{Cells, has, IsList}
use ulmeros.Util.LinkedList.Walk.{list_remove-remove_at}
use ulmeros.Common.Outcome.{Outcome, ok}

-- what `list_clear` promises
abbrev pub Cleared : Cells → Heap → Outcome (LinkedList × Heap) → Type 0
Cleared xs h out =
    (l' : LinkedList) × (h' : Heap) × (out ≡ ok (l', h'))
    × IsList h' l' []
    × ((b : Ptr) → h' b ≡ (if has b xs then none else h b))

-- freeing one item (`t`) in front of the others (`u`)
freed_too :
    (t u : Bool) (mid old : Option Item)
    → (t ≡ true → mid ≡ none)
    → ((t || u) ≡ false → mid ≡ old)
    → (if u then none else mid) ≡ (if t || u then none else old)
freed_too true true mid old f g = refl
freed_too true false mid old f g = f refl
freed_too false true mid old f g = refl
freed_too false false mid old f g = g refl

clear_from-Cleared :
    (n : ℕ) (h : Heap) (l : LinkedList) (xs : Cells)
    → IsList h l xs
    → length xs ≤ n
    → Cleared xs h (clear_from n l h)
unfolding clear_from
clear_from-Cleared zero h l [] is k =
    let e : (l.items == 0) ≡ true = ground (arith, is.items) in (l, h, rw e, is, λ b. refl)
clear_from-Cleared (suc n) h l [] is k =
    let e : (l.items == 0) ≡ true = ground (arith, is.items) in (l, h, rw e, is, λ b. refl)
clear_from-Cleared zero h l (x ∷ xs) is k = absurd (omega arith)
clear_from-Cleared (suc n) h l ((a, v) ∷ xs) is k =
    let e : (l.items == 0) ≡ false = ground (arith, is.items) in
    let (l₁, h₁, r₁, is₁, gone, same) =
      list_remove-remove_at h l ((a, v) ∷ xs) is 0 (omega arith) in
    let (l₂, h₂, r₂, is₂, law) = clear_from-Cleared n h₁ l₁ xs is₁ (omega arith) in
    (
      l₂,
      h₂,
      rw (e, r₁, r₂),
      is₂,
      λ b.
          law b
          ∙ freed_too (b == a) (has b xs) (h₁ b) (h b)
              (λ i. ap h₁ {x = b} {y = a} (ground arith) ∙ gone) (same b),
    )

-- `list_clear` ends, leaves the empty list, frees every item of the list, and changes no other
-- memory.
pub list_clear-Cleared :
    (h : Heap) (l : LinkedList) (xs : Cells) → IsList h l xs → Cleared xs h (list_clear l h)
unfolding list_clear
list_clear-Cleared h l xs is =
    let m : (l.magic == list_magic) ≡ true = ground (arith, is.magic) in
    let (l', h', r, is', law) = clear_from-Cleared l.items h l xs is (omega (arith, is.items)) in
    (l', h', rw (m, r), is', law)
