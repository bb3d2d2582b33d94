-- ===== src/Util/LinkedList/Walk.antt =====
-- The functions that walk the list: by index, by payload, and removal by index.
use ulmeros.Common.{
  ℕ, zero, suc, ◌+◌, ◌-◌, ◌<◌, ◌≤◌, ◌≡◌, ◌≢◌, refl, true, false, none, [], ◌∷◌, ◌++◌, arith, ◌==◌,
  if◌then◌else◌, length, ◌∙◌, ap, Bool-cases, inl, inr, sym, subst,
}
use ulmeros.Util.LinkedList.{
  Ptr, null, Heap, LinkedList, list_magic, list_get_index, get_index_from, list_find, find_from,
  list_remove, list_pop_front, list_it_remove,
}
use ulmeros.Util.LinkedList.Chain.{Cells, has, first_of, Linked, IsList, load-ok}
use ulmeros.Util.LinkedList.Remove.{list_it_remove-Removed}
use ulmeros.Common.Outcome.{Outcome, ok, panic}

-- address and payload at an index, NULL past the end
abbrev pub address_at : Cells → ℕ → Ptr
address_at [] i = null
address_at ((a, v) ∷ xs) zero = a
address_at ((a, v) ∷ xs) (suc i) = address_at xs i

abbrev pub payload_at : Cells → ℕ → Ptr
payload_at [] i = null
payload_at ((a, v) ∷ xs) zero = v
payload_at ((a, v) ∷ xs) (suc i) = payload_at xs i

abbrev pub remove_at : Cells → ℕ → Cells
remove_at [] i = []
remove_at (x ∷ xs) zero = xs
remove_at (x ∷ xs) (suc i) = x ∷ remove_at xs i

-- the address of the first item with the payload
abbrev pub address_of : Ptr → Cells → Ptr
address_of p [] = null
address_of p ((a, v) ∷ xs) = if v == p then a else address_of p xs

module _ (h : Heap) where
  get_index_from_lem :
      (fuel : ℕ) (prev : Ptr) (xs : Cells) (i : ℕ)
      → Linked h prev xs null
      → length xs < fuel
      → get_index_from fuel h (first_of xs null) i ≡ ok (address_at xs i)
  unfolding get_index_from
  get_index_from_lem zero prev xs i l k = absurd (omega arith)
  get_index_from_lem (suc fuel) prev [] i l k = refl
  get_index_from_lem (suc fuel) prev ((a, v) ∷ xs) zero (e, ne, out, l) k = ground arith
  get_index_from_lem (suc fuel) prev ((a, v) ∷ xs) (suc i) (e, ne, out, l) k =
      let some_item : (a == null) ≡ false = ground arith in
      let more : (suc i == 0) ≡ false = ground arith in
      let down : suc i - 1 ≡ i = omega arith in
      rw (some_item, more, load-ok h a _ ne e, down)
        (get_index_from_lem fuel a xs i l (omega arith))

  find_from_lem :
      (fuel : ℕ) (prev p : Ptr) (xs : Cells)
      → Linked h prev xs null
      → length xs < fuel
      → find_from fuel h p (first_of xs null) ≡ ok (address_of p xs)
  unfolding find_from
  find_from_lem zero prev p xs l k = absurd (omega arith)
  find_from_lem (suc fuel) prev p [] l k = refl
  find_from_lem (suc fuel) prev p ((a, v) ∷ xs) (e, ne, out, l) k =
      let some_item : (a == null) ≡ false = ground arith in
      rw (some_item, load-ok h a _ ne e)
        (elim (Bool-cases (v == p)) [
          | inl hit ↦ rw hit
          | inr miss ↦ rw miss (find_from_lem fuel a p xs l (omega arith))
        ])

  address_ne :
      (prev : Ptr) (xs : Cells) (i : ℕ)
      → Linked h prev xs null
      → i < length xs
      → address_at xs i ≢ null
  address_ne prev [] i l k = absurd (omega arith)
  address_ne prev ((a, v) ∷ xs) zero (e, ne, out, l) k = ne
  address_ne prev ((a, v) ∷ xs) (suc i) (e, ne, out, l) k = address_ne a xs i l (omega arith)

-- a sequence, cut at an index
cut :
    (xs : Cells) (i : ℕ)
    → i < length xs
    → (ys : Cells) × (v : Ptr) × (zs : Cells) × (xs ≡ ys ++ ((address_at xs i, v) ∷ zs))
      × (remove_at xs i ≡ ys ++ zs)
cut [] i k = absurd (omega arith)
cut ((a, v) ∷ xs) zero k = ([], v, xs, refl, refl)
cut ((a, v) ∷ xs) (suc i) k =
    let (ys, w, zs, e, f) = cut xs i (omega arith) in
    ((a, v) ∷ ys, w, zs, ap (λ l. (a, v) ∷ l) e, ap (λ l. (a, v) ∷ l) f)

module _ (h : Heap) (l : LinkedList) (xs : Cells) (is : IsList h l xs) where
  list_get_index_lem : (i : ℕ) → list_get_index l i h ≡ ok (address_at xs i)
  unfolding list_get_index
  list_get_index_lem i =
      let m : (l.magic == list_magic) ≡ true = ground (arith, is.magic) in
      rw (m, is.first, is.items)
        (get_index_from_lem h (length xs + 1) null xs i is.chain (omega arith))

  -- `list_find` returns the address of the first item with the payload, and NULL where no item has
  -- it: its loop ends.
  pub list_find_lem : (p : Ptr) → list_find l p h ≡ ok (address_of p xs)
  unfolding list_find
  list_find_lem p =
      let m : (l.magic == list_magic) ≡ true = ground (arith, is.magic) in
      rw (m, is.first, is.items) (find_from_lem h (length xs + 1) null p xs is.chain (omega arith))

  -- what `list_remove` promises at an index
  abbrev pub RemovedAt : ℕ → Outcome (LinkedList × Heap) → Type 0
  RemovedAt i out =
      (l' : LinkedList) × (h' : Heap) × (out ≡ ok (l', h'))
      × IsList h' l' (remove_at xs i)
      × (h' (address_at xs i) ≡ none)
      × ((b : Ptr) → has b xs ≡ false → h' b ≡ h b)

  -- `list_remove` at an index within the list takes out exactly the item at that index and frees it,
  -- and changes no memory outside the list.
  pub list_remove-remove_at : (i : ℕ) → i < length xs → RemovedAt i (list_remove l i h)
  unfolding list_remove
  list_remove-remove_at i k =
      let m : (l.magic == list_magic) ≡ true = ground (arith, is.magic) in
      let (ys, v, zs, e, f) = cut xs i k in
      let (l', h', r, is', gone, same) =
        list_it_remove-Removed h l ys (address_at xs i) v zs (subst (IsList h l) e is) in
      (
        l',
        h',
        rw (m, list_get_index_lem i, r),
        subst (IsList h' l') (sym f) is',
        gone,
        λ b o. same b (ap (has b) (sym e) ∙ o),
      )

  -- Past the end `list_remove` panics.
  pub list_remove_past : (i : ℕ) → length xs ≤ i → list_remove l i h ≡ panic
  unfolding list_remove list_it_remove
  list_remove_past i k =
      let m : (l.magic == list_magic) ≡ true = ground (arith, is.magic) in
      let past : address_at xs i ≡ null = address_past xs i k in rw (m, list_get_index_lem i, past)
    where
      address_past : (ys : Cells) (j : ℕ) → length ys ≤ j → address_at ys j ≡ null
      address_past [] j n = refl
      address_past (y ∷ ys) zero n = absurd (omega arith)
      address_past ((a, v) ∷ ys) (suc j) n = address_past ys j (omega arith)

-- On a list that is not empty `list_pop_front` removes the first item, and what it returns is the
-- address of that item, whose memory it has given back: not the payload, and not to be followed.
pub list_pop_front_dangling :
    (h : Heap) (l : LinkedList) (a v : Ptr) (xs : Cells)
    → IsList h l ((a, v) ∷ xs)
    → (l' : LinkedList) × (h' : Heap) × (list_pop_front l h ≡ ok (a, l', h'))
      × IsList h' l' xs
      × (h' a ≡ none)
unfolding list_pop_front
list_pop_front_dangling h l a v xs is =
    let m : (l.magic == list_magic) ≡ true = ground (arith, is.magic) in
    let nonempty : (l.items == 0) ≡ false = ground (arith, is.items) in
    let (l', h', r, is', gone, same) = list_remove-remove_at h l ((a, v) ∷ xs) is 0 (omega arith) in
    (l', h', rw (m, nonempty, r, is.first), is', gone)
