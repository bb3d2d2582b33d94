-- ===== src/Util/LinkedList/Remove.antt =====
-- `list_it_remove`: unlinking and freeing one item.
use ulmeros.Common.{
  ◌-◌, ◌≡◌, refl, true, false, ◌||◌, none, [], ◌∷◌, ◌++◌, arith, ◌==◌, if◌then◌else◌, ◌∙◌,
  Bool-cases, inl, inr, length-append, sym,
}
use ulmeros.Util.LinkedList.{
  Ptr, null, Heap, LinkedList, list_magic, write, with_next, with_prev, set_next, set_prev,
  list_it_remove,
}
use ulmeros.Util.LinkedList.Chain.{
  Cells, has, first_of, last_of, Linked, IsList, Apart, has-last_of, frame, join, relink_last,
  relink_first, live_in, ne_of_has, last_of-append, has-append, split, set_next-ok, set_prev-ok,
  load-ok,
}
use ulmeros.Common.Outcome.{Outcome, ok}

-- memory after the neighbour before, and the neighbour after, has been relinked
left : Heap → Cells → Ptr → Heap
left h [] q = h
left h ((a, v) ∷ xs) q = with_next h (last_of a xs) q

right : Heap → Cells → Ptr → Heap
right h [] q = h
right h ((a, v) ∷ ys) q = with_prev h a q

-- A command that relinks one end of a segment: what it returns, the segment it leaves, and that it
-- changes nothing else.
abbrev Relinks : Heap → Cells → Ptr → Ptr → Outcome Heap → Heap → Type 0
Relinks h xs prev stop out h' =
    (out ≡ ok h') × Linked h' prev xs stop × ((b : Ptr) → has b xs ≡ false → h' b ≡ h b)

module _ (h : Heap) where
  left-Relinks :
      (xs : Cells) (stop q : Ptr)
      → Linked h null xs stop
      → Relinks h xs null q
          (if last_of null xs == null then ok h else set_next h (last_of null xs) q)
          (left h xs q)
  unfolding left
  left-Relinks [] stop q l = (refl, tt, λ b o. refl)
  left-Relinks ((a, v) ∷ xs) stop q l =
      let inside = has-last_of a v xs in
      let live = live_in h null ((a, v) ∷ xs) stop (last_of a xs) l inside in
      let some_last : (last_of a xs == null) ≡ false = ground arith in
      (
        rw (some_last, set_next-ok h (last_of a xs) q live),
        relink_last h null a v xs stop q l,
        λ b o.
            let far : (b == last_of a xs) ≡ false =
              ne_of_has b (last_of a xs) ((a, v) ∷ xs) o inside in
            unfold with_next in rw far,
      )

  right-Relinks :
      (ys : Cells) (prev q : Ptr)
      → Linked h prev ys null
      → Relinks h ys q null
          (if first_of ys null == null then ok h else set_prev h (first_of ys null) q)
          (right h ys q)
  unfolding right
  right-Relinks [] prev q l = (refl, tt, λ b o. refl)
  right-Relinks ((a, v) ∷ ys) prev q l =
      let live = live_in h prev ((a, v) ∷ ys) null a l (ground arith) in
      let some_first : (a == null) ≡ false = ground arith in
      (
        rw (some_first, set_prev-ok h a q live),
        relink_first h prev q a v ys null l,
        λ b o. unfold with_prev in ground arith,
      )

first_after :
    (a v : Ptr) (xs ys : Cells)
    → has a xs ≡ false
    → (if first_of (xs ++ ((a, v) ∷ ys)) null == a
        then first_of ys null
        else first_of (xs ++ ((a, v) ∷ ys)) null)
      ≡ first_of (xs ++ ys) null
first_after a v [] ys out = ground arith
first_after a v ((b, w) ∷ xs) ys out = ground arith

last_after :
    (a v : Ptr) (xs ys : Cells)
    → has a ys ≡ false
    → (if last_of null (xs ++ ((a, v) ∷ ys)) == a
        then last_of null xs
        else last_of null (xs ++ ((a, v) ∷ ys)))
      ≡ last_of null (xs ++ ys)
last_after a v xs [] out =
    rw (last_of-append null xs ((a, v) ∷ []), last_of-append null xs []) (ground arith)
last_after a v xs ((b, w) ∷ ys) out =
    let other : (a == last_of b ys) ≡ false =
      ne_of_has a (last_of b ys) ((b, w) ∷ ys) out (has-last_of b w ys) in
    rw (last_of-append null xs ((a, v) ∷ (b, w) ∷ ys), last_of-append null xs ((b, w) ∷ ys))
      (ground arith)

write_off : (h : Heap) (a b : Ptr) → (b == a) ≡ false → write h a none b ≡ h b
unfolding write
write_off h a b far = rw far

write_at : (h : Heap) (a : Ptr) → write h a none a ≡ none
unfolding write
write_at h a = ground arith

-- what `list_it_remove` promises
abbrev pub Removed : Cells → Ptr × Ptr → Cells → Heap → Outcome (LinkedList × Heap) → Type 0
Removed xs (a, v) ys h out =
    (l' : LinkedList) × (h' : Heap) × (out ≡ ok (l', h'))
    × IsList h' l' (xs ++ ys)
    × (h' a ≡ none)
    × ((b : Ptr) → has b (xs ++ ((a, v) ∷ ys)) ≡ false → h' b ≡ h b)

-- `list_it_remove` of an item of a list succeeds, takes that item out of the sequence and keeps the
-- order of the others, frees the item, and changes no memory outside the list.
pub list_it_remove-Removed :
    (h : Heap) (l : LinkedList) (xs : Cells) (a v : Ptr) (ys : Cells)
    → IsList h l (xs ++ ((a, v) ∷ ys))
    → Removed xs (a, v) ys h (list_it_remove l a h)
unfolding list_it_remove
list_it_remove-Removed h l xs a v ys is =
    let (l₁, (e, ne, out, l₂), apart) = split h null xs ((a, v) ∷ ys) null is.chain in
    let not_left : has a xs ≡ false = apart_back xs ((a, v) ∷ ys) a apart (ground arith) in
    let (r₁, s₁, same₁) = left-Relinks h xs a (first_of ys null) l₁ in
    let h₁ = left h xs (first_of ys null) in
    let t₁ =
      frame h h₁ a ys null l₂
        (λ b i. same₁ b (apart_back xs ((a, v) ∷ ys) b apart (ground arith))) in
    let (r₂, s₂, same₂) = right-Relinks h₁ ys a (last_of null xs) t₁ in
    let h₂ = right h₁ ys (last_of null xs) in
    let t₂ = frame h₁ h₂ null xs (first_of ys null) s₁ (λ b i. same₂ b (ground (arith, apart b))) in
    let h' = write h₂ a none in
    let u₁ =
      frame h₂ h' null xs (first_of ys null) t₂
        (λ b i. write_off h₂ a b (ground (arith, apart b))) in
    let u₂ =
      frame h₂ h' (last_of null xs) ys null s₂
        (λ b i. write_off h₂ a b (ground (arith, ne_of_has a b ys out i))) in
    let m : (l.magic == list_magic) ≡ true = ground (arith, is.magic) in
    let some_item : (a == null) ≡ false = ground arith in
    let first = is.first in
    let last = is.last in
    (
      record l {
        items = l.items - 1;
        first = if l.first == a then first_of ys null else l.first;
        last = if l.last == a then last_of null xs else l.last;
      },
      h',
      rw (m, some_item, load-ok h a _ ne e, r₁, r₂),
      record {
        magic = is.magic;
        items = omega (arith, is.items, length-append xs ((a, v) ∷ ys), length-append xs ys);
        first = rw first (first_after a v xs ys not_left);
        last = rw last (last_after a v xs ys out);
        chain = join h' null xs ys null u₁ u₂ (λ b i. ground (arith, apart b));
      },
      write_at h₂ a,
      λ b o.
          let off : (has b xs || has b ((a, v) ∷ ys)) ≡ false =
            sym (has-append b xs ((a, v) ∷ ys)) ∙ o in
          write_off h₂ a b (ground arith) ∙ same₂ b (ground arith) ∙ same₁ b (ground arith),
    )
  where
    apart_back : (xs ys : Cells) (b : Ptr) → Apart xs ys → has b ys ≡ true → has b xs ≡ false
    apart_back xs ys b apart i = elim (Bool-cases (has b xs)) [
      | inl j ↦ absurd (cc (apart b j))
      | inr o ↦ o
    ]
