-- ===== src/Util/LinkedList/Edit.antt =====
-- `list_add` and `list_rotate`.
use ulmeros.Common.{
  ℕ, ◌+◌, ◌≤◌, ◌≡◌, ◌≢◌, refl, true, false, none, some, [], ◌∷◌, ◌++◌, arith, ◌==◌, ltb, length,
  ◌∙◌, ap, Bool-cases, inl, inr, length-append, sym, subst, or_false,
}
use ulmeros.Util.LinkedList.{
  Ptr, null, Item, Heap, LinkedList, list_magic, write, with_next, with_prev, load, is_live,
  set_next, set_prev, list_add, list_rotate,
}
use ulmeros.Util.LinkedList.Chain.{
  Cells, has, last_of, item, Linked, IsList, has-last_of, frame, join, relink_last, relink_first,
  live_in, set_next-ok, set_prev-ok, load-ok, ne_of_has, last_of-append, has-append,
}
use ulmeros.Common.Outcome.{Outcome, ok}

not_in_of_none :
    (h : Heap) (xs : Cells) (a : Ptr) → Linked h null xs null → h a ≡ none → has a xs ≡ false
not_in_of_none h xs a l unused = elim (Bool-cases (has a xs)) [
  | inl i ↦ absurd (ground (arith, live_in h null xs null a l i))
  | inr out ↦ out
]

-- `h'` differs from `h` at most at the items of `xs` and at `a`.
abbrev pub SameBut : Cells → Ptr → Heap → Heap → Type 0
SameBut xs a h h' = (b : Ptr) → has b xs ≡ false → b ≢ a → h' b ≡ h b

-- what `list_add` promises
abbrev pub Added : Ptr → Ptr → Cells → Heap → Outcome (ℕ × LinkedList × Heap) → Type 0
Added fresh v xs h out =
    (l' : LinkedList) × (h' : Heap) × (out ≡ ok (length xs, l', h'))
    × IsList h' l' (xs ++ ((fresh, v) ∷ []))
    × SameBut xs fresh h h'

module _ (fresh v : Ptr) (h : Heap) (ne : fresh ≢ null) (unused : h fresh ≡ none) where
  add_nil : (l : LinkedList) → IsList h l [] → Added fresh v [] h (list_add fresh l v h)
  unfolding list_add write
  add_nil l is =
      let m : (l.magic == list_magic) ≡ true = ground (arith, is.magic) in
      let e : (l.last == null) ≡ true = ground (arith, is.last) in
      (
        record l { items = l.items + 1; first = fresh; last = fresh },
        write h fresh (some (item null l.last v)),
        rw (m, e, is.items),
        record {
          magic = is.magic;
          items = omega (arith, is.items);
          first = refl;
          last = refl;
          chain = (ground (arith, is.last), ne, refl, tt);
        },
        λ b out other. ground arith,
      )

  add_cons :
      (l : LinkedList) (a w : Ptr) (xs : Cells)
      → IsList h l ((a, w) ∷ xs)
      → Added fresh v ((a, w) ∷ xs) h (list_add fresh l v h)
  unfolding list_add
  add_cons l a w xs is =
      let cells = (a, w) ∷ xs in
      let h₁ = write h fresh (some (item null l.last v)) in
      let h₂ = with_next h₁ l.last fresh in
      let m : (l.magic == list_magic) ≡ true = ground (arith, is.magic) in
      let out : has fresh cells ≡ false = not_in_of_none h cells fresh is.chain unused in
      let at_last : has l.last cells ≡ true = ap (λ k. has k cells) is.last ∙ has-last_of a w xs in
      let chain₁ : Linked h₁ null cells null =
        frame h h₁ null cells null is.chain (λ b i. unfold write in ground arith) in
      let live : is_live h₁ l.last ≡ true = live_in h₁ null cells null l.last chain₁ at_last in
      let some_last : (l.last == null) ≡ false = ground arith in
      let other : (fresh == l.last) ≡ false = ne_of_has fresh l.last cells out at_last in
      let linked : Linked h₂ null cells fresh =
        subst (λ k. Linked (with_next h₁ k fresh) null cells fresh) (sym is.last)
          (relink_last h₁ null a w xs null fresh chain₁) in
      let new : h₂ fresh ≡ some (item null l.last v) =
        unfold with_next write in rw other (ground arith) in
      (
        record l { items = l.items + 1; last = fresh },
        h₂,
        rw (m, some_last, set_next-ok h₁ l.last fresh live, is.items),
        record {
          magic = is.magic;
          items = omega (arith, is.items, length-append cells ((fresh, v) ∷ []));
          first = is.first;
          last = sym (last_of-append null cells ((fresh, v) ∷ []));
          chain =
              join h₂ null cells ((fresh, v) ∷ []) null linked (rw (← is.last) new, ne, refl, tt)
                (λ b i. ground (arith, ne_of_has fresh b cells out i));
        },
        λ b o ne'.
            let far : (b == l.last) ≡ false = ne_of_has b l.last cells o at_last in
            unfold with_next write in rw far (ground arith),
      )

  -- Given an unused address, `list_add` appends the payload, returns its index, and changes memory
  -- only at the new item and the items of the list.
  pub list_add-append :
      (l : LinkedList) (xs : Cells) → IsList h l xs → Added fresh v xs h (list_add fresh l v h)
  list_add-append l [] is = add_nil l is
  list_add-append l ((a, w) ∷ xs) is = add_cons l a w xs is

-- what `list_rotate` leaves
abbrev pub Rotated : Cells → Heap → Outcome (LinkedList × Heap) → Type 0
Rotated xs h out =
    (l' : LinkedList) × (h' : Heap) × (out ≡ ok (l', h'))
    × IsList h' l' xs
    × ((b : Ptr) → has b xs ≡ false → h' b ≡ h b)

live_of_some : (h : Heap) (a : Ptr) (n : Item) → a ≢ null → h a ≡ some n → is_live h a ≡ true
live_of_some h a n ne e = ground arith

prev_at :
    (h : Heap) (a q : Ptr) {n : Item}
    → h a ≡ some n
    → with_prev h a q a ≡ some (record n { prev = q })
unfolding with_prev
prev_at h a q e = ground arith

next_at :
    (h : Heap) (a q : Ptr) {n : Item}
    → h a ≡ some n
    → with_next h a q a ≡ some (record n { next = q })
unfolding with_next
next_at h a q e = ground arith

prev_off : (h : Heap) (a q c : Ptr) → (c == a) ≡ false → with_prev h a q c ≡ h c
unfolding with_prev
prev_off h a q c far = rw far

next_off : (h : Heap) (a q c : Ptr) → (c == a) ≡ false → with_next h a q c ≡ h c
unfolding with_next
next_off h a q c far = rw far

module _ (h : Heap) (l : LinkedList) (a v b w : Ptr) (xs : Cells) where
  -- On a list of two items or more `list_rotate` moves the first item behind the last, keeps the
  -- order of the others, and changes no memory outside the list.
  pub list_rotate-Rotated :
      IsList h l ((a, v) ∷ (b, w) ∷ xs)
      → Rotated (((b, w) ∷ xs) ++ ((a, v) ∷ [])) h (list_rotate l h)
  unfolding list_rotate
  list_rotate-Rotated is =
      let cells = (b, w) ∷ xs in
      let (e, ne, out, chain) = is.chain in
      let z = last_of b xs in
      let last_is : l.last ≡ z = is.last in
      let first_is : l.first ≡ a = is.first in
      let at_last : has z cells ≡ true = has-last_of b w xs in
      let h₁ = with_prev h b null in
      let h₂ = with_prev h₁ a z in
      let h₃ = with_next h₂ a null in
      let h₄ = with_next h₃ z a in
      let off : (c : Ptr) → has c cells ≡ true → (c == a) ≡ false =
        λ c i. ground (arith, ne_of_has a c cells out i) in
      let a_ne_b : (a == b) ≡ false = ne_of_has a b cells out (ground arith) in
      let n₁ = prev_off h b null a a_ne_b ∙ e in
      let n₂ = prev_at h₁ a z n₁ in
      let n₃ = next_at h₂ a null n₂ in
      let n₄ = next_off h₃ z a a (ne_of_has a z cells out at_last) ∙ n₃ in
      let f₁ = relink_first h a null b w xs null chain in
      let f₂ = frame h₁ h₂ null cells null f₁ (λ c i. prev_off h₁ a z c (off c i)) in
      let f₃ = frame h₂ h₃ null cells null f₂ (λ c i. next_off h₂ a null c (off c i)) in
      let f₄ = relink_last h₃ null b w xs null a f₃ in
      (
        record l { first = b; last = a },
        h₄,
        rotate_run is.magic (omega (arith, is.items)) first_is last_is (load-ok h a _ ne e)
            (set_prev-ok h b null (live_in h a cells null b chain (ground arith)))
            (set_prev-ok h₁ a z (live_of_some h₁ a _ ne n₁))
            (set_next-ok h₂ a null (live_of_some h₂ a _ ne n₂))
            (set_next-ok h₃ z a (live_in h₃ null cells null z f₃ at_last)),
        record {
          magic = is.magic;
          items = omega (arith, is.items, length-append cells ((a, v) ∷ []));
          first = refl;
          last = sym (last_of-append b xs ((a, v) ∷ []));
          chain =
              join h₄ null cells ((a, v) ∷ []) null f₄ (n₄, ne, refl, tt)
                (λ c i. ground (arith, off c i));
        },
        λ c o.
            let (c_out, c_not) =
              or_false (has c cells) (has c ((a, v) ∷ []))
                (sym (has-append c cells ((a, v) ∷ [])) ∙ o) in
            let c_ne_a = (or_false (c == a) false c_not).0 in
            let c_ne_b = (or_false (c == b) (has c xs) c_out).0 in
            next_off h₃ z a c (ne_of_has c z cells c_out at_last)
            ∙ next_off h₂ a null c c_ne_a
            ∙ prev_off h₁ a z c c_ne_a
            ∙ prev_off h b null c c_ne_b,
      )
    where
      rotate_run :
          {z : Ptr} {h₁ h₂ h₃ h₄ : Heap} {n : Item}
          → l.magic ≡ list_magic
          → 2 ≤ l.items
          → l.first ≡ a
          → l.last ≡ z
          → load h a ≡ ok n
          → set_prev h n.next null ≡ ok h₁
          → set_prev h₁ a z ≡ ok h₂
          → set_next h₂ a null ≡ ok h₃
          → set_next h₃ z a ≡ ok h₄
          → list_rotate l h ≡ ok (record l { first = n.next; last = a }, h₄)
      rotate_run {z} {h₁} {h₂} {h₃} {h₄} {n} mg two fi la s₁ s₂ s₃ s₄ s₅ =
          let m : (l.magic == list_magic) ≡ true = ground arith in
          let long : ltb l.items 2 ≡ false = ground arith in
          let t₁ : load h l.first ≡ ok n = ap (load h) fi ∙ s₁ in
          let t₃ : set_prev h₁ l.first l.last ≡ ok h₂ =
            ap (λ k. set_prev h₁ k l.last) fi ∙ ap (set_prev h₁ a) la ∙ s₃ in
          let t₄ : set_next h₂ l.first null ≡ ok h₃ = ap (λ k. set_next h₂ k null) fi ∙ s₄ in
          let t₅ : set_next h₃ l.last l.first ≡ ok h₄ =
            ap (λ k. set_next h₃ k l.first) la ∙ ap (set_next h₃ z) fi ∙ s₅ in
          rw (m, long, t₁, s₂, t₃, t₄, t₅)
            (ap (λ k. ok (record l { first = n.next; last = k }, h₄)) fi)
