-- ===== src/Util/LinkedList/Chain.antt =====
-- What a list stands for: its items' addresses and payloads in order, linked both ways.
use ulmeros.Common.{
  ◌≡◌, ◌≢◌, refl, Bool, true, false, ◌||◌, some, List, [], ◌∷◌, ◌++◌, arith, ◌==◌, if◌then◌else◌,
  length, ◌∙◌, ap, Bool-cases, inl, inr,
}
use ulmeros.Util.LinkedList.{
  Ptr, null, Item, Heap, LinkedList, list_magic, with_next, with_prev, load, is_live, set_next,
  set_prev,
}
use ulmeros.Common.Outcome.{ok, fault}

abbrev pub Cells : Type 0
Cells = List (Ptr × Ptr)

abbrev pub has : Ptr → Cells → Bool
has a [] = false
has a ((p, _) ∷ xs) = (a == p) || has a xs

-- the address that a segment starts at, where `stop` follows it
abbrev pub first_of : Cells → Ptr → Ptr
first_of [] stop = stop
first_of ((a, _) ∷ xs) stop = a

-- the address that a segment ends at, where `prev` stands before it
abbrev pub last_of : Ptr → Cells → Ptr
last_of prev [] = prev
last_of prev ((a, _) ∷ xs) = last_of a xs

abbrev pub item : Ptr → Ptr → Ptr → Item
item next prev payload = record { next = next; prev = prev; payload = payload }

-- The items of a segment are distinct, none is NULL, and each points to its two neighbours.
abbrev pub Linked : Heap → Ptr → Cells → Ptr → Type 0
Linked h prev [] stop = Unit
Linked h prev ((a, v) ∷ xs) stop =
    (h a ≡ some (item (first_of xs stop) prev v))
    × (a ≢ null)
    × (has a xs ≡ false)
    × Linked h a xs stop

pub record IsList (h : Heap) (l : LinkedList) (xs : Cells) : Type 0 where
  pub magic : l.magic ≡ list_magic
  pub items : l.items ≡ length xs
  pub first : l.first ≡ first_of xs null
  pub last : l.last ≡ last_of null xs
  pub chain : Linked h null xs null

pub has-append : (a : Ptr) (xs ys : Cells) → has a (xs ++ ys) ≡ (has a xs || has a ys)
has-append a [] ys = refl
has-append a ((p, v) ∷ xs) ys = ground (arith, has-append a xs ys)

pub has-last_of : (a v : Ptr) (xs : Cells) → has (last_of a xs) ((a, v) ∷ xs) ≡ true
has-last_of a v [] = ground arith
has-last_of a v ((b, w) ∷ xs) = ground (arith, has-last_of b w xs)

pub first_of-append :
    (xs ys : Cells) (stop : Ptr) → first_of (xs ++ ys) stop ≡ first_of xs (first_of ys stop)
first_of-append [] ys stop = refl
first_of-append (x ∷ xs) ys stop = refl

pub last_of-append :
    (prev : Ptr) (xs ys : Cells) → last_of prev (xs ++ ys) ≡ last_of (last_of prev xs) ys
last_of-append prev [] ys = refl
last_of-append prev ((a, v) ∷ xs) ys = last_of-append a xs ys

abbrev pub Apart : Cells → Cells → Type 0
Apart xs ys = (a : Ptr) → has a xs ≡ true → has a ys ≡ false

-- A segment survives what changes no item of it.
pub frame :
    (h : Heap) (g : Heap) (prev : Ptr) (xs : Cells) (stop : Ptr)
    → Linked h prev xs stop
    → ((a : Ptr) → has a xs ≡ true → g a ≡ h a)
    → Linked g prev xs stop
frame h g prev [] stop l same = tt
frame h g prev ((a, v) ∷ xs) stop (e, nz, out, l) same =
    (same a (ground arith) ∙ e, nz, out, frame h g a xs stop l λ b i. same b (ground arith))

pub split :
    (h : Heap) (prev : Ptr) (xs ys : Cells) (stop : Ptr)
    → Linked h prev (xs ++ ys) stop
    → Linked h prev xs (first_of ys stop) × Linked h (last_of prev xs) ys stop × Apart xs ys
split h prev [] ys stop l = (tt, l, λ a i. cc)
split h prev ((a, v) ∷ xs) ys stop (e, nz, out, l) =
    let (l₁, l₂, apart) = split h a xs ys stop l in
    (
      (ground (arith, first_of-append xs ys stop), nz, ground (arith, has-append a xs ys), l₁),
      l₂,
      λ b i. ground (arith, apart b, has-append a xs ys),
    )

pub join :
    (h : Heap) (prev : Ptr) (xs ys : Cells) (stop : Ptr)
    → Linked h prev xs (first_of ys stop)
    → Linked h (last_of prev xs) ys stop
    → Apart xs ys
    → Linked h prev (xs ++ ys) stop
join h prev [] ys stop l₁ l₂ apart = l₂
join h prev ((a, v) ∷ xs) ys stop (e, nz, out, l₁) l₂ apart = (
  ground (arith, first_of-append xs ys stop),
  nz,
  ground (arith, has-append a xs ys, apart a),
  join h a xs ys stop l₁ l₂ (λ b i. apart b (ground arith)),
)

pub ne_of_has : (a b : Ptr) (xs : Cells) → has a xs ≡ false → has b xs ≡ true → (a == b) ≡ false
ne_of_has a b xs out i = elim (Bool-cases (a == b)) [
  | inl same ↦ let e : a ≡ b = ground arith in absurd (cc (ap (λ k. has k xs) e))
  | inr other ↦ other
]

-- The last item of a segment is made to point on to another address.
pub relink_last :
    (h : Heap) (prev a v : Ptr) (xs : Cells) (stop stop' : Ptr)
    → Linked h prev ((a, v) ∷ xs) stop
    → Linked (with_next h (last_of a xs) stop') prev ((a, v) ∷ xs) stop'
unfolding with_next
relink_last h prev a v [] stop stop' (e, nz, out, l) = (ground arith, nz, refl, tt)
relink_last h prev a v ((b, w) ∷ xs) stop stop' (e, nz, out, l) =
    let other : (a == last_of b xs) ≡ false =
      ne_of_has a (last_of b xs) ((b, w) ∷ xs) out (has-last_of b w xs) in
    (rw other e, nz, out, relink_last h a b w xs stop stop' l)

-- The first item of a segment is made to point back to another address.
pub relink_first :
    (h : Heap) (prev prev' a v : Ptr) (xs : Cells) (stop : Ptr)
    → Linked h prev ((a, v) ∷ xs) stop
    → Linked (with_prev h a prev') prev' ((a, v) ∷ xs) stop
unfolding with_prev
relink_first h prev prev' a v xs stop (e, nz, out, l) =
    (ground arith, nz, out, frame h _ a xs stop l (λ b i. ground arith))

-- An item of a segment may be followed.
pub live_in :
    (h : Heap) (prev : Ptr) (xs : Cells) (stop : Ptr) (a : Ptr)
    → Linked h prev xs stop
    → has a xs ≡ true
    → is_live h a ≡ true
live_in h prev [] stop a l i = cc
live_in h prev ((b, v) ∷ xs) stop a (e, nz, out, l) i = elim (Bool-cases (a == b)) [
  | inl same ↦ let q : a ≡ b = ground arith in ground (arith, ap h q)
  | inr other ↦ live_in h b xs stop a l (ground arith)
]

pub set_next-ok :
    (h : Heap) (p q : Ptr) → is_live h p ≡ true → set_next h p q ≡ ok (with_next h p q)
unfolding set_next
set_next-ok h p q live = ap (λ b. if b then ok (with_next h p q) else fault) live

pub set_prev-ok :
    (h : Heap) (p q : Ptr) → is_live h p ≡ true → set_prev h p q ≡ ok (with_prev h p q)
unfolding set_prev
set_prev-ok h p q live = ap (λ b. if b then ok (with_prev h p q) else fault) live

pub load-ok : (h : Heap) (p : Ptr) (n : Item) → p ≢ null → h p ≡ some n → load h p ≡ ok n
unfolding load
load-ok h p n ne e = ground arith
