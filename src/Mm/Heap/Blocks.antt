-- ===== src/Mm/Heap/Blocks.antt =====
-- Lists of blocks as the abstract state of the heap of kernel/kernel/mm/heap.c: what memory they hand
-- out, when no two free blocks need joining, and the list that `kfree` aims at.
use ulmeros.Common.{
  ℕ, ◌+◌, ◌-◌, ◌∙◌, ◌≤◌, ◌≡◌, ◌⊎◌, refl, ap, Bool, true, false, ◌&&◌, Option, none, some, List, [],
  ◌∷◌, ◌++◌, leb, tests, Bool-cases, inl, inr, if◌then◌else◌, arith,
}
use ulmeros.Mm.Heap.{header_size}
use ulmeros.Mm.Heap.Chain.{Blocks, end_at}

-- the memory handed out: addresses and sizes, without the headers
abbrev pub live : ℕ → Blocks → List (ℕ × ℕ)
live a [] = []
live a ((n, true) ∷ bs) = live (a + n) bs
live a ((n, false) ∷ bs) = (a + header_size, n - header_size) ∷ live (a + n) bs

pub live-append : (a : ℕ) (xs ys : Blocks) → live a (xs ++ ys) ≡ live a xs ++ live (end_at a xs) ys
live-append a [] ys = refl
live-append a ((n, true) ∷ xs) ys = live-append (a + n) xs ys
live-append a ((n, false) ∷ xs) ys =
    ap (λ zs. (a + header_size, n - header_size) ∷ zs) (live-append (a + n) xs ys)

-- No free block follows a free one, and none is the last. The flag tells of the block before the list.
abbrev pub TidyAfter : Bool → Blocks → Type 0
TidyAfter free [] = free ≡ false
TidyAfter free ((n, f) ∷ bs) = ((free && f) ≡ false) × TidyAfter f bs

abbrev pub Tidy : Blocks → Type 0
Tidy = TidyAfter false

pub Tidy-replace :
    (b : Bool) (xs ys zs : Blocks)
    → ((c : Bool) → TidyAfter c ys → TidyAfter c zs)
    → TidyAfter b (xs ++ ys)
    → TidyAfter b (xs ++ zs)
Tidy-replace b [] ys zs keep t = keep b t
Tidy-replace b ((n, f) ∷ xs) ys zs keep (e, t) = (e, Tidy-replace f xs ys zs keep t)

pub Tidy-weaken : (bs : Blocks) → TidyAfter true bs → (c : Bool) → TidyAfter c bs
Tidy-weaken [] t c = cc
Tidy-weaken ((n, true) ∷ bs) (e, t) c = cc
Tidy-weaken ((n, false) ∷ bs) (e, t) true = (refl, t)
Tidy-weaken ((n, false) ∷ bs) (e, t) false = (refl, t)

-- One more block in front of what a search has found.
abbrev pub behind : ℕ × Bool → Option (Blocks × ℕ × Blocks) → Option (Blocks × ℕ × Blocks)
behind b none = none
behind b (some (xs, n, ys)) = some (b ∷ xs, n, ys)

behind-eq :
    (b : ℕ × Bool) (o : Option (Blocks × ℕ × Blocks)) {xs ys : Blocks} {n : ℕ}
    → behind b o ≡ some (xs, n, ys)
    → (xs' : Blocks) × (xs ≡ b ∷ xs') × (o ≡ some (xs', n, ys))
behind-eq b none e = cc
behind-eq b (some (xs', m, zs)) e = (xs', cc, cc)

-- The first free block of a size or more, between the blocks before it and behind it.
abbrev pub first_fit : ℕ → Blocks → Option (Blocks × ℕ × Blocks)
first_fit required [] = none
first_fit required ((n, free) ∷ bs) =
    if free && leb required n then some ([], n, bs) else behind (n, free) (first_fit required bs)

-- A free block of size `n` in use, cut where the rest has room for more than a header.
abbrev pub placed : (required n : ℕ) → Blocks → Blocks
placed required n ys =
    if leb (n - required) header_size
    then (n, false) ∷ ys
    else (required, false) ∷ (n - required, true) ∷ ys

pub first_fit-eq :
    (required : ℕ) (bs xs ys : Blocks) (n : ℕ)
    → first_fit required bs ≡ some (xs, n, ys)
    → (bs ≡ xs ++ (n, true) ∷ ys) × (required ≤ n)
first_fit-eq required [] xs ys n e = cc
first_fit-eq required ((m, false) ∷ bs) xs ys n e =
    let (xs', front, found) = behind-eq (m, false) (first_fit required bs) e in
    let (whole, room) = first_fit-eq required bs xs' ys n found in
    (rw front (ap (λ zs. (m, false) ∷ zs) whole), room)
first_fit-eq required ((m, true) ∷ bs) xs ys n e = elim (Bool-cases (leb required m)) [
  | inl fits ↦
      let here : ◌≡◌ {A = Option (Blocks × ℕ × Blocks)} (some ([], m, bs)) (some (xs, n, ys)) =
        rw fits at e in
      (cc here, let same : m ≡ n = cc here in omega tests)
  | inr small ↦
      let later : behind (m, true) (first_fit required bs) ≡ some (xs, n, ys) = rw small at e in
      let (xs', front, found) = behind-eq (m, true) (first_fit required bs) later in
      let (whole, room) = first_fit-eq required bs xs' ys n found in
      (rw front (ap (λ zs. (m, true) ∷ zs) whole), room)
]

-- one block in front of a tidy list
abbrev pub cons_tidy : ℕ × Bool → Blocks → Blocks
cons_tidy (n, true) [] = []
cons_tidy (n, true) ((m, true) ∷ bs) = (n + m, true) ∷ bs
cons_tidy (n, true) ((m, false) ∷ bs) = (n, true) ∷ (m, false) ∷ bs
cons_tidy (n, false) bs = (n, false) ∷ bs

-- Free blocks joined, and those at the end dropped.
abbrev pub tidy : Blocks → Blocks
tidy [] = []
tidy (b ∷ bs) = cons_tidy b (tidy bs)

tidy-eq_after : (b : Bool) (bs : Blocks) → TidyAfter b bs → tidy bs ≡ bs
tidy-eq_after b [] t = refl
tidy-eq_after b ((n, false) ∷ bs) (e, t) = ap (λ zs. (n, false) ∷ zs) (tidy-eq_after false bs t)
tidy-eq_after b ((n, true) ∷ []) (e, t) = cc
tidy-eq_after b ((n, true) ∷ (m, true) ∷ bs) (e, (e', t)) = cc
tidy-eq_after b ((n, true) ∷ (m, false) ∷ bs) (e, (e', t)) =
    ap (λ zs. (n, true) ∷ (m, false) ∷ zs) (tidy-eq_after false bs t)

pub tidy-eq : (bs : Blocks) → Tidy bs → tidy bs ≡ bs
tidy-eq = tidy-eq_after false

cons_tidy-Tidy : (b : ℕ × Bool) (bs : Blocks) → Tidy bs → Tidy (cons_tidy b bs)
cons_tidy-Tidy (n, true) [] t = refl
cons_tidy-Tidy (n, true) ((m, true) ∷ bs) (e, t) = (refl, t)
cons_tidy-Tidy (n, true) ((m, false) ∷ bs) (e, t) = (refl, (refl, t))
cons_tidy-Tidy (n, false) bs t = (refl, t)

pub tidy-Tidy : (bs : Blocks) → Tidy (tidy bs)
tidy-Tidy [] = refl
tidy-Tidy (b ∷ bs) = cons_tidy-Tidy b (tidy bs) (tidy-Tidy bs)

-- Tidying does not change what is handed out.
cons_tidy-live : (a : ℕ) (b : ℕ × Bool) (bs : Blocks) → live a (cons_tidy b bs) ≡ live a (b ∷ bs)
cons_tidy-live a (n, true) [] = refl
cons_tidy-live a (n, true) ((m, true) ∷ bs) = ap (λ k. live k bs) (omega arith)
cons_tidy-live a (n, true) ((m, false) ∷ bs) = refl
cons_tidy-live a (n, false) bs = refl

pub live-tidy : (a : ℕ) (bs : Blocks) → live a (tidy bs) ≡ live a bs
live-tidy a [] = refl
live-tidy a ((n, true) ∷ bs) = cons_tidy-live a (n, true) (tidy bs) ∙ live-tidy (a + n) bs
live-tidy a ((n, false) ∷ bs) =
    ap (λ zs. (a + header_size, n - header_size) ∷ zs) (live-tidy (a + n) bs)

-- Two adjacent free blocks, and a free block at the end, are tidied in one step.
tidy-join_here :
    (n m : ℕ) (ys : Blocks) → tidy ((n, true) ∷ (m, true) ∷ ys) ≡ tidy ((n + m, true) ∷ ys)
tidy-join_here n m ys = join_tidy n m (tidy ys)
  where
    join_tidy :
        (n m : ℕ) (ys : Blocks)
        → cons_tidy (n, true) (cons_tidy (m, true) ys) ≡ cons_tidy (n + m, true) ys
    join_tidy n m [] = refl
    join_tidy n m ((k, true) ∷ ys) = ap (λ (l : ℕ). (l, true) ∷ ys) (omega arith)
    join_tidy n m ((k, false) ∷ ys) = refl

pub tidy-join :
    (xs : Blocks) (n m : ℕ) (ys : Blocks)
    → tidy (xs ++ (n, true) ∷ (m, true) ∷ ys) ≡ tidy (xs ++ (n + m, true) ∷ ys)
tidy-join [] n m ys = tidy-join_here n m ys
tidy-join (b ∷ xs) n m ys = ap (cons_tidy b) (tidy-join xs n m ys)

pub tidy-drop : (xs : Blocks) (n : ℕ) → tidy (xs ++ (n, true) ∷ []) ≡ tidy xs
tidy-drop [] n = refl
tidy-drop (b ∷ xs) n = ap (cons_tidy b) (tidy-drop xs n)

-- A list of blocks is empty or ends in a block.
pub Blocks-cases :
    (bs : Blocks) → (bs ≡ []) ⊎ ((xs : Blocks) × (n : ℕ) × (f : Bool) × (bs ≡ xs ++ (n, f) ∷ []))
Blocks-cases [] = inl refl
Blocks-cases ((n, f) ∷ bs) = elim (Blocks-cases bs) [
  | inl e ↦ inr ([], n, f, rw e)
  | inr (xs, m, g, e) ↦ inr ((n, f) ∷ xs, m, g, ap (λ zs. (n, f) ∷ zs) e)
]
