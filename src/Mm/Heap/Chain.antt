-- ===== src/Mm/Heap/Chain.antt =====
-- The headers of a heap against the list of its blocks, each with its size and whether it is free.
use ulmeros.Common.{
  ℕ, ◌+◌, ◌-◌, ◌^◌, ◌∙◌, ◌≤◌, ◌<◌, ◌≡◌, refl, ap, ==_refl, ◌≢◌, Bool, false, List, [], ◌∷◌, ◌++◌,
  ◌==◌, length, arith,
}
use ulmeros.Mm.Heap.{
  Header, KHeap, heap_magic, header_size, kheap_start, add64, sub64, put, link_back,
}

abbrev pub Blocks : Type 0
Blocks = List (ℕ × Bool)

-- the address behind the blocks that start at `a`
abbrev pub end_at : ℕ → Blocks → ℕ
end_at a [] = a
end_at a ((n, free) ∷ bs) = end_at (a + n) bs

-- the address of the first block, and what a pointer to it holds where there is none
abbrev pub next_of : ℕ → Blocks → ℕ → ℕ
next_of a [] stop = stop
next_of a (b ∷ bs) stop = a

-- the address of the last block
abbrev pub last_at : ℕ → ℕ → Blocks → ℕ
last_at prev a [] = prev
last_at prev a ((n, free) ∷ bs) = last_at a (a + n) bs

abbrev pub header : (prev next : ℕ) → Bool → ℕ → Header
header prev next free n = record {
  available = free;
  magic = heap_magic;
  prev = prev;
  next = next;
  size = n;
}

-- The blocks stand one after another from `a`, each header says what the block is and points to its
-- neighbours, and each block has room for its header.
abbrev pub Chain : (ℕ → Header) → (prev a : ℕ) → Blocks → (stop : ℕ) → Type 0
Chain h prev a [] stop = Unit {0}
Chain h prev a ((n, free) ∷ bs) stop =
    (h a ≡ header prev (next_of (a + n) bs stop) free n)
    × (header_size ≤ n)
    × (Chain h a (a + n) bs stop)

-- The state of the heap is the one of a list of blocks.
pub record IsHeap (s : KHeap) (bs : Blocks) : Type 0 where
  pub chain : Chain s.headers 0 kheap_start bs 0
  pub start : s.heap_start ≡ next_of kheap_start bs 0
  pub last : s.heap_last ≡ last_at 0 kheap_start bs
  pub end : s.kheap_break ≡ end_at kheap_start bs
  pub bound : s.kheap_break < 2 ^ 64

pub end_at-append : (a : ℕ) (xs ys : Blocks) → end_at a (xs ++ ys) ≡ end_at (end_at a xs) ys
end_at-append a [] ys = refl
end_at-append a ((n, f) ∷ xs) ys = end_at-append (a + n) xs ys

pub last_at-append :
    (p a : ℕ) (xs ys : Blocks) → last_at p a (xs ++ ys) ≡ last_at (last_at p a xs) (end_at a xs) ys
last_at-append p a [] ys = refl
last_at-append p a ((n, f) ∷ xs) ys = last_at-append a (a + n) xs ys

pub next_of-append :
    (a : ℕ) (xs ys : Blocks) (stop : ℕ)
    → next_of a (xs ++ ys) stop ≡ next_of a xs (next_of (end_at a xs) ys stop)
next_of-append a [] ys stop = refl
next_of-append a ((n, f) ∷ xs) ys stop = refl

pub next_of-pos : (a : ℕ) (xs : Blocks) (stop : ℕ) → 0 < a → 0 < stop → 0 < next_of a xs stop
next_of-pos a [] stop h k = k
next_of-pos a (x ∷ xs) stop h k = h

-- The chain does not end before it starts, and its blocks are no more than its bytes.
pub Chain-end :
    (h : ℕ → Header) (p a : ℕ) (bs : Blocks) (stop : ℕ)
    → Chain h p a bs stop
    → a + length bs ≤ end_at a bs
Chain-end h p a [] stop c = omega arith
Chain-end h p a ((n, f) ∷ bs) stop (e, l, c) = omega (arith, Chain-end h a (a + n) bs stop c)

-- The chain reads only the headers of its own addresses.
pub Chain-frame :
    (h h' : ℕ → Header) (p a : ℕ) (bs : Blocks) (stop : ℕ)
    → ((q : ℕ) → a ≤ q → q < end_at a bs → h' q ≡ h q)
    → Chain h p a bs stop
    → Chain h' p a bs stop
Chain-frame h h' p a [] stop same c = tt
Chain-frame h h' p a ((n, f) ∷ bs) stop same (e, l, c) =
    let long = Chain-end h a (a + n) bs stop c in
    (
      same a (omega arith) (omega arith) ∙ e,
      l,
      Chain-frame h h' a (a + n) bs stop (λ q lo hi. same q (omega arith) hi) c,
    )

pub Chain-append :
    (h : ℕ → Header) (p a : ℕ) (xs ys : Blocks) (stop : ℕ)
    → Chain h p a xs (next_of (end_at a xs) ys stop)
    → Chain h (last_at p a xs) (end_at a xs) ys stop
    → Chain h p a (xs ++ ys) stop
Chain-append h p a [] ys stop c d = d
Chain-append h p a ((n, f) ∷ xs) ys stop (e, l, c) d =
    (rw (next_of-append (a + n) xs ys stop) e, l, Chain-append h a (a + n) xs ys stop c d)

pub Chain-split :
    (h : ℕ → Header) (p a : ℕ) (xs ys : Blocks) (stop : ℕ)
    → Chain h p a (xs ++ ys) stop
    → Chain h p a xs (next_of (end_at a xs) ys stop)
      × Chain h (last_at p a xs) (end_at a xs) ys stop
Chain-split h p a [] ys stop c = (tt, c)
Chain-split h p a ((n, f) ∷ xs) ys stop (e, l, c) =
    let (c', d) = Chain-split h a (a + n) xs ys stop c in
    ((rw (← next_of-append (a + n) xs ys stop) e, l, c'), d)

pub add64-eq : (a b : ℕ) → a + b < 2 ^ 64 → add64 a b ≡ a + b
unfolding add64
add64-eq a b h = omega arith

pub sub64-eq : (a b : ℕ) → a < 2 ^ 64 → b ≤ a → sub64 a b ≡ a - b
unfolding sub64
sub64-eq a b h l = omega arith

pub ne-eq : (q a : ℕ) → q ≢ a → (q == a) ≡ false
ne-eq q a l = ground arith

pub pos-eq : (a : ℕ) → 0 < a → (a == 0) ≡ false
pos-eq a l = ground arith

pub link_back-last :
    (s : KHeap) (b : ℕ) → (s.headers b).next ≡ 0 → link_back s b ≡ record s { heap_last = b }
unfolding link_back
link_back-last s b e = rw e

pub link_back-next :
    (s : KHeap) (b a : ℕ)
    → (s.headers b).next ≡ a
    → 0 < a
    → link_back s b ≡ put s a (record (s.headers a) { prev = b })
unfolding link_back
link_back-next s b a e l = rw (e, pos-eq a l)

-- After a block at `b` whose header points to the blocks from `a`, those are linked to `b`.
pub link_back-Chain :
    (s : KHeap) (q b a : ℕ) (ys : Blocks)
    → (s.headers b).next ≡ next_of a ys 0
    → b < a
    → s.heap_last ≡ last_at q a ys
    → Chain s.headers q a ys 0
    → Chain (link_back s b).headers b a ys 0 × ((link_back s b).heap_last ≡ last_at b a ys)
unfolding link_back put
link_back-Chain s q b a [] e l last c =
    (tt, ap (λ (s' : KHeap). s'.heap_last) (link_back-last s b e))
link_back-Chain s q b a ((n, f) ∷ ys) e l last (e', l', c) =
    rw (link_back-next s b a e (omega arith)) (
      (
        rw (==_refl a) (ap (λ (x : Header). record x { prev = b }) e'),
        l',
        Chain-frame s.headers _ a (a + n) ys 0
            (λ r lo hi. rw (link_back-next s b a e (omega arith), ne-eq r a (omega arith))) c,
      ),
      last,
    )

-- The headers below those blocks stay as they are.
pub link_back-below :
    (s : KHeap) (b a : ℕ) (ys : Blocks) (q : ℕ)
    → (s.headers b).next ≡ next_of a ys 0
    → q < a
    → (link_back s b).headers q ≡ s.headers q
unfolding link_back put
link_back-below s b a [] q e l = ap (λ (s' : KHeap). s'.headers q) (link_back-last s b e)
link_back-below s b a (x ∷ ys) q e l =
    rw (link_back-next s b a e (omega arith), ne-eq q a (omega arith))

pub link_back-rest :
    (s : KHeap) (b : ℕ)
    → ((link_back s b).heap_start ≡ s.heap_start)
      × ((link_back s b).kheap_break ≡ s.kheap_break)
      × ((link_back s b).phys ≡ s.phys)
unfolding link_back put
link_back-rest s b = ground arith
