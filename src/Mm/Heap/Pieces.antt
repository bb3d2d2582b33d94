-- ===== src/Mm/Heap/Pieces.antt =====
-- The memory that the kernel heap of kernel/kernel/mm/heap.c has handed out, piece by piece.
use ulmeros.Common.{
  ℕ, ◌+◌, ◌-◌, ◌^◌, ◌≤◌, ◌<◌, ◌≡◌, ◌⊎◌, inl, inr, true, false, none, List, [], ◌∷◌, ◌++◌, subst,
  sym, arith,
}
use ulmeros.Common.Outcome.{ok}
use ulmeros.Mm.Page.{Phys}
use ulmeros.Mm.Heap.{Header, KHeap, header_size, kheap_start, kmalloc, resize}
use ulmeros.Mm.Heap.Chain.{Blocks, Chain, IsHeap, end_at}
use ulmeros.Mm.Heap.Blocks.{Tidy, first_fit, live}
use ulmeros.Mm.Heap.Malloc.{kmalloc-Allocated}

-- The pieces lie in order between two addresses, each with room for a header before it.
abbrev pub Apart : ℕ → List (ℕ × ℕ) → ℕ → Type 0
Apart lo [] hi = lo ≤ hi
Apart lo ((p, n) ∷ ps) hi = (lo + header_size ≤ p) × Apart (p + n) ps hi

Apart-weaken :
    (lo lo' : ℕ) (ps : List (ℕ × ℕ)) (hi : ℕ) → lo' ≤ lo → Apart lo ps hi → Apart lo' ps hi
Apart-weaken lo lo' [] hi le a = omega arith
Apart-weaken lo lo' ((p, n) ∷ ps) hi le (l, a) = (omega arith, a)

live-Apart_at :
    (h : ℕ → Header) (p a : ℕ) (bs : Blocks) → Chain h p a bs 0 → Apart a (live a bs) (end_at a bs)
live-Apart_at h p a [] c = omega arith
live-Apart_at h p a ((n, true) ∷ bs) (e, room, c) =
    Apart-weaken (a + n) a (live (a + n) bs) (end_at (a + n) bs) (omega arith)
      (live-Apart_at h a (a + n) bs c)
live-Apart_at h p a ((n, false) ∷ bs) (e, room, c) =
    let whole : a + header_size + (n - header_size) ≡ a + n = omega arith in
    (omega arith, rw whole (live-Apart_at h a (a + n) bs c))

-- The pieces that a heap has handed out lie in order between its start and its break.
live-Apart :
    (s : KHeap) (bs : Blocks) → IsHeap s bs → Apart kheap_start (live kheap_start bs) s.kheap_break
live-Apart s bs heap =
    subst (λ hi. Apart kheap_start (live kheap_start bs) hi) (sym heap.end)
      (live-Apart_at s.headers 0 kheap_start bs heap.chain)

-- A piece overlaps none of the others, and the headers before them have room, too.
abbrev pub IsClear : (ptr size : ℕ) → List (ℕ × ℕ) → Type 0
IsClear ptr size [] = Unit
IsClear ptr size ((q, n) ∷ ps) =
    ((q + n + header_size ≤ ptr) ⊎ (ptr + size + header_size ≤ q)) × IsClear ptr size ps

Apart-order : (lo : ℕ) (ps : List (ℕ × ℕ)) (hi : ℕ) → Apart lo ps hi → lo ≤ hi
Apart-order lo [] hi a = a
Apart-order lo ((q, n) ∷ ps) hi (l, a) = let up = Apart-order (q + n) ps hi a in omega arith

behind-IsClear :
    (lo : ℕ) (ps : List (ℕ × ℕ)) (hi ptr size : ℕ)
    → ptr + size ≤ lo
    → Apart lo ps hi
    → IsClear ptr size ps
behind-IsClear lo [] hi ptr size le a = tt
behind-IsClear lo ((q, n) ∷ ps) hi ptr size le (l, a) =
    (inr (omega arith), behind-IsClear (q + n) ps hi ptr size (omega arith) a)

Apart-IsClear :
    (lo : ℕ) (before behind_it : List (ℕ × ℕ)) (hi ptr given size : ℕ)
    → size ≤ given
    → Apart lo (before ++ (ptr, given) ∷ behind_it) hi
    → (lo + header_size ≤ ptr) × (ptr + size ≤ hi) × IsClear ptr size (before ++ behind_it)
Apart-IsClear lo [] behind_it hi ptr given size room (l, a) =
    let up = Apart-order (ptr + given) behind_it hi a in
    (l, omega arith, behind-IsClear (ptr + given) behind_it hi ptr size (omega arith) a)
Apart-IsClear lo ((q, n) ∷ before) behind_it hi ptr given size room (l, a) =
    let (below, up, clear) = Apart-IsClear (q + n) before behind_it hi ptr given size room a in
    (omega arith, up, (inl below, clear))

-- Of a heap as in the theorem on `kmalloc` and its blocks, the memory that `_kmalloc` returns lies with a
-- header before it between the start of the heap and its new break, and overlaps neither a piece of memory
-- that was handed out before nor the header before such a piece.
pub kmalloc-Apart :
    (root : ℕ) (s : KHeap) (bs : Blocks) (size : ℕ)
    → IsHeap s bs
    → Tidy bs
    → s.kheap_break + (header_size + size) < 2 ^ 64
    → (first_fit (header_size + size) bs ≡ none
        → (p : Phys) × (resize root s.phys s.kheap_break (s.kheap_break + (header_size + size))
            ≡ ok p))
    → (ptr : ℕ) × (s' : KHeap) × (kmalloc root s size ≡ ok (ptr, s'))
      × (kheap_start + header_size ≤ ptr)
      × (ptr + size ≤ s'.kheap_break)
      × IsClear ptr size (live kheap_start bs)
kmalloc-Apart root s bs size heap tidied bound can_grow =
    let (ptr, s', run, done) = kmalloc-Allocated root s bs size heap tidied bound can_grow in
    let pieces =
      subst (λ ps. Apart kheap_start ps s'.kheap_break) done.new
        (live-Apart s' done.blocks done.heap) in
    let (low, high, clear) =
      Apart-IsClear kheap_start done.before done.behind_it s'.kheap_break ptr done.given size
        done.room pieces in
    (ptr, s', run, low, high, subst (IsClear ptr size) (sym done.old) clear)
