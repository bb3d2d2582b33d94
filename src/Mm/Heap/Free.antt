-- ===== src/Mm/Heap/Free.antt =====
-- `kfree` of kernel/kernel/mm/heap.c: the block is free, free neighbours are joined, and what is free at
-- the end is given back.
use ulmeros.Common.{
  ℕ, suc, ◌+◌, ◌-◌, ◌^◌, ◌∙◌, ◌≤◌, ◌<◌, ◌≡◌, refl, ap, Bool, true, false, [], ◌∷◌, ◌++◌, ltb, ◌==◌,
  arith, subst,
}
use ulmeros.Common.Outcome.{ok}
use ulmeros.Mm.Page.{Phys}
use ulmeros.Mm.Heap.{
  Header, KHeap, heap_magic, header_size, kheap_start, put, resize, merge_next, merge_prev, trim,
  kfree,
}
use ulmeros.Mm.Heap.Chain.{
  Blocks, Chain, IsHeap, end_at, next_of, last_at, header, add64-eq, sub64-eq, pos-eq,
}
use ulmeros.Mm.Heap.Merge.{merge_next-IsHeap}
use ulmeros.Mm.Heap.Settle.{Settled, merge_prev-Settled}
use ulmeros.Mm.Heap.Trim.{trim-Settled}
use ulmeros.Mm.Heap.Splice.{zoom, mark-IsHeap}
use ulmeros.Mm.Heap.Blocks.{live, live-append, Tidy, TidyAfter, tidy, tidy-Tidy, live-tidy}

Tidy-behind :
    (b : Bool) (xs : Blocks) (n : ℕ) (f : Bool) (ys : Blocks)
    → TidyAfter b (xs ++ (n, f) ∷ ys)
    → TidyAfter f ys
Tidy-behind b [] n f ys (_, t) = t
Tidy-behind b ((m, g) ∷ xs) n f ys (_, t) = Tidy-behind g xs n f ys t

next_of-here : (a : ℕ) (xs : Blocks) (b : ℕ × Bool) (ys : Blocks) → next_of a (xs ++ b ∷ ys) 0 ≡ a
next_of-here a [] b ys = refl
next_of-here a (x ∷ xs) b ys = refl

last_at-ge : (p a : ℕ) (bs : Blocks) → p ≤ a → p ≤ last_at p a bs
last_at-ge p a [] h = omega arith
last_at-ge p a ((n, f) ∷ bs) h = omega (arith, last_at-ge a (a + n) bs)

last_at-room :
    (h : ℕ → Header) (p a : ℕ) (bs : Blocks)
    → Chain h p a bs 0
    → p + header_size ≤ a
    → last_at p a bs + header_size ≤ end_at a bs
last_at-room h p a [] c l = l
last_at-room h p a ((n, f) ∷ bs) (e, room, c) l = last_at-room h a (a + n) bs c (omega arith)

le-ltb : (a b : ℕ) → b ≤ a → ltb a b ≡ false
le-ltb a b h = ground arith

-- The checks that `kfree` makes of its argument pass at a block in use.
kfree_checked :
    (root : ℕ) (s s₁ s₂ s' : KHeap) (a prev next n : ℕ)
    → s.headers a ≡ header prev next false n
    → 0 < s.heap_start
    → s.heap_start ≤ a
    → a ≤ s.heap_last
    → s.heap_last + header_size < 2 ^ 64
    → merge_next (put s a (record (s.headers a) { available = true })) a ≡ ok s₁
    → merge_prev s₁ a ≡ ok s₂
    → trim (suc s.kheap_break) root s₂ ≡ ok s'
    → kfree root s (a + header_size) ≡ ok s'
unfolding kfree
kfree_checked root s s₁ s₂ s' a prev next n here started low high bound run₁ run₂ run₃ =
    rw
      (
        sub64-eq (a + header_size) header_size (omega arith) (omega arith),
        add64-eq s.heap_last header_size bound,
        back a header_size,
        pos-eq (a + header_size) (omega arith),
        pos-eq s.heap_last (omega arith),
        pos-eq s.heap_start started,
        le-ltb (a + header_size) s.heap_start (omega arith),
        le-ltb (s.heap_last + header_size) (a + header_size) (omega arith),
        ap (λ (x : Header). x.magic == heap_magic) here,
        ap (λ (x : Header). x.available) here,
      )
      (rw (run₁, run₂) run₃)
  where
    back : (a k : ℕ) → a + k - k ≡ a
    back a k = omega arith

-- Of a tidy heap, where the memory of a block in use is passed, and the pages behind the new end can be
-- unmapped if there is one: `kfree` returns. The blocks are then those before with this one marked as
-- free, adjacent free blocks joined and the free end given back, which is a tidy heap again; what is
-- handed out is what it was but for the memory passed.
pub kfree-Freed :
    (root : ℕ) (s : KHeap) (xs ys : Blocks) (n : ℕ)
    → IsHeap s (xs ++ (n, false) ∷ ys)
    → Tidy (xs ++ (n, false) ∷ ys)
    → (end_at kheap_start (tidy (xs ++ (n, true) ∷ ys)) < s.kheap_break
        → (p : Phys) × (resize root s.phys s.kheap_break
              (end_at kheap_start (tidy (xs ++ (n, true) ∷ ys)))
            ≡ ok p))
    → (s' : KHeap) × (kfree root s (end_at kheap_start xs + header_size) ≡ ok s')
      × IsHeap s' (tidy (xs ++ (n, true) ∷ ys))
      × Tidy (tidy (xs ++ (n, true) ∷ ys))
      × (live kheap_start (xs ++ (n, false) ∷ ys)
          ≡ live kheap_start xs
            ++ (end_at kheap_start xs + header_size, n - header_size)
              ∷ live (end_at kheap_start xs + n) ys)
      × (live kheap_start (tidy (xs ++ (n, true) ∷ ys))
          ≡ live kheap_start xs ++ live (end_at kheap_start xs + n) ys)
unfolding put
kfree-Freed root s xs ys n heap tidied can_shrink =
    let z = zoom s xs ys n false heap in
    let below = z.below in
    let above = z.above in
    let end = z.end in
    let top = z.bound in
    let last = z.last in
    let room = z.room in
    let a = end_at kheap_start xs in
    let start : s.heap_start ≡ kheap_start =
      heap.start ∙ next_of-here kheap_start xs (n, false) ys in
    let high = last_at-ge a (a + n) ys (omega arith) in
    let wide = last_at-room s.headers a (a + n) ys z.back (omega arith) in
    let s₀ = put s a (record (s.headers a) { available = true }) in
    let (s₁, m, zs, run₁, heap₁, (memory₁, break₁), same, after) =
      merge_next-IsHeap s₀ xs ys n (mark-IsHeap s xs ys n false true heap)
        (Tidy-behind false xs n false ys tidied) in
    let (s₂, run₂, (memory₂, break₂), settled) =
      merge_prev-Settled s₁ xs ys zs n m heap₁ tidied after in
    let (s', run₃, done) =
      trim-Settled s.kheap_break root s₂ (tidy (xs ++ (n, true) ∷ ys)) (omega arith)
        (subst (Settled s₂) same settled) (tidy-Tidy (xs ++ (n, true) ∷ ys))
        (rw (memory₂ ∙ memory₁, break₂ ∙ break₁) can_shrink) in
    (
      s',
      kfree_checked root s s₁ s₂ s' a (last_at 0 kheap_start xs) (next_of (a + n) ys 0) n z.here
          (omega arith) (omega arith) (omega arith) (omega arith) run₁ run₂ run₃,
      done,
      tidy-Tidy (xs ++ (n, true) ∷ ys),
      live-append kheap_start xs ((n, false) ∷ ys),
      live-tidy kheap_start (xs ++ (n, true) ∷ ys) ∙ live-append kheap_start xs ((n, true) ∷ ys),
    )
