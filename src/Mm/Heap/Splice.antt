-- ===== src/Mm/Heap/Splice.antt =====
-- One block of a heap and what follows it replaced, as marking, splitting and joining blocks in
-- kernel/kernel/mm/heap.c do.
use ulmeros.Common.{
  ℕ, ◌+◌, ◌^◌, ◌∙◌, ◌≤◌, ◌<◌, ◌≡◌, ◌≢◌, refl, sym, ap, Bool, ◌∷◌, ◌++◌, ==_refl, arith,
}
use ulmeros.Mm.Heap.{Header, KHeap, header_size, kheap_start, put}
use ulmeros.Mm.Heap.Chain.{
  Blocks, Chain, IsHeap, end_at, next_of, last_at, header, end_at-append, last_at-append,
  next_of-append, Chain-end, Chain-frame, Chain-append, Chain-split, ne-eq,
}

pub put_self : (s : KHeap) (p : ℕ) (x : Header) → (put s p x).headers p ≡ x
unfolding put
put_self s p x = rw (==_refl p)

pub put-at : (s : KHeap) (p q : ℕ) (x : Header) → q ≡ p → (put s p x).headers q ≡ x
put-at s p q x e = rw e (put_self s p x)

pub put-other : (s : KHeap) (p q : ℕ) (x : Header) → q ≢ p → (put s p x).headers q ≡ s.headers q
unfolding put
put-other s p q x h = rw (ne-eq q p h)

-- What the heap's state says of one of its blocks.
pub record Zoom (s : KHeap) (xs : Blocks) (n : ℕ) (f : Bool) (ys : Blocks) : Type 0 where
  pub front : Chain s.headers 0 kheap_start xs (end_at kheap_start xs)
  pub here :
      s.headers (end_at kheap_start xs)
      ≡ header (last_at 0 kheap_start xs) (next_of (end_at kheap_start xs + n) ys 0) f n
  pub room : header_size ≤ n
  pub back : Chain s.headers (end_at kheap_start xs) (end_at kheap_start xs + n) ys 0
  pub last : s.heap_last ≡ last_at (end_at kheap_start xs) (end_at kheap_start xs + n) ys
  pub below : kheap_start ≤ end_at kheap_start xs
  pub above : end_at kheap_start xs + n ≤ end_at (end_at kheap_start xs + n) ys
  pub end : s.kheap_break ≡ end_at (end_at kheap_start xs + n) ys
  pub bound : s.kheap_break < 2 ^ 64

pub zoom :
    (s : KHeap) (xs ys : Blocks) (n : ℕ) (f : Bool)
    → IsHeap s (xs ++ (n, f) ∷ ys)
    → Zoom s xs n f ys
zoom s xs ys n f heap =
    let a = end_at kheap_start xs in
    let (front, (here, room, back)) =
      Chain-split s.headers 0 kheap_start xs ((n, f) ∷ ys) 0 heap.chain in
    let below = Chain-end s.headers 0 kheap_start xs a front in
    let above = Chain-end s.headers a (a + n) ys 0 back in
    record {
      front = front;
      here = here;
      room = room;
      back = back;
      last = heap.last ∙ last_at-append 0 kheap_start xs ((n, f) ∷ ys);
      below = omega arith;
      above = omega arith;
      end = heap.end ∙ end_at-append kheap_start xs ((n, f) ∷ ys);
      bound = heap.bound;
    }

-- With `s'` of its own break.
pub splice_end :
    (s s' : KHeap) (xs ys zs : Blocks) (n m : ℕ) (f g : Bool)
    → IsHeap s (xs ++ (n, f) ∷ ys)
    → ((q : ℕ) → q < end_at kheap_start xs → s'.headers q ≡ s.headers q)
    → s'.headers (end_at kheap_start xs)
      ≡ header (last_at 0 kheap_start xs) (next_of (end_at kheap_start xs + m) zs 0) g m
    → header_size ≤ m
    → Chain s'.headers (end_at kheap_start xs) (end_at kheap_start xs + m) zs 0
    → s'.heap_last ≡ last_at (end_at kheap_start xs) (end_at kheap_start xs + m) zs
    → s'.heap_start ≡ s.heap_start
    → s'.kheap_break ≡ end_at (end_at kheap_start xs + m) zs
    → s'.kheap_break < 2 ^ 64
    → IsHeap s' (xs ++ (m, g) ∷ zs)
splice_end s s' xs ys zs n m f g heap same here room back last start end bound =
    let a = end_at kheap_start xs in
    let z = zoom s xs ys n f heap in
    record {
      chain =
          Chain-append s'.headers 0 kheap_start xs ((m, g) ∷ zs) 0
            (Chain-frame s.headers s'.headers 0 kheap_start xs a (λ q _ lt. same q lt) z.front)
            (here, room, back);
      start =
          start
          ∙ heap.start
          ∙ next_of-append kheap_start xs ((n, f) ∷ ys) 0
          ∙ sym (next_of-append kheap_start xs ((m, g) ∷ zs) 0);
      last = last ∙ sym (last_at-append 0 kheap_start xs ((m, g) ∷ zs));
      end = end ∙ sym (end_at-append kheap_start xs ((m, g) ∷ zs));
      bound = bound;
    }

pub splice :
    (s s' : KHeap) (xs ys zs : Blocks) (n m : ℕ) (f g : Bool)
    → IsHeap s (xs ++ (n, f) ∷ ys)
    → ((q : ℕ) → q < end_at kheap_start xs → s'.headers q ≡ s.headers q)
    → s'.headers (end_at kheap_start xs)
      ≡ header (last_at 0 kheap_start xs) (next_of (end_at kheap_start xs + m) zs 0) g m
    → header_size ≤ m
    → Chain s'.headers (end_at kheap_start xs) (end_at kheap_start xs + m) zs 0
    → s'.heap_last ≡ last_at (end_at kheap_start xs) (end_at kheap_start xs + m) zs
    → (s'.heap_start ≡ s.heap_start) × (s'.kheap_break ≡ s.kheap_break)
    → end_at (end_at kheap_start xs + m) zs ≡ end_at (end_at kheap_start xs + n) ys
    → IsHeap s' (xs ++ (m, g) ∷ zs)
splice s s' xs ys zs n m f g heap same here room back last (start, break) end =
    let z = zoom s xs ys n f heap in
    splice_end s s' xs ys zs n m f g heap same here room back last start (break ∙ z.end ∙ sym end)
      (rw break z.bound)

-- Marking a block as free or in use.
pub mark-IsHeap :
    (s : KHeap) (xs ys : Blocks) (n : ℕ) (f g : Bool)
    → IsHeap s (xs ++ (n, f) ∷ ys)
    → IsHeap
        (put s
          (end_at kheap_start xs)
          (record (s.headers (end_at kheap_start xs)) { available = g }))
        (xs ++ (n, g) ∷ ys)
unfolding put
mark-IsHeap s xs ys n f g heap =
    let a = end_at kheap_start xs in
    let z = zoom s xs ys n f heap in
    let x : Header = record (s.headers a) { available = g } in
    splice s (put s a x) xs ys ys n n f g heap (λ q lt. put-other s a q x (omega arith))
      (put_self s a x ∙ ap (λ (y : Header). record y { available = g }) z.here) z.room
      (Chain-frame s.headers _ a (a + n) ys 0
        (λ q lo _. put-other s a q x (let big = z.room in omega arith)) z.back)
      z.last (refl, refl) refl
