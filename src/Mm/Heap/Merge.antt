-- ===== src/Mm/Heap/Merge.antt =====
-- Joining free neighbours in `kfree` of kernel/kernel/mm/heap.c, on the list of blocks.
use ulmeros.Common.{
  ℕ, ◌+◌, ◌∙◌, ◌<◌, ◌≡◌, ◌⊎◌, refl, sym, ap, Bool, true, false, [], ◌∷◌, ◌++◌, arith, inl, inr,
}
use ulmeros.Common.Outcome.{ok}
use ulmeros.Mm.Heap.{Header, KHeap, kheap_start, add64, put, link_back, merge_blocks, merge_next}
use ulmeros.Mm.Heap.Chain.{
  Blocks, IsHeap, end_at, next_of, last_at, header, Chain-end, Chain-frame, add64-eq,
  link_back-Chain, link_back-below, link_back-rest, pos-eq,
}
use ulmeros.Mm.Heap.Splice.{put_self, put-other, zoom, splice}
use ulmeros.Mm.Heap.Blocks.{TidyAfter, tidy, tidy-join}

abbrev pub Kept : KHeap → KHeap → Type 0
Kept s s' = (s'.phys ≡ s.phys) × (s'.kheap_break ≡ s.kheap_break)

pub merge_blocks-IsHeap :
    (s : KHeap) (xs ys : Blocks) (n m : ℕ) (f g : Bool)
    → IsHeap s (xs ++ (n, f) ∷ (m, g) ∷ ys)
    → (s' : KHeap) × (merge_blocks s (end_at kheap_start xs) (end_at kheap_start xs + n) ≡ ok s')
      × IsHeap s' (xs ++ (n + m, f) ∷ ys)
      × Kept s s'
unfolding merge_blocks put
merge_blocks-IsHeap s xs ys n m f g heap =
    let z = zoom s xs ((m, g) ∷ ys) n f heap in
    let (second_eq, second_room, tail) = z.back in
    let a = end_at kheap_start xs in
    let b = a + n in
    let below = z.below in
    let room = z.room in
    let end = z.end in
    let top = z.bound in
    let long = Chain-end s.headers b (b + m) ys 0 tail in
    let joined : Header = record (s.headers a) {
      size = add64 (s.headers a).size (s.headers b).size;
      next = (s.headers b).next;
    } in
    let s₁ = put s a joined in
    let s₂ = link_back s₁ a in
    let void : Header = record (s₂.headers b) { magic = 0 } in
    let whole : joined ≡ header (last_at 0 kheap_start xs) (next_of (b + m) ys 0) f (n + m) =
      ap
        (λ (x : Header). record x {
          size = add64 x.size (s.headers b).size;
          next = (s.headers b).next;
        })
        z.here
      ∙ ap (λ (y : Header). header (last_at 0 kheap_start xs) y.next f (add64 n y.size)) second_eq
      ∙ ap (λ (k : ℕ). header (last_at 0 kheap_start xs) (next_of (b + m) ys 0) f k)
          (add64-eq n m (omega arith)) in
    let next : (s₁.headers a).next ≡ next_of (b + m) ys 0 =
      ap (λ (x : Header). x.next) (put_self s a joined ∙ whole) in
    let (rest, last) = link_back-Chain s₁ b a (b + m) ys next (omega arith) z.last (
      Chain-frame s.headers s₁.headers b (b + m) ys 0
        (λ q lt _. put-other s a q joined (omega arith)) tail) in
    let keep = λ (q : ℕ) (lt : q < b).
      put-other s₂ b q void (omega arith) ∙ link_back-below s₁ a (b + m) ys q next (omega arith) in
    let index : a + (n + m) ≡ b + m = omega arith in
    (
      put s₂ b void,
      rw (ap (λ (x : Header). x.magic) z.here, ap (λ (x : Header). x.magic) second_eq),
      splice s (put s₂ b void) xs ((m, g) ∷ ys) ys n (n + m) f f heap
          (λ q lt. keep q (omega arith) ∙ put-other s a q joined (omega arith))
          (rw index (keep a (omega arith) ∙ put_self s a joined ∙ whole)) (omega arith)
          (rw index (
            Chain-frame s₂.headers _ a (b + m) ys 0 (λ q lt _. put-other s₂ b q void (omega arith))
              rest))
          (rw index last) ((link_back-rest s₁ a).0, (link_back-rest s₁ a).1) (rw index refl),
      ((link_back-rest s₁ a).2, (link_back-rest s₁ a).1),
    )

-- A free block with the next one, if that is free: what then follows is in use, or nothing.
pub merge_next-IsHeap :
    (s : KHeap) (xs ys : Blocks) (n : ℕ)
    → IsHeap s (xs ++ (n, true) ∷ ys)
    → TidyAfter false ys
    → (s' : KHeap) × (m : ℕ) × (zs : Blocks) × (merge_next s (end_at kheap_start xs) ≡ ok s')
      × IsHeap s' (xs ++ (m, true) ∷ zs)
      × Kept s s'
      × (tidy (xs ++ (m, true) ∷ zs) ≡ tidy (xs ++ (n, true) ∷ ys))
      × ((zs ≡ []) ⊎ TidyAfter true zs)
unfolding merge_next
merge_next-IsHeap s xs [] n heap tidied =
    let z = zoom s xs [] n true heap in
    (s, n, [], rw (ap (λ (x : Header). x.next) z.here), heap, (refl, refl), refl, inl refl)
merge_next-IsHeap s xs ((k, false) ∷ ys) n heap (e, t) =
    let z = zoom s xs ((k, false) ∷ ys) n true heap in
    let below = z.below in
    let pos : 0 < end_at kheap_start xs + n = omega arith in
    (
      s,
      n,
      (k, false) ∷ ys,
      rw (
        ap (λ (x : Header). x.next) z.here,
        pos-eq (end_at kheap_start xs + n) pos,
        ap (λ (x : Header). x.available) z.back.0,
      ),
      heap,
      (refl, refl),
      refl,
      inr (refl, t),
    )
merge_next-IsHeap s xs ((k, true) ∷ ys) n heap (e, t) =
    let z = zoom s xs ((k, true) ∷ ys) n true heap in
    let below = z.below in
    let pos : 0 < end_at kheap_start xs + n = omega arith in
    let (s', run, heap', same) = merge_blocks-IsHeap s xs ys n k true true heap in
    (
      s',
      n + k,
      ys,
      rw
          (
            ap (λ (x : Header). x.next) z.here,
            pos-eq (end_at kheap_start xs + n) pos,
            ap (λ (x : Header). x.available) z.back.0,
          )
          run,
      heap',
      same,
      sym (tidy-join xs n k ys),
      inr t,
    )
