-- ===== src/Mm/Heap/Grow.antt =====
-- The new block that `_kmalloc` in kernel/kernel/mm/heap.c puts at the break.
use ulmeros.Common.{
  ℕ, ◌+◌, ◌^◌, ◌∙◌, ◌≤◌, ◌<◌, ◌≡◌, refl, sym, ap, Bool, false, [], ◌∷◌, ◌++◌, arith, inl, inr,
  subst,
}
use mathlib.Core.List.{append_assoc}
use ulmeros.Mm.Page.{Phys}
use ulmeros.Mm.Heap.{Header, KHeap, header_size, kheap_start, put, append_block}
use ulmeros.Mm.Heap.Chain.{
  Blocks, IsHeap, end_at, next_of, next_of-pos, header, next_of-append, pos-eq,
}
use ulmeros.Mm.Heap.Splice.{put_self, put-at, put-other, zoom, splice_end}
use ulmeros.Mm.Heap.Blocks.{Blocks-cases}

append_block-first :
    (s : KHeap) (blk required : ℕ)
    → s.heap_last ≡ 0
    → s.heap_start ≡ 0
    → append_block s blk required
      ≡ record (put s blk (header 0 0 false required)) { heap_last = blk; heap_start = blk }
unfolding append_block
append_block-first s blk required e f = rw (e, f)

append_block-behind :
    (s : KHeap) (blk required : ℕ)
    → 0 < s.heap_last
    → 0 < s.heap_start
    → append_block s blk required ≡ (
        let s₁ = put s blk (header s.heap_last 0 false required) in
        record (put s₁ s.heap_last (record (s₁.headers s.heap_last) { next = blk })) {
          heap_last = blk;
        })
unfolding append_block put
append_block-behind s blk required pos started =
    rw (pos-eq s.heap_last pos, pos-eq s.heap_start started)

append-first :
    (s : KHeap) (required : ℕ)
    → IsHeap s []
    → header_size ≤ required
    → (p : Phys) (blk top : ℕ) → s.kheap_break ≡ blk
    → top ≡ blk + required
    → top < 2 ^ 64
    → IsHeap
        (append_block (record s { kheap_break = top; phys = p }) blk required)
        ((required, false) ∷ [])
unfolding put
append-first s required heap least p blk top at top_eq bound =
    rw
      (append_block-first (record s { kheap_break = top; phys = p }) blk required heap.last
        heap.start)
      (record {
        chain = (rw (sym at ∙ heap.end), least, tt);
        start = sym at ∙ heap.end;
        last = sym at ∙ heap.end;
        end = top_eq ∙ ap (λ (b : ℕ). b + required) (sym at ∙ heap.end);
        bound = bound;
      })

append-behind :
    (s : KHeap) (xs : Blocks) (n : ℕ) (f : Bool) (required : ℕ)
    → IsHeap s (xs ++ (n, f) ∷ [])
    → header_size ≤ required
    → (p : Phys) (blk top : ℕ) → s.kheap_break ≡ blk
    → top ≡ blk + required
    → top < 2 ^ 64
    → IsHeap
        (append_block (record s { kheap_break = top; phys = p }) blk required)
        (xs ++ (n, f) ∷ (required, false) ∷ [])
unfolding put
append-behind s xs n f required heap least p blk top at top_eq bound =
    let z = zoom s xs [] n f heap in
    let below = z.below in
    let end = z.end in
    let room = z.room in
    let a = end_at kheap_start xs in
    let s' : KHeap = record s { kheap_break = top; phys = p } in
    let last = z.last in
    let new = header s.heap_last 0 false required in
    let s₁ = put s' blk new in
    let old : Header = record (s₁.headers s.heap_last) { next = blk } in
    let place : a + n ≡ blk = sym end ∙ at in
    let started : s.heap_start ≡ next_of kheap_start xs a =
      heap.start ∙ next_of-append kheap_start xs ((n, f) ∷ []) 0 in
    rw
      (append_block-behind s' blk required (omega arith)
        (omega (arith, next_of-pos kheap_start xs a)))
      (splice_end s (record (put s₁ s.heap_last old) { heap_last = blk }) xs []
        ((required, false) ∷ []) n n f f heap
        (λ q lt.
          put-other s₁ s.heap_last q old (omega arith) ∙ put-other s' blk q new (omega arith))
        (rw place (
          put-at s₁ s.heap_last a old (sym last)
          ∙ ap (λ (x : Header). record x { next = blk })
              (put-other s' blk s.heap_last new (omega arith) ∙ ap s.headers last ∙ z.here)))
        room
        (
          rw place (
              put-other s₁ s.heap_last blk old (omega arith)
              ∙ put_self s' blk new
              ∙ ap (λ (l : ℕ). header l 0 false required) last),
          least,
          tt,
        )
        (sym place) refl (rw place top_eq) bound)

-- A new block at the break.
pub append-IsHeap :
    (s : KHeap) (bs : Blocks) (required : ℕ) (p : Phys)
    → IsHeap s bs
    → header_size ≤ required
    → s.kheap_break + required < 2 ^ 64
    → IsHeap
        (append_block
          (record s { kheap_break = s.kheap_break + required; phys = p })
          s.kheap_break
          required)
        (bs ++ (required, false) ∷ [])
append-IsHeap s bs required p heap least bound = elim (Blocks-cases bs) [
  | inl e ↦ rw e (
      append-first s required (subst (λ zs. IsHeap s zs) e heap) least p s.kheap_break
        (s.kheap_break + required) refl refl bound)
  | inr (xs, n, f, e) ↦
      rw (e, append_assoc xs ((n, f) ∷ []) ((required, false) ∷ []))
        (append-behind s xs n f required (subst (λ zs. IsHeap s zs) e heap) least p s.kheap_break
          (s.kheap_break + required) refl refl bound)
]
