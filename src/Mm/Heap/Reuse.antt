-- ===== src/Mm/Heap/Reuse.antt =====
-- The search of `_kmalloc` in kernel/kernel/mm/heap.c for a free block, and `crop`, on the list of blocks.
use ulmeros.Common.{
  ℕ, zero, suc, ◌+◌, ◌-◌, ◌∙◌, ◌≤◌, ◌<◌, ◌≡◌, refl, ap, Bool, true, false, ◌&&◌, Option, none, some,
  [], ◌∷◌, ◌++◌, leb, length, arith, Bool-cases, inl, inr,
}
use ulmeros.Common.Outcome.{ok}
use ulmeros.Mm.Heap.{
  Header, KHeap, header_size, kheap_start, sub64, put, link_back, split, crop, find_block,
}
use ulmeros.Mm.Heap.Chain.{
  Blocks, Chain, IsHeap, end_at, next_of, header, Chain-frame, add64-eq, sub64-eq, link_back-Chain,
  link_back-below, link_back-rest, pos-eq,
}
use ulmeros.Mm.Heap.Splice.{put_self, put-other, zoom, splice}
use ulmeros.Mm.Heap.Blocks.{first_fit, behind, placed}

abbrev pub address : ℕ → Option (Blocks × ℕ × Blocks) → Option ℕ
address a none = none
address a (some (xs, n, ys)) = some (end_at a xs)

address-behind :
    (a n : ℕ) (f : Bool) (o : Option (Blocks × ℕ × Blocks))
    → address a (behind (n, f) o) ≡ address (a + n) o
address-behind a n f none = refl
address-behind a n f (some (xs, m, ys)) = refl

-- The search along the pointers is the search in the list.
pub find_block-first_fit :
    (fuel required : ℕ) (h : ℕ → Header) (p a : ℕ) (bs : Blocks)
    → Chain h p a bs 0
    → 0 < a
    → length bs < fuel
    → find_block fuel h (next_of a bs 0) required ≡ ok (address a (first_fit required bs))
unfolding find_block
find_block-first_fit zero required h p a bs c pos enough = absurd (omega arith)
find_block-first_fit (suc fuel) required h p a [] c pos enough = refl
find_block-first_fit (suc fuel) required h p a ((n, f) ∷ bs) (e, l, c) pos enough =
    rw (e, pos-eq a pos)
      (elim (Bool-cases (f && leb required n)) [
        | inl fits ↦ rw fits
        | inr small ↦
            rw (small, address-behind a n f (first_fit required bs))
              (find_block-first_fit fuel required h a (a + n) bs c (omega arith) (omega arith))
      ])

-- Cutting a block leaves the rest as a free block behind it.
split-IsHeap :
    (s : KHeap) (xs ys : Blocks) (n required : ℕ)
    → IsHeap s (xs ++ (n, false) ∷ ys)
    → header_size ≤ required
    → required + header_size < n
    → IsHeap
        (split s (end_at kheap_start xs) required (n - required))
        (xs ++ (required, false) ∷ (n - required, true) ∷ ys)
unfolding put split
split-IsHeap s xs ys n required heap least more =
    let z = zoom s xs ys n false heap in
    let a = end_at kheap_start xs in
    let r = a + required in
    let first : Header = record (s.headers a) { size = required; next = r } in
    let second = header a (s.headers a).next true (n - required) in
    let s₁ = put s a first in
    let s₂ = put s₁ r second in
    let below = z.below in
    let above = z.above in
    let end = z.end in
    let bound = z.bound in
    let next : (s₂.headers r).next ≡ next_of (a + n) ys 0 =
      ap (λ (x : Header). x.next) (put_self s₁ r second) ∙ ap (λ (x : Header). x.next) z.here in
    let behind = λ (q : ℕ) (lt : a + n ≤ q) (_ : q < end_at (a + n) ys).
      put-other s₁ r q second (omega arith) ∙ put-other s a q first (omega arith) in
    let (rest, last) =
      link_back-Chain s₂ a r (a + n) ys next (omega arith) z.last
        (Chain-frame s.headers s₂.headers a (a + n) ys 0 behind z.back) in
    let keep = λ (q : ℕ) (lt : q < a + n). link_back-below s₂ r (a + n) ys q next lt in
    let index : r + (n - required) ≡ a + n = omega arith in
    let whole =
      splice s (link_back s₂ r) xs ys ((n - required, true) ∷ ys) n required false false heap
        (λ q lt.
          keep q (omega arith)
          ∙ put-other s₁ r q second (omega arith)
          ∙ put-other s a q first (omega arith))
        (keep a (omega arith)
          ∙ put-other s₁ r a second (omega arith)
          ∙ put_self s a first
          ∙ ap (λ (x : Header). record x { size = required; next = r }) z.here)
        least
        (rw index (
          keep r (omega arith)
              ∙ put_self s₁ r second
              ∙ ap (λ (x : Header). header a x.next true (n - required)) z.here,
          omega arith,
          rest,
        ))
        (rw index last) ((link_back-rest s₂ r).0, (link_back-rest s₂ r).1) (rw index refl) in
    rw (add64-eq a required (omega arith)) whole

pub crop-IsHeap :
    (s : KHeap) (xs ys : Blocks) (n required : ℕ)
    → IsHeap s (xs ++ (n, false) ∷ ys)
    → header_size ≤ required
    → required ≤ n
    → IsHeap (crop s (end_at kheap_start xs) required) (xs ++ placed required n ys)
unfolding crop
crop-IsHeap s xs ys n required heap least room =
    let z = zoom s xs ys n false heap in
    let below = z.below in
    let above = z.above in
    let end = z.end in
    let bound = z.bound in
    let excess : sub64 (s.headers (end_at kheap_start xs)).size required ≡ n - required =
      ap (λ (x : Header). sub64 x.size required) z.here ∙ sub64-eq n required (omega arith) room in
    elim (Bool-cases (leb (n - required) header_size)) [
      | inl little ↦ rw (excess, little) heap
      | inr more ↦ rw (excess, more) (split-IsHeap s xs ys n required heap least (ground arith))
    ]

split-phys : (s : KHeap) (b required excess : ℕ) → (split s b required excess).phys ≡ s.phys
unfolding split put
split-phys s b required excess = (link_back-rest _ _).2

pub crop-phys : (s : KHeap) (b required : ℕ) → (crop s b required).phys ≡ s.phys
unfolding crop
crop-phys s b required =
    let excess = sub64 (s.headers b).size required in
    elim (Bool-cases (leb excess header_size)) [
      | inl little ↦ rw little
      | inr more ↦ rw more (split-phys s b required excess)
    ]
