-- ===== src/Mm/Heap/Settle.antt =====
-- `merge_prev` of `kfree` in kernel/kernel/mm/heap.c, for the three positions that the block can have.
use ulmeros.Common.{
  ℕ, ◌+◌, ◌∙◌, ◌<◌, ◌≡◌, ◌⊎◌, refl, sym, ap, Bool, true, false, [], ◌∷◌, ◌++◌, arith, inl, inr,
  subst,
}
use mathlib.Core.List.{append_assoc, append-nil}
use ulmeros.Common.Outcome.{ok}
use ulmeros.Mm.Heap.{Header, KHeap, kheap_start, merge_prev}
use ulmeros.Mm.Heap.Chain.{Blocks, IsHeap, end_at, end_at-append, pos-eq}
use ulmeros.Mm.Heap.Merge.{Kept, merge_blocks-IsHeap}
use ulmeros.Mm.Heap.Splice.{zoom}
use ulmeros.Mm.Heap.Blocks.{Tidy, TidyAfter, Tidy-replace, Blocks-cases, tidy, tidy-join}

-- The list when both neighbours have been looked at: all of it is tidy, or all but a free block at its
-- end.
pub record Settled (s : KHeap) (target : Blocks) : Type 0 where
  pub front : Blocks
  pub size : ℕ
  pub rest : Blocks
  pub heap : IsHeap s (front ++ (size, true) ∷ rest)
  pub same : tidy (front ++ (size, true) ∷ rest) ≡ target
  pub tidied : ((rest ≡ []) × Tidy front) ⊎ Tidy (front ++ (size, true) ∷ rest)

keep_used :
    (k : ℕ) (bs cs : Blocks)
    → TidyAfter false cs
    → (c : Bool) → TidyAfter c ((k, false) ∷ bs)
    → TidyAfter c ((k, false) ∷ cs)
keep_used k bs cs t c (e, _) = (e, t)

keep_free :
    (k l : ℕ) (bs cs : Blocks)
    → TidyAfter true cs
    → (c : Bool) → TidyAfter c ((k, true) ∷ bs)
    → TidyAfter c ((l, true) ∷ cs)
keep_free k l bs cs t c (e, _) = (e, t)

keep_end : (k : ℕ) (bs : Blocks) (c : Bool) → TidyAfter c ((k, true) ∷ bs) → TidyAfter c []
keep_end k bs true (e, _) = e
keep_end k bs false (e, _) = refl

-- The three positions of the block: first of all, after one in use, and after a free one.
first-Settled :
    (s : KHeap) (zs : Blocks) (m : ℕ)
    → IsHeap s ((m, true) ∷ zs)
    → (zs ≡ []) ⊎ TidyAfter true zs
    → (merge_prev s kheap_start ≡ ok s) × Settled s (tidy ((m, true) ∷ zs))
unfolding merge_prev
first-Settled s zs m heap after = (
  rw (ap (λ (x : Header). x.prev) heap.chain.0),
  record {
    front = [];
    size = m;
    rest = zs;
    heap = heap;
    same = refl;
    tidied = elim after [ inl e ↦ inl (e, refl) | inr t ↦ inr (refl, t) ];
  },
)

used-Settled :
    (s : KHeap) (us ys zs : Blocks) (k n m : ℕ)
    → IsHeap s (us ++ (k, false) ∷ (m, true) ∷ zs)
    → Tidy (us ++ (k, false) ∷ (n, false) ∷ ys)
    → (zs ≡ []) ⊎ TidyAfter true zs
    → (merge_prev s (end_at kheap_start us + k) ≡ ok s)
      × Settled s (tidy (us ++ (k, false) ∷ (m, true) ∷ zs))
unfolding merge_prev
used-Settled s us ys zs k n m heap tidied after =
    let z = zoom s us ((m, true) ∷ zs) k false heap in
    let below = z.below in
    let pos : 0 < end_at kheap_start us = omega arith in
    let whole = append_assoc us ((k, false) ∷ []) ((m, true) ∷ zs) in
    let change = Tidy-replace false us ((k, false) ∷ (n, false) ∷ ys) in
    (
      rw (
        ap (λ (x : Header). x.prev) z.back.0,
        pos-eq (end_at kheap_start us) pos,
        ap (λ (x : Header). x.available) z.here,
      ),
      record {
        front = us ++ (k, false) ∷ [];
        size = m;
        rest = zs;
        heap = rw whole heap;
        same = ap tidy whole;
        tidied = elim after [
          | inl e ↦ inl (e, change ((k, false) ∷ []) (keep_used k ((n, false) ∷ ys) [] refl) tidied)
          | inr t ↦ inr (
              rw whole (
                change ((k, false) ∷ (m, true) ∷ zs)
                  (keep_used k ((n, false) ∷ ys) ((m, true) ∷ zs) (refl, t)) tidied))
        ];
      },
    )

free-Settled :
    (s : KHeap) (us ys zs : Blocks) (k n m : ℕ)
    → IsHeap s (us ++ (k, true) ∷ (m, true) ∷ zs)
    → Tidy (us ++ (k, true) ∷ (n, false) ∷ ys)
    → (zs ≡ []) ⊎ TidyAfter true zs
    → (s' : KHeap) × (merge_prev s (end_at kheap_start us + k) ≡ ok s')
      × Kept s s'
      × Settled s' (tidy (us ++ (k, true) ∷ (m, true) ∷ zs))
unfolding merge_prev
free-Settled s us ys zs k n m heap tidied after =
    let z = zoom s us ((m, true) ∷ zs) k true heap in
    let below = z.below in
    let pos : 0 < end_at kheap_start us = omega arith in
    let change = Tidy-replace false us ((k, true) ∷ (n, false) ∷ ys) in
    let (s', run, joined, kept) = merge_blocks-IsHeap s us zs k m true true heap in
    (
      s',
      rw
          (
            ap (λ (x : Header). x.prev) z.back.0,
            pos-eq (end_at kheap_start us) pos,
            ap (λ (x : Header). x.available) z.here,
          )
          run,
      kept,
      record {
        front = us;
        size = k + m;
        rest = zs;
        heap = joined;
        same = sym (tidy-join us k m zs);
        tidied = elim after [
          | inl e ↦
              inl (e, subst Tidy (append-nil us) (change [] (keep_end k ((n, false) ∷ ys)) tidied))
          | inr t ↦
              inr (change ((k + m, true) ∷ zs) (keep_free k (k + m) ((n, false) ∷ ys) zs t) tidied)
        ];
      },
    )

abbrev pub Merged : KHeap → (xs zs : Blocks) (m : ℕ) → Type 0
Merged s xs zs m =
    (s' : KHeap) × (merge_prev s (end_at kheap_start xs) ≡ ok s')
    × Kept s s'
    × Settled s' (tidy (xs ++ (m, true) ∷ zs))

-- A free block with the previous one, if that is free.
pub merge_prev-Settled :
    (s : KHeap) (xs ys zs : Blocks) (n m : ℕ)
    → IsHeap s (xs ++ (m, true) ∷ zs)
    → Tidy (xs ++ (n, false) ∷ ys)
    → (zs ≡ []) ⊎ TidyAfter true zs
    → Merged s xs zs m
merge_prev-Settled s xs ys zs n m heap tidied after = elim (Blocks-cases xs) [
  | inl e ↦
      let (run, done) =
        first-Settled s zs m (subst (λ vs. IsHeap s (vs ++ (m, true) ∷ zs)) e heap) after in
      subst (λ vs. Merged s vs zs m) (sym e) (s, run, (refl, refl), done)
  | inr (us, k, f, e) ↦
      subst (λ vs. Merged s vs zs m) (sym e)
        (behind-Merged s us ys zs k n m f
          (subst (λ vs. IsHeap s vs)
            (ap (λ vs. vs ++ (m, true) ∷ zs) e ∙ append_assoc us ((k, f) ∷ []) _) heap)
          (subst Tidy (ap (λ vs. vs ++ (n, false) ∷ ys) e ∙ append_assoc us ((k, f) ∷ []) _) tidied)
          after)
]
  where
    behind-Merged :
        (s : KHeap) (us ys zs : Blocks) (k n m : ℕ) (f : Bool)
        → IsHeap s (us ++ (k, f) ∷ (m, true) ∷ zs)
        → Tidy (us ++ (k, f) ∷ (n, false) ∷ ys)
        → (zs ≡ []) ⊎ TidyAfter true zs
        → Merged s (us ++ (k, f) ∷ []) zs m
    behind-Merged s us ys zs k n m true heap tidied after =
        rw
          (
            end_at-append kheap_start us ((k, true) ∷ []),
            append_assoc us ((k, true) ∷ []) ((m, true) ∷ zs),
          )
          (free-Settled s us ys zs k n m heap tidied after)
    behind-Merged s us ys zs k n m false heap tidied after =
        let (run, done) = used-Settled s us ys zs k n m heap tidied after in
        rw
          (
            end_at-append kheap_start us ((k, false) ∷ []),
            append_assoc us ((k, false) ∷ []) ((m, true) ∷ zs),
          )
          (s, run, (refl, refl), done)
