-- ===== src/Mm/Heap/Trim.antt =====
-- The last loop of `kfree` in kernel/kernel/mm/heap.c: free memory at the end of the heap is given back.
use ulmeros.Common.{
  ℕ, zero, suc, ◌+◌, ◌^◌, ◌∙◌, ◌<◌, ◌≡◌, refl, sym, ap, Bool, true, false, [], ◌∷◌, ◌++◌, arith,
  inl, inr, subst,
}
use mathlib.Core.List.{append_assoc}
use ulmeros.Common.Outcome.{ok}
use ulmeros.Mm.Page.{Phys}
use ulmeros.Mm.Heap.{Header, KHeap, kheap_start, sub64, put, kbrk, resize, drop_last, trim, add64}
use ulmeros.Mm.Heap.Chain.{Blocks, IsHeap, end_at, last_at, header, end_at-append, pos-eq}
use ulmeros.Mm.Heap.Settle.{Settled}
use ulmeros.Mm.Heap.Splice.{put-at, put-other, zoom, splice_end}
use ulmeros.Mm.Heap.Blocks.{Tidy, TidyAfter, Blocks-cases, tidy, tidy-drop, tidy-eq}

Tidy-last :
    (b : Bool) (xs : Blocks) (n : ℕ) (f : Bool) → TidyAfter b (xs ++ (n, f) ∷ []) → f ≡ false
Tidy-last b [] n f (_, e) = e
Tidy-last b ((m, g) ∷ xs) n f (_, t) = Tidy-last g xs n f t

-- Nothing is given back where the last block is in use.
trim-Tidy :
    (fuel root : ℕ) (s : KHeap) (bs : Blocks)
    → IsHeap s bs
    → Tidy bs
    → trim (suc fuel) root s ≡ ok s
unfolding trim
trim-Tidy fuel root s bs heap tidied = elim (Blocks-cases bs) [
  | inl e ↦ rw (heap.last ∙ ap (last_at 0 kheap_start) e)
  | inr (xs, n, f, e) ↦
      let z = zoom s xs [] n f (subst (IsHeap s) e heap) in
      let below = z.below in
      let last = z.last in
      let used = Tidy-last false xs n f (subst Tidy e tidied) in
      rw (
        pos-eq s.heap_last (omega arith),
        ap (λ (p : ℕ). (s.headers p).available) last
            ∙ ap (λ (x : Header). x.available) z.here
            ∙ used,
      )
]

drop_last-first :
    (s : KHeap)
    → (s.headers s.heap_last).prev ≡ 0
    → ((drop_last s).heap_start ≡ 0) × ((drop_last s).heap_last ≡ 0)
unfolding drop_last
drop_last-first s e = rw e (refl, refl)

drop_last-next :
    (s : KHeap)
    → 0 < (s.headers s.heap_last).prev
    → drop_last s ≡ (
        let s₁ = put s s.heap_last (record (s.headers s.heap_last) { magic = 0 }) in
        let prev = (s.headers s.heap_last).prev in
        record (put s₁ prev (record (s₁.headers prev) { next = 0 })) { heap_last = prev })
unfolding drop_last
drop_last-next s pos = rw (pos-eq (s.headers s.heap_last).prev pos)

drop_last-only :
    (s : KHeap) (m : ℕ) (p : Phys)
    → IsHeap s ((m, true) ∷ [])
    → IsHeap (record (drop_last s) { kheap_break = kheap_start; phys = p }) []
drop_last-only s m p heap =
    let (start, last) =
      drop_last-first s
        (ap (λ (q : ℕ). (s.headers q).prev) heap.last ∙ ap (λ (x : Header). x.prev) heap.chain.0) in
    record { chain = tt; start = start; last = last; end = refl; bound = omega arith }

drop_last-behind :
    (s : KHeap) (xs : Blocks) (k m : ℕ) (f : Bool) (p : Phys)
    → IsHeap s (xs ++ (k, f) ∷ (m, true) ∷ [])
    → IsHeap
        (record (drop_last s) { kheap_break = end_at kheap_start xs + k; phys = p })
        (xs ++ (k, f) ∷ [])
unfolding put
drop_last-behind s xs k m f p heap =
    let z = zoom s xs ((m, true) ∷ []) k f heap in
    let a = end_at kheap_start xs in
    let below = z.below in
    let room = z.room in
    let end = z.end in
    let top = z.bound in
    let last = z.last in
    let prev = (s.headers s.heap_last).prev in
    let prev_eq : prev ≡ a =
      ap (λ (q : ℕ). (s.headers q).prev) z.last ∙ ap (λ (x : Header). x.prev) z.back.0 in
    let void : Header = record (s.headers s.heap_last) { magic = 0 } in
    let s₁ = put s s.heap_last void in
    let ends : Header = record (s₁.headers prev) { next = 0 } in
    rw (drop_last-next s (omega arith)) (
      splice_end s (record (put s₁ prev ends) { heap_last = prev; kheap_break = a + k; phys = p })
        xs ((m, true) ∷ []) [] k k f f heap
        (λ q lt.
          put-other s₁ prev q ends (omega arith) ∙ put-other s s.heap_last q void (omega arith))
        (put-at s₁ prev a ends (sym prev_eq)
          ∙ ap (λ (x : Header). record x { next = 0 })
              (put-other s s.heap_last prev void (omega arith) ∙ ap s.headers prev_eq ∙ z.here))
        room tt prev_eq refl refl (omega arith))

drop_last-IsHeap :
    (s : KHeap) (xs : Blocks) (m : ℕ) (p : Phys)
    → IsHeap s (xs ++ (m, true) ∷ [])
    → IsHeap (record (drop_last s) { kheap_break = end_at kheap_start xs; phys = p }) xs
drop_last-IsHeap s xs m p heap = elim (Blocks-cases xs) [
  | inl e ↦ rw e (drop_last-only s m p (subst (λ vs. IsHeap s (vs ++ (m, true) ∷ [])) e heap))
  | inr (us, k, f, e) ↦
      rw (e, end_at-append kheap_start us ((k, f) ∷ []))
        (drop_last-behind s us k m f p (
          subst (IsHeap s)
            (ap (λ vs. vs ++ (m, true) ∷ []) e ∙ append_assoc us ((k, f) ∷ []) ((m, true) ∷ []))
            heap))
]

drop_last-rest :
    (s : KHeap) → ((drop_last s).kheap_break ≡ s.kheap_break) × ((drop_last s).phys ≡ s.phys)
unfolding drop_last put
drop_last-rest s = ground arith

kbrk_lem :
    (root : ℕ) (s : KHeap) (increment new_brk : ℕ) (p : Phys)
    → add64 s.kheap_break increment ≡ new_brk
    → resize root s.phys s.kheap_break new_brk ≡ ok p
    → kbrk root s increment ≡ ok (s.kheap_break, record s { kheap_break = new_brk; phys = p })
unfolding kbrk
kbrk_lem root s increment new_brk p sum done = rw (sum, done)

add64-sub64 : (b m a : ℕ) → b ≡ a + m → b < 2 ^ 64 → 0 < m → add64 b (sub64 0 m) ≡ a
unfolding add64 sub64
add64-sub64 b m a e lt pos = omega arith

trim_step :
    (fuel root b : ℕ) (s s' : KHeap)
    → 0 < s.heap_last
    → (s.headers s.heap_last).available ≡ true
    → kbrk root (drop_last s) (sub64 0 (s.headers s.heap_last).size) ≡ ok (b, s')
    → trim (suc fuel) root s ≡ trim fuel root s'
unfolding trim
trim_step fuel root b s s' pos free run = rw (pos-eq s.heap_last pos, free, run)

-- A free block at the end is given back, and no more where the rest is tidy.
trim-drop :
    (fuel root : ℕ) (s : KHeap) (xs : Blocks) (m : ℕ) (p : Phys)
    → IsHeap s (xs ++ (m, true) ∷ [])
    → Tidy xs
    → resize root s.phys s.kheap_break (end_at kheap_start xs) ≡ ok p
    → (s' : KHeap) × (trim (suc (suc fuel)) root s ≡ ok s') × IsHeap s' xs
trim-drop fuel root s xs m p heap tidied unmapped =
    let z = zoom s xs [] m true heap in
    let below = z.below in
    let room = z.room in
    let last = z.last in
    let block : s.headers s.heap_last ≡ header (last_at 0 kheap_start xs) 0 true m =
      ap s.headers z.last ∙ z.here in
    let (break, memory) = drop_last-rest s in
    let size = ap (λ (x : Header). x.size) block in
    let s' : KHeap = record (drop_last s) { kheap_break = end_at kheap_start xs; phys = p } in
    let dropped : IsHeap s' xs = drop_last-IsHeap s xs m p heap in
    let run =
      kbrk_lem root (drop_last s) (sub64 0 (s.headers s.heap_last).size) (end_at kheap_start xs) p
        (rw (break, size)
          (add64-sub64 s.kheap_break m (end_at kheap_start xs) z.end z.bound (omega arith)))
        (rw (break, memory) unmapped) in
    (
      s',
      trim_step (suc fuel) root (drop_last s).kheap_break s s' (omega arith)
            (ap (λ (x : Header). x.available) block) run
          ∙ trim-Tidy fuel root s' xs dropped tidied,
      dropped,
    )

-- The last loop on what joining has left.
pub trim-Settled :
    (fuel root : ℕ) (s : KHeap) (target : Blocks)
    → 0 < fuel
    → Settled s target
    → Tidy target
    → (end_at kheap_start target < s.kheap_break
        → (p : Phys) × (resize root s.phys s.kheap_break (end_at kheap_start target) ≡ ok p))
    → (s' : KHeap) × (trim (suc fuel) root s ≡ ok s') × IsHeap s' target
trim-Settled zero root s target enough settled tidied can_shrink = elim enough [ ]
trim-Settled (suc fuel) root s target enough settled tidied can_shrink = elim settled.tidied [
  | inr whole ↦
      let same : settled.front ++ (settled.size, true) ∷ settled.rest ≡ target =
        sym (tidy-eq _ whole) ∙ settled.same in
      let heap : IsHeap s target = subst (IsHeap s) same settled.heap in
      (s, trim-Tidy (suc fuel) root s target heap tidied, heap)
  | inl (e, front) ↦
      let same : target ≡ settled.front =
        sym settled.same
        ∙ ap (λ r. tidy (settled.front ++ (settled.size, true) ∷ r)) e
        ∙ tidy-drop settled.front settled.size
        ∙ tidy-eq settled.front front in
      let heap : IsHeap s (settled.front ++ (settled.size, true) ∷ []) =
        subst (λ r. IsHeap s (settled.front ++ (settled.size, true) ∷ r)) e settled.heap in
      let z = zoom s settled.front [] settled.size true heap in
      let end = z.end in
      let room = z.room in
      let (p, unmapped) = can_shrink (rw same (omega arith)) in
      let (s', run, done) = trim-drop fuel root s settled.front settled.size p heap front (
        subst (λ bs. resize root s.phys s.kheap_break (end_at kheap_start bs) ≡ ok p) same
          unmapped) in
      (s', run, rw same done)
]
