-- ===== src/Mm/Heap/Malloc.antt =====
-- `_kmalloc` of kernel/kernel/mm/heap.c: what it hands out is new, and what was handed out stays.
use ulmeros.Common.{
  ℕ, suc, ◌+◌, ◌-◌, ◌^◌, ◌∙◌, ◌≤◌, ◌<◌, ◌≡◌, refl, sym, ap, Bool, true, false, none, some, List, [],
  ◌∷◌, ◌++◌, leb, arith, Bool-cases, inl, inr, subst, Option-cases,
}
use mathlib.Core.List.{append-nil}
use ulmeros.Common.Outcome.{ok}
use ulmeros.Mm.Page.{Phys}
use ulmeros.Mm.Heap.{
  KHeap, header_size, kheap_start, put, crop, find_block, append_block, use_block, kbrk, resize,
  kmalloc,
}
use ulmeros.Mm.Heap.Chain.{Blocks, IsHeap, end_at, Chain-end, add64-eq, ne-eq}
use ulmeros.Mm.Heap.Reuse.{address, find_block-first_fit, crop-IsHeap}
use ulmeros.Mm.Heap.Grow.{append-IsHeap}
use ulmeros.Mm.Heap.Splice.{zoom, mark-IsHeap}
use ulmeros.Mm.Heap.Blocks.{
  live, live-append, Tidy, TidyAfter, Tidy-replace, Tidy-weaken, first_fit, first_fit-eq, placed,
}

-- What a call of `_kmalloc` for `size` bytes has done: its memory is one more piece of what is handed
-- out, of that size or larger, and the other pieces are the same.
pub record Allocated (s : KHeap) (bs : Blocks) (size ptr : ℕ) (s' : KHeap) : Type 0 where
  pub blocks : Blocks
  pub heap : IsHeap s' blocks
  pub tidied : Tidy blocks
  pub before : List (ℕ × ℕ)
  pub behind_it : List (ℕ × ℕ)
  pub given : ℕ
  pub room : size ≤ given
  pub old : live kheap_start bs ≡ before ++ behind_it
  pub new : live kheap_start blocks ≡ before ++ (ptr, given) ∷ behind_it

placed-live :
    (a size n : ℕ) (ys : Blocks)
    → header_size + size ≤ n
    → (given : ℕ) × (size ≤ given)
      × (live a (placed (header_size + size) n ys) ≡ (a + header_size, given) ∷ live (a + n) ys)
placed-live a size n ys room = elim (Bool-cases (leb (n - (header_size + size)) header_size)) [
  | inl little ↦ (n - header_size, omega arith, rw little)
  | inr more ↦
      let sum : a + (header_size + size) + (n - (header_size + size)) ≡ a + n = omega arith in
      let rest : header_size + size - header_size ≡ size = omega arith in
      (size, omega arith, rw (more, sum, rest))
]

placed-Tidy :
    (required n : ℕ) (ys : Blocks) (b : Bool)
    → TidyAfter b ((n, true) ∷ ys)
    → TidyAfter b (placed required n ys)
placed-Tidy required n ys true (e, t) = cc
placed-Tidy required n ys false (e, t) = elim (Bool-cases (leb (n - required) header_size)) [
  | inl little ↦ rw little (refl, Tidy-weaken ys t false)
  | inr more ↦ rw more (refl, (refl, t))
]

-- Where a free block is large enough.
reuses :
    (root : ℕ) (s : KHeap) (xs ys : Blocks) (n size : ℕ)
    → IsHeap s (xs ++ (n, true) ∷ ys)
    → Tidy (xs ++ (n, true) ∷ ys)
    → header_size + size < 2 ^ 64
    → first_fit (header_size + size) (xs ++ (n, true) ∷ ys) ≡ some (xs, n, ys)
    → header_size + size ≤ n
    → (s' : KHeap) × (kmalloc root s size ≡ ok (end_at kheap_start xs + header_size, s'))
      × Allocated s (xs ++ (n, true) ∷ ys) size (end_at kheap_start xs + header_size) s'
unfolding kmalloc use_block
reuses root s xs ys n size heap tidied bound found room =
    let bs = xs ++ (n, true) ∷ ys in
    let required = header_size + size in
    let a = end_at kheap_start xs in
    let z = zoom s xs ys n true heap in
    let above = z.above in
    let end = z.end in
    let top = z.bound in
    let used = put s a (record (s.headers a) { available = false }) in
    let long = Chain-end s.headers 0 kheap_start bs 0 heap.chain in
    let last = heap.end in
    let search : find_block (suc s.kheap_break) s.headers s.heap_start required ≡ ok (some a) =
      ap (λ (p : ℕ). find_block (suc s.kheap_break) s.headers p required) heap.start
      ∙ find_block-first_fit (suc s.kheap_break) required s.headers 0 kheap_start bs heap.chain
          (omega arith) (omega arith)
      ∙ ap (λ o. ok (address kheap_start o)) found in
    let (given, enough, new) = placed-live a size n ys room in
    (
      crop used a required,
      rw (add64-eq header_size size bound, search, add64-eq a header_size (omega arith)),
      record {
        blocks = xs ++ placed required n ys;
        heap =
            crop-IsHeap used xs ys n required (mark-IsHeap s xs ys n true false heap) (omega arith)
              room;
        tidied =
            Tidy-replace false xs ((n, true) ∷ ys) (placed required n ys)
              (placed-Tidy required n ys) tidied;
        before = live kheap_start xs;
        behind_it = live (a + n) ys;
        given = given;
        room = enough;
        old = live-append kheap_start xs ((n, true) ∷ ys);
        new =
            live-append kheap_start xs (placed required n ys)
            ∙ ap (λ l. live kheap_start xs ++ l) new;
      },
    )

Tidy-used : (b : Bool) (bs : Blocks) (m : ℕ) → TidyAfter b bs → TidyAfter b (bs ++ (m, false) ∷ [])
Tidy-used true [] m t = (refl, refl)
Tidy-used false [] m t = (refl, refl)
Tidy-used b ((n, f) ∷ bs) m (e, t) = (e, Tidy-used f bs m t)

-- Where none is.
grows :
    (root : ℕ) (s : KHeap) (bs : Blocks) (size : ℕ) (p : Phys)
    → IsHeap s bs
    → Tidy bs
    → s.kheap_break + (header_size + size) < 2 ^ 64
    → first_fit (header_size + size) bs ≡ none
    → resize root s.phys s.kheap_break (s.kheap_break + (header_size + size)) ≡ ok p
    → (s' : KHeap) × (kmalloc root s size ≡ ok (s.kheap_break + header_size, s'))
      × Allocated s bs size (s.kheap_break + header_size) s'
unfolding kmalloc use_block kbrk
grows root s bs size p heap tidied bound none_fits mapped =
    let required = header_size + size in
    let long = Chain-end s.headers 0 kheap_start bs 0 heap.chain in
    let last = heap.end in
    let grown : KHeap = record s { kheap_break = s.kheap_break + required; phys = p } in
    let search : find_block (suc s.kheap_break) s.headers s.heap_start required ≡ ok none =
      ap (λ (p : ℕ). find_block (suc s.kheap_break) s.headers p required) heap.start
      ∙ find_block-first_fit (suc s.kheap_break) required s.headers 0 kheap_start bs heap.chain
          (omega arith) (omega arith)
      ∙ ap (λ o. ok (address kheap_start o)) none_fits in
    (
      append_block grown s.kheap_break required,
      rw (
        add64-eq header_size size (omega arith),
        search,
        add64-eq s.kheap_break required bound,
        mapped,
        ne-eq s.kheap_break (2 ^ 64 - 1) (omega arith),
        add64-eq s.kheap_break header_size (omega arith),
      ),
      record {
        blocks = bs ++ (required, false) ∷ [];
        heap = append-IsHeap s bs required p heap (omega arith) bound;
        tidied = Tidy-used false bs required tidied;
        before = live kheap_start bs;
        behind_it = [];
        given = size;
        room = omega arith;
        old = sym (append-nil _);
        new =
            live-append kheap_start bs ((required, false) ∷ [])
            ∙ ap (λ (x : ℕ × ℕ). live kheap_start bs ++ x ∷ []) (ground arith);
      },
    )

-- Of a tidy heap with `bs` as its blocks, whose break stays below 2^64 after 44 more bytes than
-- `size`, and which can grow by that much if no free block is large enough: `_kmalloc` returns, and
-- the heap is again that of a tidy list of blocks. The memory it returns is one more piece of what is
-- handed out, of `size` bytes or more; the other pieces are as they were.
pub kmalloc-Allocated :
    (root : ℕ) (s : KHeap) (bs : Blocks) (size : ℕ)
    → IsHeap s bs
    → Tidy bs
    → s.kheap_break + (header_size + size) < 2 ^ 64
    → (first_fit (header_size + size) bs ≡ none
        → (p : Phys) × (resize root s.phys s.kheap_break (s.kheap_break + (header_size + size))
            ≡ ok p))
    → (ptr : ℕ) × (s' : KHeap) × (kmalloc root s size ≡ ok (ptr, s')) × Allocated s bs size ptr s'
kmalloc-Allocated root s bs size heap tidied bound can_grow =
    elim (Option-cases (first_fit (header_size + size) bs)) [
      | inl none_fits ↦
          let (p, mapped) = can_grow none_fits in
          let (s', run, done) = grows root s bs size p heap tidied bound none_fits mapped in
          (s.kheap_break + header_size, s', run, done)
      | inr ((xs, n, ys), found) ↦
          let (whole, room) = first_fit-eq (header_size + size) bs xs ys n found in
          let (s', run, done) =
            subst
              (λ zs.
                IsHeap s zs
                → Tidy zs
                → first_fit (header_size + size) zs ≡ some (xs, n, ys)
                → (s' : KHeap) × (kmalloc root s size
                    ≡ ok (end_at kheap_start xs + header_size, s'))
                  × Allocated s zs size (end_at kheap_start xs + header_size) s')
              (sym whole) (λ h t f. reuses root s xs ys n size h t (omega arith) f room) heap tidied
              found in
          (end_at kheap_start xs + header_size, s', run, done)
    ]
