-- ===== src/Mm/Heap/Tests.antt =====
-- The kernel heap on concrete blocks: 100 bytes in use, 400 free, 60 in use.
use ulmeros.Common.{◌≤◌, ℕ, ◌+◌, ◌≡◌, refl, true, false, [], ◌∷◌, ◌==◌, if◌then◌else◌, arith}
use ulmeros.Common.Outcome.{ok}
use ulmeros.Mm.Page.{Phys}
use ulmeros.Mm.Heap.{Header, KHeap, kheap_start, kmalloc, kfree}
use ulmeros.Mm.Heap.Chain.{Blocks, IsHeap, header}
use ulmeros.Mm.Heap.Blocks.{Tidy, tidy, live}
use ulmeros.Mm.Heap.Malloc.{Allocated, kmalloc-Allocated}
use ulmeros.Mm.Heap.Pieces.{IsClear, kmalloc-Apart}
use ulmeros.Mm.Heap.Free.{kfree-Freed}

abbrev memory : Phys
memory = record { free_pages = record { size = 0; bitmap = [] }; frames = λ g i. 0 }

abbrev three : Blocks
three = (100, false) ∷ (400, true) ∷ (60, false) ∷ []

abbrev three_headers : ℕ → Header
three_headers q =
    if q == kheap_start
    then header 0 (kheap_start + 100) false 100
    else if q == kheap_start + 100
    then header kheap_start (kheap_start + 500) true 400
    else header (kheap_start + 100) 0 false 60

abbrev three_heap : KHeap
three_heap = record {
  headers = three_headers;
  heap_start = kheap_start;
  heap_last = kheap_start + 500;
  kheap_break = kheap_start + 560;
  phys = memory;
}

three-IsHeap : IsHeap three_heap three
three-IsHeap = record {
  chain = (refl, omega arith, (refl, omega arith, (refl, omega arith, tt)));
  start = refl;
  last = refl;
  end = refl;
  bound = omega arith;
}

three-Tidy : Tidy three
three-Tidy = (refl, (refl, (refl, refl)))

kmalloc-Allocated_example :
    (ptr : ℕ) × (s' : KHeap) × (kmalloc 0 three_heap 200 ≡ ok (ptr, s'))
    × Allocated three_heap three 200 ptr s'
kmalloc-Allocated_example =
    kmalloc-Allocated 0 three_heap three 200 three-IsHeap three-Tidy (omega arith) (λ e. cc)

kfree-Freed_example :
    (s' : KHeap) × (kfree 0 three_heap (kheap_start + 44) ≡ ok s')
    × IsHeap s' (tidy ((100, true) ∷ (400, true) ∷ (60, false) ∷ []))
    × Tidy (tidy ((100, true) ∷ (400, true) ∷ (60, false) ∷ []))
    × (live kheap_start three ≡ (kheap_start + 44, 56) ∷ (kheap_start + 544, 16) ∷ [])
    × (live kheap_start (tidy ((100, true) ∷ (400, true) ∷ (60, false) ∷ []))
        ≡ (kheap_start + 544, 16) ∷ [])
kfree-Freed_example =
    kfree-Freed 0 three_heap [] ((400, true) ∷ (60, false) ∷ []) 100 three-IsHeap three-Tidy
      (λ below. absurd (omega arith))

kmalloc-Apart_example :
    (ptr : ℕ) × (s' : KHeap) × (kmalloc 0 three_heap 200 ≡ ok (ptr, s'))
    × (kheap_start + 44 ≤ ptr)
    × (ptr + 200 ≤ s'.kheap_break)
    × IsClear ptr 200 (live kheap_start three)
kmalloc-Apart_example =
    kmalloc-Apart 0 three_heap three 200 three-IsHeap three-Tidy (omega arith) (λ e. cc)
