-- ===== src/Proc/Program/Breaks.antt =====
-- `load_heap_brk`: the heap starts above all segments.
use ulmeros.Common.{
  ℕ, ◌+◌, ◌*◌, ◌/◌, ◌%◌, ◌^◌, ◌<◌, ◌≤◌, ◌≡◌, refl, true, false, none, List, [], ◌∷◌, ltb, ◌==◌,
  arith, Bool-cases, inl, inr, subst, sym, ap, bool_clash, ◌⊎◌, ◌&&◌,
}
use ulmeros.Common.Outcome.{Outcome, ok, panic}
use ulmeros.Mm.Page.{page_size}
use ulmeros.Proc.Program.{
  Segment, is_load, end_of, heap_brk_from, load_heap_brk, in_segment, find_segment,
}

-- Every segment to be loaded ends at `top` or before.
abbrev pub EndBy : ℕ → List Segment → Type 0
EndBy top [] = Unit
EndBy top (s ∷ pht) = (is_load s ≡ true → end_of s ≤ top) × EndBy top pht

-- what the heap break promises
abbrev pub IsAbove : List Segment → Outcome ℕ → Type 0
IsAbove pht (ok m) =
    (0 < m)
    × (m % page_size ≡ 0)
    × EndBy m pht
    × (EndBy 0 pht → ⊥)
    × ((top : ℕ) → EndBy top pht → m ≤ top + page_size)
    × ((vaddr : ℕ) → m ≤ vaddr → find_segment pht vaddr ≡ none)
IsAbove pht panic = EndBy 0 pht
IsAbove pht _ = ⊥

-- what the loop from a break `m` promises of its result
abbrev Raised : List Segment → ℕ → ℕ → Type 0
Raised pht m r = (m ≤ r) × (r % page_size ≡ 0) × EndBy r pht

-- one round, which goes on with the break `m'`
raise :
    (s : Segment) (pht : List Segment) (m m' : ℕ)
    → heap_brk_from (s ∷ pht) m ≡ heap_brk_from pht m'
    → m ≤ m'
    → (is_load s ≡ true → end_of s ≤ m')
    → Raised pht m' (heap_brk_from pht m')
    → Raised (s ∷ pht) m (heap_brk_from (s ∷ pht) m)
raise s pht m m' e up ends (on, aligned, below) =
    subst (Raised (s ∷ pht) m) (sym e)
      (omega arith, aligned, (λ l. let top = ends l in omega arith, below))

brk-EndBy :
    (pht : List Segment) (m : ℕ)
    → EndBy (2 ^ 63) pht
    → m % page_size ≡ 0
    → Raised pht m (heap_brk_from pht m)
unfolding heap_brk_from
brk-EndBy [] m b aligned = (omega arith, aligned, tt)
brk-EndBy (s ∷ pht) m (e, b) aligned = elim (Bool-cases (is_load s)) [
  | inl load ↦
      let top = e load in
      elim (Bool-cases (ltb m (end_of s))) [
        | inl more ↦
            let next = (end_of s / 4096 + 1) * 4096 % 2 ^ 64 in
            let after : end_of s ≤ next = omega arith in
            raise s pht m next (ap (heap_brk_from pht) (rw (load, more))) (ground (arith, after))
              (λ l. after) (brk-EndBy pht next b (omega arith))
        | inr enough ↦
            raise s pht m m (ap (heap_brk_from pht) (rw (load, enough))) (omega arith)
              (λ l. ground arith) (brk-EndBy pht m b aligned)
      ]
  | inr skip ↦
      raise s pht m m (ap (heap_brk_from pht) (rw skip)) (omega arith)
        (λ l. absurd (bool_clash l skip)) (brk-EndBy pht m b aligned)
]

-- Where the loop raises the break, a segment ends at most a page below it.
brk_near :
    (pht : List Segment) (m top : ℕ)
    → EndBy top pht
    → (heap_brk_from pht m ≡ m) ⊎ ((heap_brk_from pht m ≤ top + 4096) × (0 < top))
unfolding heap_brk_from
brk_near [] m top b = inl refl
brk_near (s ∷ pht) m top (e, b) = elim (Bool-cases (is_load s && ltb m (end_of s))) [
  | inl more ↦
      let load : is_load s ≡ true = ground arith in
      let below = e load in
      let up : m < end_of s = ground arith in
      rw more (elim (brk_near pht ((end_of s / 4096 + 1) * 4096 % 2 ^ 64) top b) [
        | inl same ↦ inr (rw same (omega arith), omega arith)
        | inr near ↦ inr near
      ])
  | inr enough ↦ rw enough (brk_near pht m top b)
]

-- An address past the ends of all segments is in none.
past_all :
    (pht : List Segment) (m vaddr : ℕ) → EndBy m pht → m ≤ vaddr → find_segment pht vaddr ≡ none
unfolding find_segment in_segment
past_all [] m vaddr b h = refl
past_all (s ∷ pht) m vaddr (e, b) h =
    let out : in_segment s vaddr ≡ false = elim (Bool-cases (is_load s)) [
      | inl load ↦ let top = e load in ground arith
      | inr skip ↦ rw skip
    ] in
    rw out (past_all pht m vaddr b h)

-- The heap break that `load_heap_brk` gives for segments that end at 2 ^ 63 or before is positive and
-- a multiple of the page size, and every segment to be loaded ends there or before, so that at no
-- address from it on does the loader find a segment; it is at most a page above any address at or below
-- which all of them end. It panics exactly where no segment to be loaded ends above 0.
pub load_heap_brk-IsAbove :
    (pht : List Segment) → EndBy (2 ^ 63) pht → IsAbove pht (load_heap_brk pht)
unfolding load_heap_brk
load_heap_brk-IsAbove pht b =
    let (up, aligned, below) = brk-EndBy pht 0 b (omega arith) in
    elim (Bool-cases (heap_brk_from pht 0 == 0)) [
      | inl zero_brk ↦
          let is : heap_brk_from pht 0 ≡ 0 = ground arith in
          rw zero_brk (subst (λ m. EndBy m pht) is below)
      | inr some_brk ↦ rw some_brk (
        ground arith,
        aligned,
        below,
        (λ none_above. elim (brk_near pht 0 0 none_above) [
          | inl same ↦ let at = same in ground arith
          | inr (near, top_above) ↦ absurd (omega arith)
        ]),
        (λ top b'. elim (brk_near pht 0 top b') [
          | inl same ↦ omega arith
          | inr (near, some_top) ↦ near
        ]),
        λ vaddr h. past_all pht (heap_brk_from pht 0) vaddr below h,
      )
    ]
