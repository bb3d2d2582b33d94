-- ===== src/Arch/Vspace/Unmap.antt =====
-- `vspace_unmap`: the entry of the page is emptied and its frame is given back.
use ulmeros.Common.{
  ℕ, ◌+◌, ◌*◌, ◌%◌, ◌^◌, ◌<◌, ◌≤◌, ◌≡◌, ◌≢◌, Bool, true, false, Option, none, some, List, [], ◌∷◌,
  ◌==◌, arith, if◌then◌else◌, refl, Bool-cases, ◌⊎◌, inl, inr, ap, sym, ◌∙◌, subst,
}
use native.Mathlib.Decide.{ℕ_discrete}
use ulmeros.Common.Outcome.{Outcome, ok, panic, fault, spinning, ◌>>=◌}
use ulmeros.Util.Bitmap.Access.{clear_at}
use ulmeros.Mm.Page.{Phys, Frames, IsReady}
use ulmeros.Mm.Page.Alloc.{is_free, Changed, Freed, free_page-Freed}
use ulmeros.Arch.Vspace.{
  present, entry_ppn, Entry, store, level, page_of, ppn_to_virt, page_pointer, resolve_mapping,
  vspace_unmap, unmap_leaf, ptbli, pdiri, pdpti, pml4i,
}
use ulmeros.Arch.Vspace.Map.{mapped_to, mapped_to-lookup}
use ulmeros.Arch.Vspace.Map.Table.{
  lookup, store-at, store-off, store-free_pages, store-IsReady, absent_zero,
}

-- the entry that the indices lead to from a table, the last of them `k`
target : Frames → ℕ → List ℕ → ℕ → Option Entry
target fr f [] k = some (f, k)
target fr f (i ∷ is) k = if present (fr f i) then target fr (entry_ppn (fr f i)) is k else none

snoc : List ℕ → ℕ → List ℕ
snoc [] k = k ∷ []
snoc (i ∷ is) k = i ∷ snoc is k

module _ (p : Phys) (t k : ℕ) where
  abbrev emptied : Phys
  emptied = store p (t, k) 0

  -- the word at an entry after emptying one: none there, or as before
  empty_or_same :
      (f i : ℕ) → (present (emptied.frames f i) ≡ false) ⊎ (emptied.frames f i ≡ p.frames f i)
  empty_or_same f i = elim (ℕ_discrete f t) [
    | no n ↦ inr (store-off p t k 0 f i (inl n))
    | yes e ↦ elim (ℕ_discrete i k) [
      | no n ↦ inr (store-off p t k 0 f i (inr n))
      | yes d ↦ inl (
          ap present (ap (λ g. emptied.frames g i) e ∙ ap (emptied.frames t) d ∙ store-at p t k 0)
          ∙ absent_zero)
    ]
  ]

  -- An entry that is emptied is on no way that leads through it.
  lookup-emptied :
      (f : ℕ) (is : List ℕ)
      → target p.frames f is k ≡ some (t, k)
      → lookup emptied.frames f (snoc is k) ≡ none
  unfolding target snoc
  lookup-emptied f [] e =
      let s : f ≡ t = ap (λ o. elim o [ none ↦ f | some d ↦ d.0 ]) e in
      let w : present (emptied.frames f k) ≡ false =
        ap present (ap (λ g. emptied.frames g k) s ∙ store-at p t k 0) ∙ absent_zero in
      rw w
  lookup-emptied f (i ∷ is) e = elim (empty_or_same f i) [
    | inl w ↦ rw w
    | inr w ↦ elim (Bool-cases (present (p.frames f i))) [
      | inr absent ↦ rw (w, absent)
      | inl there ↦
          rw (w, there)
            (lookup-emptied (entry_ppn (p.frames f i)) is (
              ap (λ b. if b then target p.frames (entry_ppn (p.frames f i)) is k else none)
                (sym there)
              ∙ e))
    ]
  ]

-- what `vspace_unmap` promises of its result
abbrev pub Unmaps : Phys → (root virt : ℕ) → Outcome (Bool × Phys) → Type 0
Unmaps p root virt (ok (true, p')) =
    (q : ℕ) × (mapped_to p root virt ≡ some q)
    × (is_free p q ≡ false)
    × Changed p p' q true
    × (mapped_to p' root virt ≡ none)
    × (e : Entry) × ((resolve_mapping p.frames root virt).ptble ≡ some e)
    × ((g j : ℕ) → (g ≢ e.0) ⊎ (j ≢ e.1) → p'.frames g j ≡ p.frames g j)
Unmaps p root virt (ok (false, p')) =
    ((mapped_to p root virt ≡ none) ⊎ (mapped_to p root virt ≡ some (2 ^ 35))) × (p' ≡ p)
Unmaps p root virt panic =
    (q : ℕ) × (mapped_to p root virt ≡ some q) × ((p.free_pages.size ≤ q) ⊎ (is_free p q ≡ true))
Unmaps p root virt _ = ⊥

ptble-target :
    (fr : Frames) (root virt : ℕ)
    → (resolve_mapping fr root virt).ptble
      ≡ target fr root (pml4i virt ∷ pdpti virt ∷ pdiri virt ∷ []) (ptbli virt)
unfolding resolve_mapping level target
ptble-target fr root virt = ground arith

unreached : (fr : Frames) (q : ℕ) → page_of fr none ≢ some q
unfolding page_of
unreached fr q e = absurd (ground arith)

page_of_small : (fr : Frames) (o : Option Entry) (q : ℕ) → page_of fr o ≡ some q → q < 2 ^ 40
unfolding page_of entry_ppn
page_of_small fr none q e = absurd (unreached fr q e)
page_of_small fr (some (t, k)) q e = elim (Bool-cases (present (fr t k))) [
  | inl there ↦ ground arith
  | inr absent ↦ ground arith
]

null_frame : (q : ℕ) → q < 2 ^ 40 → (ppn_to_virt q == 0) ≡ true → q ≡ 2 ^ 35
unfolding ppn_to_virt
null_frame q small e =
    let zero_ptr : (q * 4096 + 0xffff800000000000) % 2 ^ 64 ≡ 0 = ground arith in omega arith

target-index :
    (fr : Frames) (f : ℕ) (is : List ℕ) (k t j : ℕ) → target fr f is k ≡ some (t, j) → j ≡ k
unfolding target
target-index fr f [] k t j e = sym (ap (λ o. elim o [ none ↦ j | some d ↦ d.1 ]) e)
target-index fr f (i ∷ is) k t j e = elim (Bool-cases (present (fr f i))) [
  | inl there ↦
      target-index fr (entry_ppn (fr f i)) is k t j
        (ap (λ b. if b then target fr (entry_ppn (fr f i)) is k else none) (sym there) ∙ e)
  | inr absent ↦ absurd (ground arith)
]

module _ (p : Phys) (root virt : ℕ) (r : IsReady p) where
  module _ (t k q : ℕ) (at : (resolve_mapping p.frames root virt).ptble ≡ some (t, k))
      (page : mapped_to p root virt ≡ some q) where
    gone : mapped_to (emptied p t k) root virt ≡ none
    unfolding snoc
    gone =
        let way = sym (ptble-target p.frames root virt) ∙ at in
        let same = target-index p.frames root _ (ptbli virt) t k way in
        mapped_to-lookup (emptied p t k) root virt
        ∙ ap
            (λ m.
              lookup (emptied p t k).frames root (pml4i virt ∷ pdpti virt ∷ pdiri virt ∷ m ∷ []))
            (sym same)
        ∙ lookup-emptied p t k root (pml4i virt ∷ pdpti virt ∷ pdiri virt ∷ [])
            (ap (target p.frames root _) same ∙ way)

    as_before : (j : ℕ) → is_free (emptied p t k) j ≡ is_free p j
    as_before j = ap (λ b. clear_at b.bitmap j) (store-free_pages p t k 0)

    give_back :
        (out : Outcome Phys)
        → Freed (emptied p t k) q out
        → Unmaps p root virt (out >>= λ p'. ok (true, p'))
    give_back (ok p') (below, used, c, frames) = (
      q,
      page,
      sym (as_before q) ∙ used,
      record {
        ready = c.ready;
        size = c.size ∙ ap (λ b. b.size) (store-free_pages p t k 0);
        law = λ j. c.law j ∙ ap (λ b. if q == j then true else b) (as_before j);
      },
      ap (λ fr. (resolve_mapping fr root virt).page_ppn) frames ∙ gone,
      (t, k),
      at,
      λ g j apart. ap (λ fr. fr g j) frames ∙ store-off p t k 0 g j apart,
    )
    give_back panic (inl past) =
        (q, page, inl (subst (λ b. b.size ≤ q) (store-free_pages p t k 0) past))
    give_back panic (inr free) = (q, page, inr (sym (as_before q) ∙ free))
    give_back fault h = elim h [ ]
    give_back spinning h = elim h [ ]

  unmapped :
      (o : Option Entry) (page : Option ℕ)
      → (resolve_mapping p.frames root virt).ptble ≡ o
      → mapped_to p root virt ≡ page
      → page_of p.frames o ≡ page
      → Unmaps p root virt (unmap_leaf p o (page_pointer page))
  unfolding unmap_leaf page_pointer
  unmapped (some (t, k)) (some q) at page e = elim (Bool-cases (ppn_to_virt q == 0)) [
    | inl null ↦
        rw null (
          inr (page ∙ ap some (null_frame q (page_of_small p.frames (some (t, k)) q e) null)),
          refl,
        )
    | inr there ↦
        rw there
          (give_back t k q at page _ (free_page-Freed (emptied p t k) q (store-IsReady p t k 0 r)))
  ]
  unmapped (some d) none at page e = (inl page, refl)
  unmapped none none at page e = (inl page, refl)
  unmapped none (some q) at page e = absurd (unreached p.frames q e)

  -- From a ready allocator `vspace_unmap` returns true exactly where the page was mapped to a frame in
  -- use: then that frame is free, no other frame's mark has changed, the page is not mapped, and every
  -- word of memory but the page's entry is as before. It returns false and changes nothing where the
  -- page was not mapped, or was mapped to frame 2^35, the pointer to which is NULL, and panics where the
  -- frame was free already or is none of the allocator's.
  pub vspace_unmap-Unmaps : Unmaps p root virt (vspace_unmap p root virt)
  unfolding vspace_unmap resolve_mapping
  vspace_unmap-Unmaps = unmapped _ _ refl refl refl
