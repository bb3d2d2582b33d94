-- ===== src/Arch/Vspace/Map.antt =====
-- `vspace_map`: the page is mapped afterwards, as asked or as it was before.
pub mod Table
use ulmeros.Common.{
  ℕ, zero, suc, ◌+◌, ◌*◌, ◌/◌, ◌%◌, ◌^◌, ◌<◌, ◌≤◌, ◌≡◌, ◌≢◌, Bool, true, false, Option, none, some,
  List, [], ◌∷◌, ltb, ◌==◌, arith, if◌then◌else◌, refl, Bool-cases, ◌⊎◌, inl, inr, ap, sym, ◌∙◌,
  subst, bool_clash,
}
use native.Mathlib.Decide.{ℕ_discrete}
use ulmeros.Common.Outcome.{Outcome, ok, ◌>>=◌}
use ulmeros.Util.Bitmap.Access.{clear_at}
use ulmeros.Mm.Page.{Phys, Frames, IsReady}
use ulmeros.Mm.Page.Alloc.{is_free}
use ulmeros.Arch.Vspace.{
  present, entry_ppn, Entry, read_entry, store, add_table, add_table_at, fill_leaf, Flags,
  leaf_word, level, page_of, resolve_mapping, vspace_map, ptbli, pdiri, pdpti, pml4i,
}
use ulmeros.Arch.Vspace.Entry.{Fields, leaf_word-Fields}
use Table.{
  lookup, PathInUse, Kept, refl-Kept, trans-Kept, Grown, add_table-Grown, store-at, store-off,
  store-free_pages, store-IsReady,
}

-- the indices of a page, from the top table down
abbrev pub indices : ℕ → List ℕ
indices virt = pml4i virt ∷ pdpti virt ∷ pdiri virt ∷ ptbli virt ∷ []

-- the frame that a page is mapped to
abbrev pub mapped_to : Phys → (root virt : ℕ) → Option ℕ
mapped_to p root virt = (resolve_mapping p.frames root virt).page_ppn

pub mapped_to-lookup :
    (p : Phys) (root virt : ℕ) → mapped_to p root virt ≡ lookup p.frames root (indices virt)
unfolding resolve_mapping level page_of
mapped_to-lookup p root virt = ground arith

-- the entry that resolving reaches, one level after another
module _ (fr : Frames) (root virt : ℕ) where
  reach_pdpte :
      present (fr root (pml4i virt)) ≡ true
      → (resolve_mapping fr root virt).pdpte ≡ some (entry_ppn (fr root (pml4i virt)), pdpti virt)
  unfolding resolve_mapping level
  reach_pdpte e = rw e

  module _ (t₃ : ℕ) (e₄ : present (fr root (pml4i virt)) ≡ true)
      (q₄ : entry_ppn (fr root (pml4i virt)) ≡ t₃) (e₃ : present (fr t₃ (pdpti virt)) ≡ true) where
    reach_pdire :
        (resolve_mapping fr root virt).pdire ≡ some (entry_ppn (fr t₃ (pdpti virt)), pdiri virt)
    unfolding resolve_mapping level
    reach_pdire = rw (e₄, q₄, e₃)

    reach_ptble :
        (t₂ : ℕ)
        → entry_ppn (fr t₃ (pdpti virt)) ≡ t₂
        → present (fr t₂ (pdiri virt)) ≡ true
        → (resolve_mapping fr root virt).ptble ≡ some (entry_ppn (fr t₂ (pdiri virt)), ptbli virt)
    unfolding resolve_mapping level
    reach_ptble t₂ q₃ e₂ = rw (e₄, q₄, e₃, q₃, e₂)

pml4e_root :
    (p : Phys) (root virt : ℕ) → (resolve_mapping p.frames root virt).pml4e ≡ (root, pml4i virt)
unfolding resolve_mapping
pml4e_root p root virt = refl

-- The page of the entry that resolving reaches is the resolved page.
pub page_at :
    (p : Phys) (root virt t i : ℕ)
    → (resolve_mapping p.frames root virt).ptble ≡ some (t, i)
    → present (p.frames t i) ≡ true
    → mapped_to p root virt ≡ some (entry_ppn (p.frames t i))
unfolding resolve_mapping page_of
page_at p root virt t i e h = ap (page_of p.frames) e ∙ rw h

-- `vspace_map` from its four steps
map_run :
    (p p₁ p₂ p₃ p' : Phys) (root virt phys : ℕ) (flags : Flags) (e₃ e₂ e₁ : Entry)
    → add_table p (root, pml4i virt) ≡ ok p₁
    → (resolve_mapping p₁.frames root virt).pdpte ≡ some e₃
    → add_table p₁ e₃ ≡ ok p₂
    → (resolve_mapping p₂.frames root virt).pdire ≡ some e₂
    → add_table p₂ e₂ ≡ ok p₃
    → (resolve_mapping p₃.frames root virt).ptble ≡ some e₁
    → fill_leaf p₃ (some e₁) phys flags ≡ ok p'
    → vspace_map p root virt phys flags ≡ ok p'
unfolding vspace_map add_table_at
map_run p p₁ p₂ p₃ p' root virt phys flags e₃ e₂ e₁ a b c d e f g =
    ap (λ o. o >>= after₁) (ap (add_table p) (pml4e_root p root virt) ∙ a)
    ∙ ap (λ o. o >>= after₂) (ap (add_table_at p₁) b ∙ c)
    ∙ ap (λ o. o >>= after₃) (ap (add_table_at p₂) d ∙ e)
    ∙ ap (λ k. fill_leaf p₃ k phys flags) f
    ∙ g
  where
    after₃ : Phys → Outcome Phys
    after₃ q = fill_leaf q (resolve_mapping q.frames root virt).ptble phys flags

    after₂ : Phys → Outcome Phys
    after₂ q = add_table_at q (resolve_mapping q.frames root virt).pdire >>= after₃

    after₁ : Phys → Outcome Phys
    after₁ q = add_table_at q (resolve_mapping q.frames root virt).pdpte >>= after₂

-- Filling an absent entry keeps what was there.
store-Kept :
    (p : Phys) (f i w : ℕ) → IsReady p → present (p.frames f i) ≡ false → Kept p (store p (f, i) w)
store-Kept p f i w r absent = record {
  ready = store-IsReady p f i w r;
  size = ap (λ b. b.size) (store-free_pages p f i w);
  used = λ j u. ap (λ b. clear_at b.bitmap j) (store-free_pages p f i w) ∙ u;
  entries = λ g j u e. store-off p f i w g j (elsewhere g j e);
}
  where
    elsewhere : (g j : ℕ) → present (p.frames g j) ≡ true → (g ≢ f) ⊎ (j ≢ i)
    elsewhere g j e = elim (ℕ_discrete g f) [
      | yes s ↦ inr (λ t.
          bool_clash e
            (ap (λ k. present (p.frames k j)) s ∙ ap (λ k. present (p.frames f k)) t ∙ absent))
      | no n ↦ inl n
    ]

-- what filling the leaf gives, where `before` is what the page was mapped to
record Leaf (p : Phys) (f i phys : ℕ) (flags : Flags) (before : Option ℕ) (p' : Phys) : Type 0 where
  kept : Kept p p'
  now_there : present (p'.frames f i) ≡ true
  as_asked : before ≡ none → Fields (p'.frames f i) phys flags
  as_before : (q : ℕ) → before ≡ some q → entry_ppn (p'.frames f i) ≡ q

module _ (p : Phys) (f i phys : ℕ) (flags : Flags) (r : IsReady p) (small : phys < 2 ^ 40) where
  fill_leaf-Leaf :
      (p' : Phys) × (fill_leaf p (some (f, i)) phys flags ≡ ok p')
      × Leaf p f i phys flags (lookup p.frames f (i ∷ [])) p'
  unfolding fill_leaf
  fill_leaf-Leaf = elim (Bool-cases (present (p.frames f i))) [
    | inl there ↦ (
      p,
      rw there,
      record {
        kept = refl-Kept p r;
        now_there = there;
        as_asked = λ e. absurd (ground arith);
        as_before = λ q e. ground arith;
      },
    )
    | inr absent ↦
        let w = leaf_word (p.frames f i) phys flags in
        let fields = leaf_word-Fields (p.frames f i) phys flags small in
        (
          store p (f, i) w,
          rw absent,
          record {
            kept = store-Kept p f i w r absent;
            now_there = ap present (store-at p f i w) ∙ fields.is_present;
            as_asked = λ e. subst (λ k. Fields k phys flags) (sym (store-at p f i w)) fields;
            as_before = λ q e. absurd (ground arith);
          },
        )
  ]

-- what `vspace_map` promises: the entry that resolving finds afterwards is present, it is filled as
-- asked if the page was not mapped, and still leads to the same frame if it was
abbrev pub MapsTo : Phys → (root virt phys : ℕ) → Flags → Phys → Type 0
MapsTo p root virt phys flags p' =
    Kept p p'
    × (e : Entry) × ((resolve_mapping p'.frames root virt).ptble ≡ some e)
    × (mapped_to p root virt ≡ none
        → (mapped_to p' root virt ≡ some phys) × Fields (read_entry p'.frames e) phys flags)
    × ((q : ℕ) → mapped_to p root virt ≡ some q → mapped_to p' root virt ≡ some q)

module _ (p : Phys) (root virt phys : ℕ) (flags : Flags) (a b c : ℕ) (r : IsReady p)
    (few : p.free_pages.size ≤ 2 ^ 40) (small : phys < 2 ^ 40)
    (path : PathInUse p root (indices virt)) (a_b : a < b) (b_c : b < c)
    (c_in : c < p.free_pages.size) (a_free : is_free p a ≡ true) (b_free : is_free p b ≡ true)
    (c_free : is_free p c ≡ true) where
  -- Where the tables on the way to a page are frames in use, three frames are free,
  -- and frame numbers are below 2 ^ 40, `vspace_map` succeeds. A page that was not mapped is then
  -- mapped to the given frame, with the given rights; a page that was mapped keeps its frame. All frames in use stay in use, and every entry that was
  -- present in one of them is as before.
  pub vspace_map-MapsTo :
      (p' : Phys) × (vspace_map p root virt phys flags ≡ ok p') × MapsTo p root virt phys flags p'
  vspace_map-MapsTo =
      let i₄ = pml4i virt in
      let i₃ = pdpti virt in
      let i₂ = pdiri virt in
      let i₁ = ptbli virt in
      let (p₁, e₁, g₁) = add_table-Grown p root i₄ a r few path.0 (omega arith) a_free in
      let k₁ = g₁.kept in
      let t₃ = entry_ppn (p₁.frames root i₄) in
      let path₁ = g₁.path (i₃ ∷ i₂ ∷ i₁ ∷ []) path in
      let (p₂, e₂, g₂) =
        add_table-Grown p₁ t₃ i₃ b k₁.ready (omega (arith, k₁.size)) path₁.0
          (omega (arith, k₁.size)) (g₁.above b a_b b_free) in
      let k₂ = g₂.kept in
      let t₂ = entry_ppn (p₂.frames t₃ i₃) in
      let path₂ = g₂.path (i₂ ∷ i₁ ∷ []) path₁ in
      let (p₃, e₃, g₃) =
        add_table-Grown p₂ t₂ i₂ c k₂.ready (omega (arith, k₁.size, k₂.size)) path₂.0
          (omega (arith, k₁.size, k₂.size)) (g₂.above c b_c (g₁.above c (omega arith) c_free)) in
      let k₃ = g₃.kept in
      let t₁ = entry_ppn (p₃.frames t₂ i₂) in
      let (p', e', leaf) = fill_leaf-Leaf p₃ t₁ i₁ phys flags k₃.ready small in
      let k₄ = leaf.kept in
      let root₁ = k₁.used root path.0 in
      let root₂ = k₂.used root root₁ in
      let table₂ = k₂.used t₃ path₁.0 in
      let w₄ : p₂.frames root i₄ ≡ p₁.frames root i₄ = k₂.entries root i₄ root₁ g₁.is_there in
      let there₄ : present (p₂.frames root i₄) ≡ true = ap present w₄ ∙ g₁.is_there in
      let v₄ : p₃.frames root i₄ ≡ p₁.frames root i₄ = k₃.entries root i₄ root₂ there₄ ∙ w₄ in
      let here₄ : present (p₃.frames root i₄) ≡ true = ap present v₄ ∙ g₁.is_there in
      let v₃ : p₃.frames t₃ i₃ ≡ p₂.frames t₃ i₃ = k₃.entries t₃ i₃ table₂ g₂.is_there in
      let here₃ : present (p₃.frames t₃ i₃) ≡ true = ap present v₃ ∙ g₂.is_there in
      let u₄ : p'.frames root i₄ ≡ p₁.frames root i₄ =
        k₄.entries root i₄ (k₃.used root root₂) here₄ ∙ v₄ in
      let u₃ : p'.frames t₃ i₃ ≡ p₂.frames t₃ i₃ =
        k₄.entries t₃ i₃ (k₃.used t₃ table₂) here₃ ∙ v₃ in
      let u₂ : p'.frames t₂ i₂ ≡ p₃.frames t₂ i₂ =
        k₄.entries t₂ i₂ (k₃.used t₂ path₂.0) g₃.is_there in
      let d₁ = reach_pdpte p₁.frames root virt g₁.is_there in
      let d₂ = reach_pdire p₂.frames root virt t₃ there₄ (ap entry_ppn w₄) g₂.is_there in
      let d₃ =
        reach_ptble p₃.frames root virt t₃ here₄ (ap entry_ppn v₄) here₃ t₂ (ap entry_ppn v₃)
          g₃.is_there in
      let d' : (resolve_mapping p'.frames root virt).ptble ≡ some (t₁, i₁) =
        reach_ptble p'.frames root virt t₃ (ap present u₄ ∙ g₁.is_there) (ap entry_ppn u₄)
          (ap present u₃ ∙ g₂.is_there) t₂ (ap entry_ppn u₃) (ap present u₂ ∙ g₃.is_there)
        ∙ ap (λ k. some (entry_ppn k, i₁)) u₂ in
      let before : lookup p₃.frames t₁ (i₁ ∷ []) ≡ mapped_to p root virt =
        g₃.same i₁ []
        ∙ g₂.same i₂ (i₁ ∷ [])
        ∙ g₁.same i₃ (i₂ ∷ i₁ ∷ [])
        ∙ sym (mapped_to-lookup p root virt) in
      let after : mapped_to p' root virt ≡ some (entry_ppn (p'.frames t₁ i₁)) =
        page_at p' root virt t₁ i₁ d' leaf.now_there in
      (
        p',
        map_run p p₁ p₂ p₃ p' root virt phys flags (t₃, i₃) (t₂, i₂) (t₁, i₁) e₁ d₁ e₂ d₂ e₃ d₃ e',
        (
          trans-Kept p p₁ p' k₁ (trans-Kept p₁ p₂ p' k₂ (trans-Kept p₂ p₃ p' k₃ k₄)),
          (t₁, i₁),
          d',
          λ e. let fields = leaf.as_asked (before ∙ e) in (after ∙ ap some fields.page, fields),
          λ q e. after ∙ ap some (leaf.as_before q (before ∙ e)),
        ),
      )
