-- ===== src/Arch/Vspace/Map/Table.antt =====
-- One level of `vspace_map`: what `add_table` adds and what it keeps.
use ulmeros.Common.{
  ℕ, ◌^◌, ◌<◌, ◌≤◌, ◌≡◌, ◌≢◌, Bool, true, false, Option, none, some, List, [], ◌∷◌, ◌==◌, arith,
  if◌then◌else◌, refl, Bool-cases, ◌⊎◌, inl, inr, ap, sym, ◌∙◌, subst, bool_clash,
}
use native.Mathlib.Decide.{ℕ_discrete, dec_lt}
use ulmeros.Common.Outcome.{Outcome, ok, panic, fault, spinning, ◌>>=◌}
use ulmeros.Util.Bitmap.Access.{clear_at}
use ulmeros.Mm.Page.{Phys, Frames, IsReady}
use ulmeros.Mm.Page.Alloc.{is_free, Allocated, alloc_page-Allocated}
use ulmeros.Arch.Vspace.{
  present, entry_ppn, with_present, with_write, with_user, with_ppn, store, add_table,
}
use ulmeros.Arch.Vspace.Entry.{present-with_ppn, entry_ppn-with_ppn, present_marked}

-- the frame that the indices lead to from a table, if every entry on the way is present
abbrev pub lookup : Frames → ℕ → List ℕ → Option ℕ
lookup frames f [] = some f
lookup frames f (i ∷ is) =
    if present (frames f i) then lookup frames (entry_ppn (frames f i)) is else none

-- Every table on the way is a frame in use.
abbrev pub PathInUse : Phys → ℕ → List ℕ → Type 0
PathInUse p f [] = Unit
PathInUse p f (i ∷ is) =
    (is_free p f ≡ false)
    × (present (p.frames f i) ≡ true → PathInUse p (entry_ppn (p.frames f i)) is)

-- `p'` keeps what was in use in `p`, and every entry that was present in a frame in use.
pub record Kept (p p' : Phys) : Type 0 where
  pub ready : IsReady p'
  pub size : p'.free_pages.size ≡ p.free_pages.size
  pub used : (j : ℕ) → is_free p j ≡ false → is_free p' j ≡ false
  pub entries :
      (f i : ℕ) → is_free p f ≡ false → present (p.frames f i) ≡ true → p'.frames f i ≡ p.frames f i

pub refl-Kept : (p : Phys) → IsReady p → Kept p p
refl-Kept p r = record { ready = r; size = refl; used = λ j u. u; entries = λ f i u e. refl }

pub trans-Kept : (p q r : Phys) → Kept p q → Kept q r → Kept p r
trans-Kept p q r k l = record {
  ready = l.ready;
  size = l.size ∙ k.size;
  used = λ j u. l.used j (k.used j u);
  entries =
      λ f i u e. let s = k.entries f i u e in l.entries f i (k.used f u) (ap present s ∙ e) ∙ s;
}

-- What `add_table` promises at index `i` of table `f`, where frame `a` is free.
pub record Grown (p : Phys) (f i a : ℕ) (p' : Phys) : Type 0 where
  pub kept : Kept p p'
  pub is_there : present (p'.frames f i) ≡ true
  pub above : (j : ℕ) → a < j → is_free p j ≡ true → is_free p' j ≡ true
  pub path :
      (rest : List ℕ) → PathInUse p f (i ∷ rest) → PathInUse p' (entry_ppn (p'.frames f i)) rest
  pub same :
      (k : ℕ) (rest : List ℕ)
      → lookup p'.frames (entry_ppn (p'.frames f i)) (k ∷ rest) ≡ lookup p.frames f (i ∷ k ∷ rest)

module _ (p : Phys) (f i w : ℕ) where
  pub store-at : (store p (f, i) w).frames f i ≡ w
  unfolding store
  store-at = ground arith

  pub store-off : (g j : ℕ) → (g ≢ f) ⊎ (j ≢ i) → (store p (f, i) w).frames g j ≡ p.frames g j
  unfolding store
  store-off g j h = ground arith

  pub store-free_pages : (store p (f, i) w).free_pages ≡ p.free_pages
  unfolding store
  store-free_pages = refl

pub store-IsReady : (p : Phys) (f i w : ℕ) → IsReady p → IsReady (store p (f, i) w)
unfolding store
store-IsReady p f i w r = record { valid = r.valid; padded = r.padded }

if_either : (b : Bool) {x : Bool} → x ≡ false → (if b then false else x) ≡ false
if_either true e = refl
if_either false e = e

pub absent_zero : present 0 ≡ false
unfolding present
absent_zero = refl

empty_path :
    (p : Phys) (g : ℕ) (rest : List ℕ)
    → is_free p g ≡ false
    → ((j : ℕ) → present (p.frames g j) ≡ false)
    → PathInUse p g rest
empty_path p g [] u z = tt
empty_path p g (k ∷ rest) u z = (u, λ e. absurd (ground (arith, z k)))

module _ (p : Phys) (f i a : ℕ) (r : IsReady p) (small : p.free_pages.size ≤ 2 ^ 40)
    (f_used : is_free p f ≡ false) (a_in : a < p.free_pages.size)
    (a_free : is_free p a ≡ true) where
  abbrev marked : ℕ
  marked = with_user (with_write (with_present (p.frames f i)) 1) 1

  free_store : (j : ℕ) → is_free (store p (f, i) marked) j ≡ is_free p j
  free_store j = ap (λ b. clear_at b.bitmap j) (store-free_pages p f i marked)

  in_store : (j : ℕ) → j < p.free_pages.size → j < (store p (f, i) marked).free_pages.size
  in_store j h = subst (λ b. j < b.size) (sym (store-free_pages p f i marked)) h

  out_store : (j : ℕ) → j < (store p (f, i) marked).free_pages.size → j < p.free_pages.size
  out_store j h = subst (λ b. j < b.size) (store-free_pages p f i marked) h

  module _ (absent : present (p.frames f i) ≡ false) where
    elsewhere : (g j : ℕ) → present (p.frames g j) ≡ true → (g ≢ f) ⊎ (j ≢ i)
    elsewhere g j e = elim (ℕ_discrete g f) [
      | yes s ↦ inr (λ t.
          bool_clash e
            (ap (λ k. present (p.frames k j)) s ∙ ap (λ k. present (p.frames f k)) t ∙ absent))
      | no n ↦ inl n
    ]

    grow :
        (out : Outcome (ℕ × Phys))
        → Allocated (store p (f, i) marked) out
        → (p' : Phys) × ((out >>= λ (ppn, p₂). ok (store p₂ (f, i) (with_ppn (p₂.frames f i) ppn)))
            ≡ ok p')
          × Grown p f i a p'
    grow fault full = elim full [ ]
    grow spinning full = elim full [ ]
    grow panic full = absurd (bool_clash a_free (sym (free_store a) ∙ full a (in_store a a_in)))
    grow (ok (ppn, p₂)) (ppn_in, ppn_free, least, c, frames) = (p₃, refl, grown)
      where
        p₃ : Phys
        p₃ = store p₂ (f, i) (with_ppn (p₂.frames f i) ppn)

        ppn_was_free : is_free p ppn ≡ true
        ppn_was_free = sym (free_store ppn) ∙ ppn_free

        away : (g : ℕ) → is_free p g ≡ false → (g == ppn) ≡ false
        away g u = elim (Bool-cases (g == ppn)) [
          | inl e ↦
              let q : g ≡ ppn = ground arith in
              absurd (bool_clash ppn_was_free (sym (ap (is_free p) q) ∙ u))
          | inr o ↦ o
        ]

        marked_there : p₂.frames f i ≡ marked
        marked_there = frames f i ∙ rw (away f f_used) (store-at p f i marked)

        word : p₃.frames f i ≡ with_ppn marked ppn
        word = store-at p₂ f i _ ∙ ap (λ k. with_ppn k ppn) marked_there

        ppn_small : ppn < 2 ^ 40
        ppn_small = omega (arith, out_store ppn ppn_in)

        target : entry_ppn (p₃.frames f i) ≡ ppn
        target = ap entry_ppn word ∙ entry_ppn-with_ppn marked ppn ppn_small

        is_new : (j : ℕ) → p₃.frames ppn j ≡ 0
        is_new j =
            store-off p₂ f i _ ppn j
              (inl (λ e. bool_clash ppn_was_free (ap (is_free p) e ∙ f_used)))
            ∙ frames ppn j
            ∙ (ground arith)

        old :
            (g j : ℕ)
            → is_free p g ≡ false
            → present (p.frames g j) ≡ true
            → p₃.frames g j ≡ p.frames g j
        old g j u e =
            let other : (g ≢ f) ⊎ (j ≢ i) = elsewhere g j e in
            store-off p₂ f i _ g j other
            ∙ frames g j
            ∙ rw (away g u) (store-off p f i marked g j other)

        law : (j : ℕ) → is_free p₃ j ≡ (if ppn == j then false else is_free p j)
        law j =
            ap (λ b. clear_at b.bitmap j) (store-free_pages p₂ f i _) ∙ c.law j ∙ rw (free_store j)

        new_used : is_free p₃ ppn ≡ false
        new_used = law ppn ∙ (ground arith)

        ppn_le : ppn ≤ a
        ppn_le = elim (dec_lt a ppn) [
          | yes h ↦ absurd (bool_clash a_free (sym (free_store a) ∙ least a h))
          | no h ↦ omega arith
        ]

        apart_from : (j : ℕ) → a < j → (ppn == j) ≡ false
        apart_from j h = ground (arith, ppn_le)

        grown : Grown p f i a p₃
        grown = record {
          kept = record {
            ready = store-IsReady p₂ f i _ c.ready;
            size =
                ap (λ b. b.size) (store-free_pages p₂ f i _)
                ∙ c.size
                ∙ ap (λ b. b.size) (store-free_pages p f i marked);
            used = λ j u. law j ∙ if_either (ppn == j) u;
            entries = old;
          };
          is_there = ap present word ∙ present-with_ppn marked ppn ∙ present_marked (p.frames f i);
          above = λ j h u. law j ∙ rw (apart_from j h) u;
          path = λ rest u.
              subst (λ k. PathInUse p₃ k rest) (sym target)
                (empty_path p₃ ppn rest new_used (λ j. ap present (is_new j) ∙ absent_zero));
          same = λ k rest. rw (absent, target, is_new k, absent_zero);
        }

  -- Where a frame `a` is free, `add_table` succeeds: the entry is present afterwards, and what was
  -- in use or mapped before is kept.
  pub add_table-Grown : (p' : Phys) × (add_table p (f, i) ≡ ok p') × Grown p f i a p'
  unfolding add_table
  add_table-Grown = elim (Bool-cases (present (p.frames f i))) [
    | inl there ↦ (
      p,
      rw there,
      record {
        kept = refl-Kept p r;
        is_there = there;
        above = λ j h u. u;
        path = λ rest (u, next). next there;
        same = λ k rest. rw there;
      },
    )
    | inr absent ↦
        let (p', e, g) =
          grow absent _
            (alloc_page-Allocated (store p (f, i) marked) (store-IsReady p f i marked r)) in
        (p', rw absent e, g)
  ]
