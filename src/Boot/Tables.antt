-- ===== src/Boot/Tables.antt =====
-- The tables that the boot stage has filled so far, and what one more entry or table adds.
use ulmeros.Common.{
  ℕ, ◌+◌, ◌-◌, ◌*◌, ◌/◌, ◌%◌, ◌^◌, ◌≤◌, ◌<◌, ◌≡◌, ◌≢◌, refl, ap, ◌∙◌, sym, subst, false, Option,
  none, some, ◌==◌, if◌then◌else◌, arith, inl, inr,
}
use native.Mathlib.Decide.{ℕ_discrete}
use ulmeros.Common.Outcome.{Outcome, ok, panic, ◌>>=◌}
use ulmeros.Util.Bitmap.{bitmap_set, bitmap_find_free, byte_size}
use ulmeros.Util.Bitmap.Access.{out_of_bounds}
use ulmeros.Util.Bitmap.Search.{LeastClear, find_free-LeastClear}
use ulmeros.Mm.Page.{Phys, IsReady, alloc_page, clear_frame}
use ulmeros.Mm.Page.Alloc.{is_free, in_size}
use ulmeros.Mm.Page.Count.{free_count, Taken, alloc_page-Taken, taken_apart}
use ulmeros.Arch.Vspace.{store}
use ulmeros.Arch.Vspace.Map.Table.{store-at, store-off, store-free_pages, store-IsReady}
use ulmeros.Boot.Regions.{boot_alloc_page, frame_number}
use ulmeros.Boot.Paging.{ptr_to_u64, table_word, next_table}

-- On a ready allocator of at most four gigabytes, the boot stage's `alloc_page` does what the
-- kernel's does.
pub boot_alloc-alloc :
    (p : Phys) → IsReady p → p.free_pages.size ≤ 2 ^ 20 → boot_alloc_page p ≡ alloc_page p
unfolding boot_alloc_page frame_number alloc_page
boot_alloc-alloc p r small = go (bitmap_find_free p.free_pages) (find_free-LeastClear r.valid)
  where
    go :
        (o : Option ℕ)
        → LeastClear p.free_pages.bitmap 0 (byte_size p.free_pages.size * 8) o
        → ◌>>=◌ {B = ℕ × Phys} (bitmap_set p.free_pages (frame_number o)) (λ used. ok (
          frame_number o,
          record { free_pages = used; frames = clear_frame p.frames (frame_number o % 2 ^ 20) },
        ))
          ≡ (elim o [
            | none ↦ panic
            | some ppn ↦ bitmap_set p.free_pages ppn >>= λ used.
                ok (ppn, record { free_pages = used; frames = clear_frame p.frames ppn })
          ])
    go none full = rw (out_of_bounds p.free_pages (2 ^ 32 - 1) (omega arith)).1 refl
    go (some ppn) (a, b, free, least) =
        let h = in_size p ppn r b free in
        let small_ppn : ppn % 2 ^ 20 ≡ ppn = omega arith in rw small_ppn refl

-- Below 2^31 the address of a table is its own sign extension.
pub table_word-low : (f : ℕ) → f < 2 ^ 19 → table_word f ≡ f * 4096 + 3
unfolding table_word ptr_to_u64
table_word-low f h = ground arith

-- A new table that `next_table` enters at an index of another.
abbrev Entered : Phys → (table index : ℕ) → Outcome (ℕ × Phys) → Type 0
Entered p table index out =
    (t : ℕ) × (p' : Phys) × (out ≡ ok (t, store p' (table, index) (table_word t))) × Taken p t p'

pub next_table-Entered :
    (p : Phys) (table index : ℕ)
    → IsReady p
    → p.free_pages.size ≤ 2 ^ 19
    → 0 < free_count p
    → Entered p table index (next_table p table index)
unfolding next_table
next_table-Entered p table index r small some_free =
    let (t, p', e, taken) = alloc_page-Taken p r some_free in
    let small_t : t % 2 ^ 20 ≡ t = omega (arith, taken.within) in
    (t, p', rw (boot_alloc-alloc p r (omega arith), e, small_t) refl, taken)

-- A frame in use below 2^19, with the number that the role gives it: frames with different numbers
-- are different.
pub record IsTable (p : Phys) (role : ℕ → ℕ) (frame number : ℕ) : Type 0 where
  pub used : is_free p frame ≡ false
  pub numbered : role frame ≡ number
  pub small : frame < 2 ^ 19

-- The first `last + 1` page tables are entered in the directory, and `done` pages in them.
pub record Tables (p : Phys) (pml4 pdpt pdir : ℕ) (table role : ℕ → ℕ) (last done : ℕ)
    : Type 0 where
  pub ready : IsReady p
  pub small : p.free_pages.size ≤ 2 ^ 19
  pub bounded : done ≤ (last + 1) * 512
  pub at_pml4 : IsTable p role pml4 0
  pub at_pdpt : IsTable p role pdpt 1
  pub at_pdir : IsTable p role pdir 2
  pub at_table : (c : ℕ) → c ≤ last → IsTable p role (table c) (3 + c)
  pub top : p.frames pml4 0 ≡ table_word pdpt
  pub mid : p.frames pdpt 0 ≡ table_word pdir
  pub dir : (c : ℕ) → c ≤ last → p.frames pdir c ≡ table_word (table c)
  pub filled : (i : ℕ) → i < done → p.frames (table (i / 512)) (i % 512) ≡ table_word i

pub apart :
    {p : Phys} {role : ℕ → ℕ} {f g m n : ℕ}
    → IsTable p role f m
    → IsTable p role g n
    → m ≢ n
    → f ≢ g
apart {role = role} a b ne e = ne (sym a.numbered ∙ ap role e ∙ b.numbered)

store-IsTable :
    (p : Phys) (f i w : ℕ) {role : ℕ → ℕ} {g n : ℕ}
    → IsTable p role g n
    → IsTable (store p (f, i) w) role g n
unfolding store
store-IsTable p f i w a = record { used = a.used; numbered = a.numbered; small = a.small }

module _ {p : Phys} {pml4 pdpt pdir : ℕ} {table role : ℕ → ℕ} {last done : ℕ}
    (t : Tables p pml4 pdpt pdir table role last done) where
  -- The next page is entered in the last table.
  pub put-Tables :
      done / 512 ≡ last
      → Tables
          (store p (table last, done % 512) (table_word done))
          pml4
          pdpt
          pdir
          table
          role
          last
          (done + 1)
  put-Tables here =
      let f = table last in
      let i = done % 512 in
      let w = table_word done in
      let at = t.at_table last (omega arith) in
      record {
        ready = store-IsReady p f i w t.ready;
        small = subst (λ b. b.size ≤ 2 ^ 19) (sym (store-free_pages p f i w)) t.small;
        bounded = omega arith;
        at_pml4 = store-IsTable p f i w t.at_pml4;
        at_pdpt = store-IsTable p f i w t.at_pdpt;
        at_pdir = store-IsTable p f i w t.at_pdir;
        at_table = λ c h. store-IsTable p f i w (t.at_table c h);
        top = store-off p f i w pml4 0 (inl (apart t.at_pml4 at (omega arith))) ∙ t.top;
        mid = store-off p f i w pdpt 0 (inl (apart t.at_pdpt at (omega arith))) ∙ t.mid;
        dir = λ c h. store-off p f i w pdir c (inl (apart t.at_pdir at (omega arith))) ∙ t.dir c h;
        filled = λ k h. elim (ℕ_discrete k done) [
          | yes e ↦
              subst (λ k. (store p (f, i) w).frames (table (k / 512)) (k % 512) ≡ table_word k)
                (sym e)
                (subst (λ c. (store p (f, i) w).frames (table c) i ≡ w) (sym here)
                  (store-at p f i w))
          | no ne ↦
              let before : k < done = omega arith in
              elim (ℕ_discrete (k / 512) last) [
                | yes same ↦
                    store-off p f i w (table (k / 512)) (k % 512) (inr (omega arith))
                    ∙ t.filled k before
                | no other ↦
                    store-off p f i w (table (k / 512)) (k % 512)
                      (inl (apart (t.at_table (k / 512) (omega arith)) at (omega arith)))
                    ∙ t.filled k before
              ]
        ];
      }

  module _ (new : ℕ) (p' : Phys) (taken : Taken p new p') where
    abbrev with_table : ℕ → ℕ
    with_table c = if c == last + 1 then new else table c

    abbrev with_role : ℕ → ℕ
    with_role q = if q == new then 3 + (last + 1) else role q

    kept-IsTable : {f n : ℕ} → IsTable p role f n → IsTable p' with_role f n
    kept-IsTable {f} {n} a =
        let ne = taken_apart taken f a.used in
        record {
          used = ground (arith, taken.changed.law f, a.used);
          numbered = ground (arith, a.numbered);
          small = a.small;
        }

    new-IsTable : IsTable p' with_role new (3 + (last + 1))
    new-IsTable = record {
      used = ground (arith, taken.changed.law new);
      numbered = ground arith;
      small = omega (arith, taken.within, t.small);
    }

    kept_frame : {f n : ℕ} (i : ℕ) → IsTable p role f n → p'.frames f i ≡ p.frames f i
    kept_frame {f} i a = let ne = taken_apart taken f a.used in ground (arith, taken.frames f i)

    with_table-new : with_table (last + 1) ≡ new
    with_table-new = ground arith

    with_table-old : (c : ℕ) → c ≤ last → with_table c ≡ table c
    with_table-old c h = ground arith

    after :
        {f n : ℕ}
        → IsTable p role f n
        → IsTable (store p' (pdir, last + 1) (table_word new)) with_role f n
    after a = store-IsTable p' pdir (last + 1) (table_word new) (kept-IsTable a)

    abbrev entered : Phys
    entered = store p' (pdir, last + 1) (table_word new)

    pub grow-Tables : Tables entered pml4 pdpt pdir with_table with_role (last + 1) done
    grow-Tables =
        let w = table_word new in
        record {
          ready = store-IsReady p' pdir (last + 1) w taken.changed.ready;
          small =
              subst (λ b. b.size ≤ 2 ^ 19) (sym (store-free_pages p' pdir (last + 1) w))
                (omega (arith, taken.changed.size, t.small));
          bounded = omega (arith, t.bounded);
          at_pml4 = after t.at_pml4;
          at_pdpt = after t.at_pdpt;
          at_pdir = after t.at_pdir;
          at_table = λ c h. elim (ℕ_discrete c (last + 1)) [
            | yes e ↦
                subst (λ k. IsTable entered with_role (with_table k) (3 + k)) (sym e)
                  (subst (λ f. IsTable entered with_role f (3 + (last + 1))) (sym with_table-new)
                    (store-IsTable p' pdir (last + 1) w new-IsTable))
            | no ne ↦
                subst (λ f. IsTable entered with_role f (3 + c))
                  (sym (with_table-old c (omega arith))) (after (t.at_table c (omega arith)))
          ];
          top =
              store-off p' pdir (last + 1) w pml4 0 (inl (apart t.at_pml4 t.at_pdir (omega arith)))
              ∙ kept_frame 0 t.at_pml4
              ∙ t.top;
          mid =
              store-off p' pdir (last + 1) w pdpt 0 (inl (apart t.at_pdpt t.at_pdir (omega arith)))
              ∙ kept_frame 0 t.at_pdpt
              ∙ t.mid;
          dir = λ c h. elim (ℕ_discrete c (last + 1)) [
            | yes e ↦
                subst (λ k. entered.frames pdir k ≡ table_word (with_table k)) (sym e)
                  (store-at p' pdir (last + 1) w ∙ ap table_word (sym with_table-new))
            | no ne ↦
                store-off p' pdir (last + 1) w pdir c (inr ne)
                ∙ kept_frame c t.at_pdir
                ∙ t.dir c (omega arith)
                ∙ ap table_word (sym (with_table-old c (omega arith)))
          ];
          filled = λ k h.
              let c = k / 512 in
              let old = t.at_table c (omega (arith, t.bounded)) in
              ap (λ f. entered.frames f (k % 512)) (with_table-old c (omega (arith, t.bounded)))
              ∙ store-off p' pdir (last + 1) w (table c) (k % 512)
                  (inl (apart old t.at_pdir (omega arith)))
              ∙ kept_frame (k % 512) old
              ∙ t.filled k h;
        }
