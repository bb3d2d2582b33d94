-- ===== src/Boot/Start.antt =====
-- The first tables that `id_map` sets up, and its run from there.
use ulmeros.Common.{
  ℕ, ◌+◌, ◌*◌, ◌/◌, ◌%◌, ◌^◌, ◌≤◌, ◌<◌, ◌≡◌, refl, ◌∙◌, subst, false, ◌==◌, if◌then◌else◌, arith,
}
use ulmeros.Common.Outcome.{ok}
use ulmeros.Mm.Page.{Phys, IsReady}
use ulmeros.Mm.Page.Alloc.{is_free}
use ulmeros.Mm.Page.Count.{
  free_count, Taken, alloc_page-Taken, taken_used, taken_apart, taken_keeps,
}
use ulmeros.Arch.Vspace.{store}
use ulmeros.Boot.Regions.{boot_alloc_page}
use ulmeros.Boot.Paging.{IdMap, table_word, id_map_pages, id_map}
use ulmeros.Boot.Tables.{Tables, boot_alloc-alloc}
use ulmeros.Boot.Identity.{Running, RunsOn, id_map_pages-RunsOn}

pub boot_alloc-Taken :
    (p : Phys)
    → IsReady p
    → p.free_pages.size ≤ 2 ^ 19
    → 0 < free_count p
    → (ppn : ℕ) × (p' : Phys) × (boot_alloc_page p ≡ ok (ppn, p')) × Taken p ppn p'
boot_alloc-Taken p r small some_free =
    let (ppn, p', e, taken) = alloc_page-Taken p r some_free in
    (ppn, p', boot_alloc-alloc p r (omega arith) ∙ e, taken)

-- The three tables that `id_map` begins with, below a top table in use.
module _ (p : Phys) (pml4 : ℕ) (r : IsReady p) (small : p.free_pages.size ≤ 2 ^ 19)
    (used : is_free p pml4 ≡ false) (in_reach : pml4 < 2 ^ 19) where
  module _ (pdpt pdir ptbl : ℕ) (p₁ p₂ p₃ : Phys) (t₁ : Taken p pdpt p₁) (t₂ : Taken p₁ pdir p₂)
      (t₃ : Taken p₂ ptbl p₃) where
    abbrev start : Phys
    start =
        store (store (store p₃ (pml4, 0) (table_word pdpt)) (pdpt, 0) (table_word pdir)) (pdir, 0)
          (table_word ptbl)

    abbrev start_role : ℕ → ℕ
    start_role q = if q == ptbl then 3 else if q == pdir then 2 else if q == pdpt then 1 else 0

    start-Tables : Tables start pml4 pdpt pdir (λ c. ptbl) start_role 0 0
    unfolding store
    start-Tables =
        let use₁ = taken_used t₁ in
        let top₁ = taken_keeps t₁ _ used in
        let top₂ = taken_keeps t₂ _ top₁ in
        let use₂ = taken_keeps t₂ _ use₁ in
        let dir₂ = taken_used t₂ in
        let ne₁ = taken_apart t₁ _ used in
        let ne₂ = taken_apart t₂ _ top₁ in
        let ne₃ = taken_apart t₃ _ top₂ in
        let ne₄ = taken_apart t₂ _ use₁ in
        let ne₅ = taken_apart t₃ _ use₂ in
        let ne₆ = taken_apart t₃ _ dir₂ in
        record {
          ready = record { valid = t₃.changed.ready.valid; padded = t₃.changed.ready.padded };
          small = omega (arith, t₁.changed.size, t₂.changed.size, t₃.changed.size);
          bounded = omega arith;
          at_pml4 = record {
            used = taken_keeps t₃ _ top₂;
            numbered = ground arith;
            small = in_reach;
          };
          at_pdpt = record {
            used = taken_keeps t₃ _ use₂;
            numbered = ground arith;
            small = omega (arith, t₁.within);
          };
          at_pdir = record {
            used = taken_keeps t₃ _ dir₂;
            numbered = ground arith;
            small = omega (arith, t₂.within, t₁.changed.size);
          };
          at_table = λ c h. record {
            used = taken_used t₃;
            numbered = ground arith;
            small = omega (arith, t₃.within, t₁.changed.size, t₂.changed.size);
          };
          top = ground arith;
          mid = ground arith;
          dir = λ c h. ground arith;
          filled = λ k h. absurd (omega arith);
        }

    start_state : IdMap
    start_state = record {
      pml4i = 0;
      pdpti = 0;
      pdiri = 0;
      ptbli = 0;
      phys = 0;
      pdpt = pdpt;
      pdir = pdir;
      ptbl = ptbl;
      mem = start;
    }

    start-Running : Running pml4 0 start_state
    unfolding start_state
    start-Running = record {
      table = λ c. ptbl;
      role = start_role;
      tables = start-Tables;
      at_ptbl = refl;
      at_ptbli = refl;
      at_pdiri = refl;
      at_pdpti = refl;
      at_phys = refl;
    }

    start_free : free_count p ≡ 3 + free_count start
    unfolding free_count store
    start_free = omega (arith, t₁.counted, t₂.counted, t₃.counted)

  pub id_map-RunsOn :
      (n : ℕ) → n < 511 * 512 → 3 + n / 512 ≤ free_count p → RunsOn pml4 n 0 (id_map pml4 n p)
  unfolding id_map start_state
  id_map-RunsOn n few enough =
      let (pdpt, p₁, e₁, t₁) = boot_alloc-Taken p r small (omega arith) in
      let (pdir, p₂, e₂, t₂) =
        boot_alloc-Taken p₁ t₁.changed.ready (omega (arith, t₁.changed.size))
          (omega (arith, t₁.counted)) in
      let (ptbl, p₃, e₃, t₃) =
        boot_alloc-Taken p₂ t₂.changed.ready (omega (arith, t₁.changed.size, t₂.changed.size))
          (omega (arith, t₁.counted, t₂.counted)) in
      let a : pml4 % 2 ^ 20 ≡ pml4 = omega arith in
      let a₁ : pdpt % 2 ^ 20 ≡ pdpt = omega (arith, t₁.within) in
      let a₂ : pdir % 2 ^ 20 ≡ pdir = omega (arith, t₂.within, t₁.changed.size) in
      let a₃ : ptbl % 2 ^ 20 ≡ ptbl = omega (arith, t₃.within, t₂.changed.size, t₁.changed.size) in
      let s = start_state pdpt pdir ptbl p₁ p₂ p₃ t₁ t₂ t₃ in
      let z : 0 + n ≡ n = omega arith in
      let run : RunsOn pml4 n 0 (id_map_pages pml4 n s) =
        subst (λ j. RunsOn pml4 j 0 (id_map_pages pml4 n s)) z
          (id_map_pages-RunsOn pml4 n 0 s (start-Running pdpt pdir ptbl p₁ p₂ p₃ t₁ t₂ t₃)
            (omega arith) (omega (arith, start_free pdpt pdir ptbl p₁ p₂ p₃ t₁ t₂ t₃))) in
      rw (e₁, e₂, e₃, a, a₁, a₂, a₃) run
