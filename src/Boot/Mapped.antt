-- ===== src/Boot/Mapped.antt =====
-- `paging_init`: memory is mapped onto itself, low and in the kernel's half.
use ulmeros.Common.{
  ℕ, ◌+◌, ◌*◌, ◌/◌, ◌%◌, ◌^◌, ◌≤◌, ◌<◌, ◌≡◌, refl, ◌∙◌, true, some, arith, inl, inr,
}
use ulmeros.Common.Outcome.{Outcome, ok}
use ulmeros.Mm.Page.{Phys, IsReady}
use ulmeros.Mm.Page.Count.{free_count, taken_used}
use ulmeros.Arch.Vspace.{store}
use ulmeros.Boot.Paging.{IdMap, table_word, paging_init}
use ulmeros.Boot.Tables.{apart, table_word-low}
use ulmeros.Arch.Vspace.{present, entry_ppn, level, page_of, resolve_mapping}
use ulmeros.Arch.Vspace.Map.{mapped_to}
use ulmeros.Arch.Vspace.Map.Table.{store-at, store-off, store-IsReady}
use ulmeros.Boot.Identity.{Running}
use ulmeros.Boot.Start.{boot_alloc-Taken, id_map-RunsOn}

entry_ppn-table_word : (f : ℕ) → f < 2 ^ 19 → entry_ppn (table_word f) ≡ f
unfolding entry_ppn
entry_ppn-table_word f h = rw (table_word-low f h) (omega arith)

present-table_word : (f : ℕ) → f < 2 ^ 19 → present (table_word f) ≡ true
unfolding present
present-table_word f h = rw (table_word-low f h) (ground arith)

-- the walk through entries that the boot stage wrote
walk :
    (p : Phys) (pml4 virt pdpt pdir ptbl page : ℕ)
    → p.frames pml4 (virt / 2 ^ 27 % 512) ≡ table_word pdpt
    → p.frames pdpt (virt / 2 ^ 18 % 512) ≡ table_word pdir
    → p.frames pdir (virt / 2 ^ 9 % 512) ≡ table_word ptbl
    → p.frames ptbl (virt % 512) ≡ table_word page
    → pdpt < 2 ^ 19
    → pdir < 2 ^ 19
    → ptbl < 2 ^ 19
    → page < 2 ^ 19
    → mapped_to p pml4 virt ≡ some page
unfolding resolve_mapping level page_of
walk p pml4 virt pdpt pdir ptbl page e₁ e₂ e₃ e₄ h₁ h₂ h₃ h₄ =
    rw
      (
        e₁,
        present-table_word pdpt h₁,
        entry_ppn-table_word pdpt h₁,
        e₂,
        present-table_word pdir h₂,
        entry_ppn-table_word pdir h₂,
        e₃,
        present-table_word ptbl h₃,
        entry_ppn-table_word ptbl h₃,
        e₄,
        present-table_word page h₄,
        entry_ppn-table_word page h₄,
      )
      refl

module _ (pml4 n : ℕ) (s : IdMap) (few : n < 511 * 512) (r : Running pml4 n s) where
  abbrev handed : Phys
  handed = store s.mem (pml4, 256) (s.mem.frames pml4 0)

  maps_page :
      (virt page : ℕ)
      → page < n
      → virt % 2 ^ 27 ≡ page
      → handed.frames pml4 (virt / 2 ^ 27 % 512) ≡ table_word s.pdpt
      → mapped_to handed pml4 virt ≡ some page
  maps_page virt page h low top =
      let t = r.tables in
      let w = s.mem.frames pml4 0 in
      let c = page / 512 in
      let in_last : c ≤ n / 512 = omega arith in
      let at = t.at_table c in_last in
      let i₂ : virt / 2 ^ 18 % 512 ≡ 0 = omega arith in
      let i₁ : virt / 2 ^ 9 % 512 ≡ c = omega arith in
      let i₀ : virt % 512 ≡ page % 512 = omega arith in
      walk handed pml4 virt s.pdpt s.pdir (r.table c) page top
        (rw i₂ (
          store-off s.mem pml4 256 w s.pdpt 0 (inl (apart t.at_pdpt t.at_pml4 (omega arith)))
          ∙ t.mid))
        (rw i₁ (
          store-off s.mem pml4 256 w s.pdir c (inl (apart t.at_pdir t.at_pml4 (omega arith)))
          ∙ t.dir c in_last))
        (rw i₀ (
          store-off s.mem pml4 256 w (r.table c) (page % 512)
            (inl (apart at t.at_pml4 (omega arith)))
          ∙ t.filled page h))
        (omega (arith, t.at_pdpt.small)) (omega (arith, t.at_pdir.small)) (omega (arith, at.small))
        (omega arith)

  -- the kernel's half begins at page 2^35
  both_halves :
      (page : ℕ)
      → page < n
      → (mapped_to handed pml4 page ≡ some page)
        × (mapped_to handed pml4 (2 ^ 35 + page) ≡ some page)
  both_halves page h =
      let w = s.mem.frames pml4 0 in
      let low : page / 2 ^ 27 % 512 ≡ 0 = omega arith in
      let high : (2 ^ 35 + page) / 2 ^ 27 % 512 ≡ 256 = omega arith in
      (
        maps_page page page h (omega arith)
            (rw low (store-off s.mem pml4 256 w pml4 0 (inr (omega arith)) ∙ r.tables.top)),
        maps_page (2 ^ 35 + page) page h (omega arith)
            (rw high (store-at s.mem pml4 256 w ∙ r.tables.top)),
      )

-- The outcome is a top table and a ready allocator in whose memory each of the first `n` pages is
-- mapped to itself, and so is its copy in the kernel's half.
abbrev pub MapsIdentity : (n : ℕ) → Outcome (ℕ × Phys) → Type 0
MapsIdentity n out =
    (pml4 : ℕ) × (p : Phys) × (out ≡ ok (pml4, p))
    × IsReady p
    × ((page : ℕ)
        → page < n
        → (mapped_to p pml4 page ≡ some page) × (mapped_to p pml4 (2 ^ 35 + page) ≡ some page))

-- From a ready allocator of at most 2^19 frames, of which five and one more for each 512 pages to
-- map are free, `paging_init` for fewer than 511 * 512 pages returns a top table and a ready
-- allocator; the page tables then map each of these pages to the frame of its number, and so the
-- page 2^35 further up, in the kernel's half.
pub paging_init-MapsIdentity :
    (n : ℕ) (p : Phys)
    → IsReady p
    → p.free_pages.size ≤ 2 ^ 19
    → n < 511 * 512
    → 5 + n / 512 ≤ free_count p
    → MapsIdentity n (paging_init n p)
unfolding paging_init
paging_init-MapsIdentity n p r small few enough =
    let (z, p₁, e₁, t₁) = boot_alloc-Taken p r small (omega arith) in
    let (pml4, p₂, e₂, t₂) =
      boot_alloc-Taken p₁ t₁.changed.ready (omega (arith, t₁.changed.size))
        (omega (arith, t₁.counted)) in
    let reach : pml4 < 2 ^ 19 = omega (arith, t₂.within, t₁.changed.size) in
    let a : pml4 % 2 ^ 20 ≡ pml4 = omega arith in
    let (s, e, run, left) =
      id_map-RunsOn p₂ pml4 t₂.changed.ready (omega (arith, t₁.changed.size, t₂.changed.size))
        (taken_used t₂) reach n few (omega (arith, t₁.counted, t₂.counted)) in
    (
      pml4,
      handed pml4 n s few run,
      rw (e₁, e₂, e, a) refl,
      store-IsReady s.mem pml4 256 (s.mem.frames pml4 0) run.tables.ready,
      both_halves pml4 n s few run,
    )
