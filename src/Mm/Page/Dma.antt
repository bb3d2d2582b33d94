-- ===== src/Mm/Page/Dma.antt =====
-- `alloc_dma_region`: sixteen adjacent frames, aligned and below four gigabytes.
use ulmeros.Common.{
  ℕ, zero, suc, ◌+◌, ◌*◌, ◌^◌, ◌%◌, ◌≤◌, ◌<◌, ◌≡◌, refl, true, false, Option, none, some, ltb, leb,
  if◌then◌else◌, arith, Bool-cases, ◌∙◌, inl, inr, subst, ◌&&◌,
}
use ulmeros.Common.Outcome.{Outcome, ok, panic, ◌>>=◌}
use ulmeros.Util.Bitmap.{Bitmap, IsValid, byte_size, bitmap_find_n_free}
use ulmeros.Util.Bitmap.Access.{clear_at, set-Marks, byte_in_buffer}
use ulmeros.Util.Bitmap.Run.{FirstRun, find_n_free-FirstRun}
use ulmeros.Mm.Page.{Phys, IsReady, mark_used, dma_pages, max_page, page_size, alloc_dma_region}
use ulmeros.Mm.Page.Alloc.{is_free, in_size}

-- `out` is the map with the `n` bits from `page` on set, and with no other change.
abbrev MarksRun : Bitmap → ℕ → ℕ → Outcome Bitmap → Type 0
MarksRun bmp n page out =
    (bmp' : Bitmap) × (out ≡ ok bmp')
    × IsValid bmp'
    × (bmp'.size ≡ bmp.size)
    × ((j : ℕ)
        → clear_at bmp'.bitmap j
          ≡ (if leb page j && ltb j (page + n) then false else clear_at bmp.bitmap j))

mark_used-MarksRun :
    (n page : ℕ) {bmp : Bitmap}
    → IsValid bmp
    → page + n ≤ bmp.size
    → MarksRun bmp n page (mark_used n page bmp)
unfolding mark_used
mark_used-MarksRun zero page {bmp} v h = (bmp, refl, v, refl, λ j. ground arith)
mark_used-MarksRun (suc n) page {bmp} v h =
    let (b₁, e₁, v₁, s₁, l₁) = set-Marks v page (omega arith) in
    let (b₂, e₂, v₂, s₂, l₂) = mark_used-MarksRun n (page + 1) v₁ (omega arith) in
    (b₂, rw (e₁, e₂), v₂, s₂ ∙ s₁, λ j. ground (arith, l₁ j, l₂ j))

-- what `alloc_dma_region` promises of its result
abbrev pub DmaRegion : Phys → Outcome (ℕ × Phys) → Type 0
DmaRegion p (ok (addr, p')) =
    (addr % 2 ^ 16 ≡ 0)
    × (addr + 2 ^ 16 ≤ 2 ^ 32)
    × ((j : ℕ) → addr ≤ j * page_size → j * page_size < addr + 2 ^ 16 → is_free p j ≡ true)
    × ((j : ℕ)
        → is_free p' j ≡ (
            if leb addr (j * page_size) && ltb (j * page_size) (addr + 2 ^ 16)
            then false
            else is_free p j))
    × IsReady p'
    × (p'.frames ≡ p.frames)
DmaRegion p panic =
    (s : ℕ)
    → s % dma_pages ≡ 0
    → s + dma_pages ≤ max_page
    → s + dma_pages ≤ p.free_pages.size
    → ¬ ((j : ℕ) → s ≤ j → j < s + dma_pages → is_free p j ≡ true)
DmaRegion p _ = ⊥

-- What `alloc_dma_region` returns on a ready allocator is the address of 64 kilobytes, aligned to
-- their size and below four gigabytes, whose frames were all free and are now in use; no other
-- frame's mark and no memory has changed. It panics only where no sixteen adjacent free frames start
-- at a multiple of sixteen and end below the limit `max_page`.
pub alloc_dma_region-DmaRegion : (p : Phys) → IsReady p → DmaRegion p (alloc_dma_region p)
unfolding alloc_dma_region
alloc_dma_region-DmaRegion p r =
    go (bitmap_find_n_free p.free_pages dma_pages)
      (find_n_free-FirstRun p.free_pages dma_pages (omega arith))
  where
    padded :
        (s : ℕ) (b : Bitmap)
        → ((j : ℕ)
            → clear_at b.bitmap j
              ≡ (if leb s j && ltb j (s + dma_pages) then false else is_free p j))
        → b.size ≡ p.free_pages.size
        → (i : ℕ) → b.size ≤ i
        → i < byte_size b.size * 8
        → clear_at b.bitmap i ≡ false
    padded s b law e i h k =
        let old : is_free p i ≡ false =
          r.padded i (omega arith) (subst (λ z. i < byte_size z * 8) e k) in
        ground (arith, law i)

    run :
        (s : ℕ)
        → ltb max_page (s + dma_pages) ≡ false
        → FirstRun p.free_pages.bitmap dma_pages (byte_size p.free_pages.size * 8) (some s)
        → DmaRegion p (
            mark_used dma_pages s p.free_pages >>= λ used.
            ok (s * page_size, record p { free_pages = used }))
    run s low (aligned, fits, clear, least) =
        let last =
          in_size p (s + 15) r (omega arith) (clear (s + 15) (omega arith) (omega arith)) in
        let (b, e, v, same, law) = mark_used-MarksRun 16 s r.valid (omega arith) in
        rw e (
          omega arith,
          ground arith,
          λ j h k. clear j (omega arith) (omega arith),
          λ j. ground (arith, law j),
          record { valid = v; padded = padded s b law same },
          refl,
        )

    go :
        (o : Option ℕ)
        → FirstRun p.free_pages.bitmap dma_pages (byte_size p.free_pages.size * 8) o
        → DmaRegion p (elim o [
          | none ↦ panic
          | some s ↦
              if ltb max_page (s + dma_pages)
              then panic
              else (mark_used dma_pages s p.free_pages >>= λ used.
                  ok (s * page_size, record p { free_pages = used }))
        ])
    go none h = λ s a low fits free.
        h s a (omega (arith, byte_in_buffer p.free_pages.size (s + 15) (omega arith))) free
    go (some s) h = elim (Bool-cases (ltb max_page (s + dma_pages))) [
      | inl high ↦ rw high λ k a low fits free. h.3 k a (ground arith) free
      | inr low ↦ rw low (run s low h)
    ]
