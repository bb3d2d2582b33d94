-- ===== src/Mm/Page/Alloc.antt =====
-- `alloc_page` and `free_page`: which frame they give and take, and what they leave alone.
use ulmeros.Common.{
  ℕ, ◌*◌, ◌≤◌, ◌<◌, ◌≡◌, refl, Bool, true, false, Option, none, some, leb, ◌==◌, if◌then◌else◌,
  arith, Bool-cases, ◌∙◌, ◌⊎◌, inl, inr, subst,
}
use native.Mathlib.Decide.{dec_lt}
use ulmeros.Common.Outcome.{Outcome, ok, panic, ◌>>=◌}
use ulmeros.Util.Bitmap.{Bitmap, byte_size, bitmap_set, bitmap_find_free}
use ulmeros.Util.Bitmap.Access.{clear_at, set-Marks, clr-Marks, get-clear_at, byte_in_buffer}
use ulmeros.Util.Bitmap.Search.{LeastClear, find_free-LeastClear}
use ulmeros.Mm.Page.{Phys, IsReady, clear_frame, alloc_page, free_page}

-- whether frame `i` is free
abbrev pub is_free : Phys → ℕ → Bool
is_free p i = clear_at p.free_pages.bitmap i

-- `p'` is `p` with frame `ppn` made free (`c`) or used, its memory aside.
pub record Changed (p p' : Phys) (ppn : ℕ) (c : Bool) : Type 0 where
  pub ready : IsReady p'
  pub size : p'.free_pages.size ≡ p.free_pages.size
  pub law : (j : ℕ) → is_free p' j ≡ (if ppn == j then c else is_free p j)

-- what `alloc_page` promises of its result
abbrev pub Allocated : Phys → Outcome (ℕ × Phys) → Type 0
Allocated p (ok (ppn, p')) =
    (ppn < p.free_pages.size)
    × (is_free p ppn ≡ true)
    × ((j : ℕ) → j < ppn → is_free p j ≡ false)
    × Changed p p' ppn false
    × ((q i : ℕ) → p'.frames q i ≡ (if q == ppn then 0 else p.frames q i))
Allocated p panic = (j : ℕ) → j < p.free_pages.size → is_free p j ≡ false
Allocated p _ = ⊥

pub in_size :
    (p : Phys) (i : ℕ)
    → IsReady p
    → i < byte_size p.free_pages.size * 8
    → is_free p i ≡ true
    → i < p.free_pages.size
in_size p i r b free = elim (dec_lt i p.free_pages.size) [
  | yes h ↦ h
  | no h ↦ absurd (ground (arith, r.padded i))
]

padded_after :
    (p : Phys) (bmp : Bitmap) (ppn : ℕ) (c : Bool)
    → IsReady p
    → ppn < p.free_pages.size
    → bmp.size ≡ p.free_pages.size
    → ((j : ℕ) → clear_at bmp.bitmap j ≡ (if ppn == j then c else is_free p j))
    → (i : ℕ) → bmp.size ≤ i
    → i < byte_size bmp.size * 8
    → clear_at bmp.bitmap i ≡ false
padded_after p bmp ppn c r h e law i le b =
    let b' = subst (λ k. i < byte_size k * 8) e b in
    let old : is_free p i ≡ false = r.padded i (omega arith) b' in
    let other : (ppn == i) ≡ false = ground arith in law i ∙ rw other old

-- Where a frame is free, `alloc_page` gives the lowest free one, which is below the number of
-- frames: it is then in use and zeroed, and no other frame's mark or memory has changed. It panics
-- only where no frame is free.
pub alloc_page-Allocated : (p : Phys) → IsReady p → Allocated p (alloc_page p)
unfolding alloc_page clear_frame
alloc_page-Allocated p r = go (bitmap_find_free p.free_pages) (find_free-LeastClear r.valid)
  where
    within : (j : ℕ) → j < p.free_pages.size → j < byte_size p.free_pages.size * 8
    within j h = omega (arith, byte_in_buffer p.free_pages.size j h)

    go :
        (o : Option ℕ)
        → LeastClear p.free_pages.bitmap 0 (byte_size p.free_pages.size * 8) o
        → Allocated p (elim o [
          | none ↦ panic
          | some ppn ↦ bitmap_set p.free_pages ppn >>= λ used.
              ok (ppn, record { free_pages = used; frames = clear_frame p.frames ppn })
        ])
    go none full = λ j h. full j (omega arith) (within j h)
    go (some ppn) (a, b, free, least) =
        let h = in_size p ppn r b free in
        let (bmp, e, v, same, law) = set-Marks r.valid ppn h in
        rw e (
          h,
          free,
          λ j k. least j (omega arith) k,
          record {
            ready = record { valid = v; padded = padded_after p bmp ppn false r h same law };
            size = same;
            law = law;
          },
          λ q i. refl,
        )

-- what `free_page` promises of its result
abbrev pub Freed : Phys → ℕ → Outcome Phys → Type 0
Freed p page (ok p') =
    (page < p.free_pages.size)
    × (is_free p page ≡ false)
    × Changed p p' page true
    × (p'.frames ≡ p.frames)
Freed p page panic = (p.free_pages.size ≤ page) ⊎ (is_free p page ≡ true)
Freed p page _ = ⊥

-- From a ready allocator `free_page` returns exactly at a frame in use, and then makes that frame
-- free and changes no other frame's mark and no memory. It panics at a frame that is free already
-- and at a number that is no frame's.
pub free_page-Freed : (p : Phys) (page : ℕ) → IsReady p → Freed p page (free_page p page)
unfolding free_page
free_page-Freed p page r = elim (dec_lt page p.free_pages.size) [
  | yes h ↦ elim (Bool-cases (is_free p page)) [
    | inl free ↦
        let t : leb p.free_pages.size page ≡ false = ground arith in
        rw (t, get-clear_at p.free_pages page h, free) (inr free)
    | inr used ↦
        let t : leb p.free_pages.size page ≡ false = ground arith in
        let (bmp, e, v, same, law) = clr-Marks r.valid page h in
        rw (t, get-clear_at p.free_pages page h, used, e)
          (
            h,
            used,
            record {
              ready = record { valid = v; padded = padded_after p bmp page true r h same law };
              size = same;
              law = law;
            },
            refl,
          )
  ]
  | no h ↦ let t : leb p.free_pages.size page ≡ true = ground arith in rw t (inl (omega arith))
]
