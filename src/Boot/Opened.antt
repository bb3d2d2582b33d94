-- ===== src/Boot/Opened.antt =====
-- What clearing the pages of the available regions does to the bitmap.
use ulmeros.Common.{
  ℕ, zero, suc, ◌+◌, ◌-◌, ◌*◌, ◌/◌, ◌%◌, ◌^◌, ◌≤◌, ◌<◌, ◌≡◌, refl, ◌∙◌, Bool, true, false, not,
  ◌&&◌, ◌||◌, List, [], ◌∷◌, leb, if◌then◌else◌, arith, Bool-cases, inl, inr,
}
use ulmeros.Common.Outcome.{Outcome, ok}
use ulmeros.Util.Bitmap.{Bitmap, IsValid}
use ulmeros.Util.Bitmap.Access.{clear_at, clr-Marks}
use ulmeros.Mm.Page.{page_size}
use ulmeros.Boot.Regions.{Region, start_page, end_page, clear_pages, clear_regions}

-- `out` is the map `bmp`, with the bits that the test names made clear.
abbrev pub Opened : Bitmap → (ℕ → Bool) → Outcome Bitmap → Type 0
Opened bmp test out =
    (bmp' : Bitmap) × (out ≡ ok bmp')
    × IsValid bmp'
    × (bmp'.size ≡ bmp.size)
    × ((j : ℕ) → clear_at bmp'.bitmap j ≡ (test j || clear_at bmp.bitmap j))

clear_pages-Opened :
    (fuel end page : ℕ) (bmp : Bitmap)
    → IsValid bmp
    → bmp.size < 2 ^ 32
    → end < bmp.size
    → end + 1 - page < fuel
    → Opened bmp (λ j. leb page j && leb j end) (clear_pages fuel end page bmp)
unfolding clear_pages
clear_pages-Opened zero end page bmp v small h f = absurd (omega arith)
clear_pages-Opened (suc fuel) end page bmp v small h f = elim (Bool-cases (leb page end)) [
  | inl le ↦
      let (b, e, vb, sb, law) = clr-Marks v page (ground arith) in
      let next : (page + 1) % 2 ^ 32 ≡ page + 1 = ground arith in
      let (b', e', v', s', law') =
        clear_pages-Opened fuel end (page + 1) b vb (omega arith) (omega arith) (ground arith) in
      rw (le, e, next, e') (b', refl, v', omega arith, λ j. ground (arith, law j, law' j))
  | inr gt ↦ rw gt (bmp, refl, v, refl, λ j. ground arith)
]

-- Page `i` lies wholly in the available region.
abbrev pub covers : Region → ℕ → Bool
covers r i =
    r.available && (leb r.addr (i * page_size) && leb ((i + 1) * page_size) (r.addr + r.size))

unfoldable pub any_covers : List Region → ℕ → Bool
any_covers [] i = false
any_covers (r ∷ rs) i = covers r i || any_covers rs i

-- An available region ends at 4096 or above, and not above the limit.
abbrev pub Fits : ℕ → Region → Type 0
Fits limit r = r.available ≡ true → (4096 ≤ r.addr + r.size) × (r.addr + r.size ≤ limit)

unfoldable pub AllFit : ℕ → List Region → Type 0
AllFit limit [] = Unit
AllFit limit (r ∷ rs) = Fits limit r × AllFit limit rs

module _ (limit : ℕ) (small : limit + 4096 ≤ 2 ^ 44) (r : Region) (on : r.available ≡ true)
    (f : Fits limit r) where
  end_page-lt : end_page r < limit / 4096
  unfolding end_page
  end_page-lt = let h = f on in omega arith

  pages-covers : (j : ℕ) → (leb (start_page r) j && leb j (end_page r)) ≡ covers r j
  unfolding start_page end_page
  pages-covers j = let h = f on in ground arith

pub if_on {ℓ} : {A : Type ℓ} (x y : A) (b : Bool) → b ≡ true → (if not b then x else y) ≡ y
if_on x y b e = ground arith

if_off {ℓ} : {A : Type ℓ} (x y : A) (b : Bool) → b ≡ false → (if not b then x else y) ≡ x
if_off x y b e = ground arith

pub clear_regions-Opened :
    (limit : ℕ) (rs : List Region) (bmp : Bitmap)
    → IsValid bmp
    → limit + 4096 ≤ 2 ^ 44
    → bmp.size ≡ limit / 4096
    → AllFit limit rs
    → Opened bmp (any_covers rs) (clear_regions rs bmp)
unfolding clear_regions any_covers AllFit
clear_regions-Opened limit [] bmp v small h f = (bmp, refl, v, refl, λ j. refl)
clear_regions-Opened limit (r ∷ rs) bmp v small h (f, fs) = elim (Bool-cases r.available) [
  | inl on ↦
      let (b, e, vb, sb, law) =
        clear_pages-Opened (bmp.size + 1) (end_page r) (start_page r) bmp v (omega arith)
          (omega (arith, end_page-lt limit small r on f))
          (omega (arith, end_page-lt limit small r on f)) in
      let (b', e', v', s', law') = clear_regions-Opened limit rs b vb small (sb ∙ h) fs in
      (
        b',
        if_on _ _ r.available on ∙ (rw (e, e') refl),
        v',
        s' ∙ sb,
        λ j. ground (arith, law j, law' j, pages-covers limit small r on f j),
      )
  | inr off ↦
      let (b', e', v', s', law') = clear_regions-Opened limit rs bmp v small h fs in
      (b', if_off _ _ r.available off ∙ e', v', s', λ j. ground (arith, law' j))
]
