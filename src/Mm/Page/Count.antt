-- ===== src/Mm/Page/Count.antt =====
-- How many frames are free, and that `alloc_page` succeeds as long as one is.
use ulmeros.Common.{
  ℕ, zero, suc, ◌+◌, ◌<◌, ◌≡◌, ◌≢◌, refl, ap, ◌∙◌, sym, Bool, true, false, ◌==◌, if◌then◌else◌,
  arith, bool_clash,
}
use native.Mathlib.Decide.{ℕ_discrete}
use ulmeros.Common.Outcome.{Outcome, ok, panic, fault, spinning}
use ulmeros.Mm.Page.{Phys, IsReady, alloc_page}
use ulmeros.Mm.Page.Alloc.{is_free, Allocated, alloc_page-Allocated, Changed}

-- how often the test holds below the bound
unfoldable pub count : (ℕ → Bool) → ℕ → ℕ
count test zero = 0
count test (suc n) = count test n + (if test n then 1 else 0)

pub count_same : (f g : ℕ → Bool) (n : ℕ) → ((j : ℕ) → j < n → f j ≡ g j) → count f n ≡ count g n
unfolding count
count_same f g zero h = refl
count_same f g (suc n) h =
    let ih = count_same f g n (λ j l. h j (omega arith)) in ground (arith, h n, ih)

pub count_one_less :
    (f g : ℕ → Bool) (n i : ℕ)
    → i < n
    → g i ≡ true
    → ((j : ℕ) → f j ≡ (if i == j then false else g j))
    → count g n ≡ suc (count f n)
unfolding count
count_one_less f g zero i l t h = absurd (omega arith)
count_one_less f g (suc n) i l t h = elim (ℕ_discrete i n) [
  | yes e ↦
      let same = count_same f g n (λ j k. ground (arith, h j)) in
      let here : g n ≡ true = sym (ap g e) ∙ t in ground (arith, h n, same, here)
  | no ne ↦ let ih = count_one_less f g n i (omega arith) t h in ground (arith, h n, ih)
]

pub count_zero : (g : ℕ → Bool) (n : ℕ) → ((j : ℕ) → j < n → g j ≡ false) → count g n ≡ 0
unfolding count
count_zero g zero h = refl
count_zero g (suc n) h =
    let ih = count_zero g n (λ j l. h j (omega arith)) in ground (arith, h n, ih)

-- the number of free frames
unfoldable pub free_count : Phys → ℕ
free_count p = count (is_free p) p.free_pages.size

-- A frame was free, and is handed out.
pub record Taken (p : Phys) (ppn : ℕ) (p' : Phys) : Type 0 where
  pub within : ppn < p.free_pages.size
  pub was_free : is_free p ppn ≡ true
  pub changed : Changed p p' ppn false
  pub frames : (q i : ℕ) → p'.frames q i ≡ (if q == ppn then 0 else p.frames q i)
  pub counted : free_count p ≡ suc (free_count p')

-- Where a frame is free, `alloc_page` succeeds, and one frame fewer is free afterwards.
pub alloc_page-Taken :
    (p : Phys)
    → IsReady p
    → 0 < free_count p
    → (ppn : ℕ) × (p' : Phys) × (alloc_page p ≡ ok (ppn, p')) × Taken p ppn p'
unfolding free_count
alloc_page-Taken p r some_free = go (alloc_page p) (alloc_page-Allocated p r)
  where
    go :
        (out : Outcome (ℕ × Phys))
        → Allocated p out
        → (ppn : ℕ) × (p' : Phys) × (out ≡ ok (ppn, p')) × Taken p ppn p'
    go fault a = absurd a
    go spinning a = absurd a
    go panic a = absurd (omega (arith, count_zero (is_free p) p.free_pages.size a))
    go (ok (ppn, p')) (lt, free, least, c, fr) = (
      ppn,
      p',
      refl,
      record {
        within = lt;
        was_free = free;
        changed = c;
        frames = fr;
        counted =
            count_one_less (is_free p') (is_free p) p.free_pages.size ppn lt free c.law
            ∙ ap (λ n. suc (count (is_free p') n)) (sym c.size);
      },
    )

module _ {p : Phys} {ppn : ℕ} {p' : Phys} (t : Taken p ppn p') where
  pub taken_used : is_free p' ppn ≡ false
  taken_used = ground (arith, t.changed.law ppn)

  -- What was in use is another frame, and stays in use.
  pub taken_apart : (f : ℕ) → is_free p f ≡ false → f ≢ ppn
  taken_apart f used e = bool_clash t.was_free (sym (ap (is_free p) e) ∙ used)

  pub taken_keeps : (f : ℕ) → is_free p f ≡ false → is_free p' f ≡ false
  taken_keeps f used = let ne = taken_apart f used in ground (arith, t.changed.law f, used)
