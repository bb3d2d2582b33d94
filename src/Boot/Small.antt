-- ===== src/Boot/Small.antt =====
-- A region that ends in the first page: its last page number wraps, and `create_pagemap` stops the
-- machine at the end of the bitmap.
use ulmeros.Common.{
  ℕ, zero, suc, ◌+◌, ◌-◌, ◌/◌, ◌%◌, ◌^◌, ◌≤◌, ◌<◌, ◌≡◌, refl, ap, ◌∙◌, Bool, true, false, not, List,
  [], ◌∷◌, ◌++◌, leb, if◌then◌else◌, arith, le→leb,
}
use native.Mathlib.Decide.{dec_lt}
use ulmeros.Common.Outcome.{Outcome, ok, panic, fault, spinning, ◌>>=◌}
use ulmeros.Util.Bitmap.{Bitmap, IsValid, bitmap_init}
use ulmeros.Util.Bitmap.Access.{clr-Marks, out_of_bounds, bitmap_init-IsValid}
use ulmeros.Boot.Regions.{
  Region, Mmap, start_page, end_page, clear_pages, clear_regions, total_pages, create_pagemap,
}
use ulmeros.Boot.Opened.{AllFit, if_on, clear_regions-Opened}

run_off :
    (fuel page : ℕ) (bmp : Bitmap)
    → IsValid bmp
    → bmp.size < 2 ^ 32
    → page < 2 ^ 32
    → bmp.size - page < fuel
    → clear_pages fuel (2 ^ 32 - 1) page bmp ≡ panic
unfolding clear_pages
run_off zero page bmp v small p f = absurd (omega arith)
run_off (suc fuel) page bmp v small p f = elim (dec_lt page bmp.size) [
  | yes lt ↦
      let (b, e, vb, sb, law) = clr-Marks v page lt in
      let next : (page + 1) % 2 ^ 32 ≡ page + 1 = omega arith in
      let on : leb page (2 ^ 32 - 1) ≡ true = le→leb _ _ (omega arith) in
      rw (on, e, next) (run_off fuel (page + 1) b vb (omega arith) (omega arith) (omega arith))
  | no ge ↦
      let on : leb page (2 ^ 32 - 1) ≡ true = le→leb _ _ (omega arith) in
      rw (on, (out_of_bounds bmp page (omega arith)).2) refl
]

one_more :
    (on : Bool) (out : Outcome Bitmap) (bmp : Bitmap) (k h kh : Bitmap → Outcome Bitmap)
    → ((b : Bitmap) → kh b ≡ (k b >>= h))
    → (if not on then kh bmp else (out >>= kh)) ≡ ((if not on then k bmp else (out >>= k)) >>= h)
one_more false out bmp k h kh e = e bmp
one_more true (ok b) bmp k h kh e = e b
one_more true panic bmp k h kh e = refl
one_more true fault bmp k h kh e = refl
one_more true spinning bmp k h kh e = refl

clear_regions-append :
    (rs ss : List Region) (bmp : Bitmap)
    → clear_regions (rs ++ ss) bmp ≡ (clear_regions rs bmp >>= clear_regions ss)
unfolding clear_regions
clear_regions-append [] ss bmp = refl
clear_regions-append (r ∷ rs) ss bmp =
    one_more r.available (clear_pages (bmp.size + 1) (end_page r) (start_page r) bmp) bmp
      (clear_regions rs) (clear_regions ss) (clear_regions (rs ++ ss)) (clear_regions-append rs ss)

-- Where an available region ends below address 4096, and those before it that are available end at
-- 4096 or above and not above the highest address, which is below 2^44 - 4096, `create_pagemap` panics.
pub create_pagemap-panics :
    (m : Mmap) (before after : List Region) (r : Region)
    → m.regions ≡ before ++ (r ∷ after)
    → m.phys_ram_size + 4096 ≤ 2 ^ 44
    → AllFit m.phys_ram_size before
    → r.available ≡ true
    → r.addr + r.size < 4096
    → create_pagemap m ≡ panic
unfolding create_pagemap clear_regions total_pages start_page end_page bitmap_init
create_pagemap-panics m before after r here small fit on tiny =
    let size = m.phys_ram_size / 4096 in
    let wrap : size % 2 ^ 32 ≡ size = omega arith in
    let (b, e, v, same, law) =
      clear_regions-Opened m.phys_ram_size before (bitmap_init size 0xff)
        (bitmap_init-IsValid size 0xff) small refl fit in
    let last : end_page r ≡ 2 ^ 32 - 1 = omega arith in
    let first : start_page r ≤ 1 = ground arith in
    let stops : clear_pages (b.size + 1) (end_page r) (start_page r) b ≡ panic =
      ap (λ k. clear_pages (b.size + 1) k (start_page r) b) last
      ∙ run_off (b.size + 1) (start_page r) b v (omega (arith, same)) (omega arith) (omega arith) in
    let rest : clear_regions (r ∷ after) b ≡ panic = if_on _ _ r.available on ∙ rw stops refl in
    ap (λ n. clear_regions m.regions (bitmap_init n 0xff)) wrap
    ∙ ap (λ rs. clear_regions rs (bitmap_init size 0xff)) here
    ∙ clear_regions-append before (r ∷ after) (bitmap_init size 0xff)
    ∙ rw (e, rest) refl
