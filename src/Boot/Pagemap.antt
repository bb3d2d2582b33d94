-- ===== src/Boot/Pagemap.antt =====
-- The bitmap that the boot stage makes of the memory map.
use ulmeros.Common.{
  ℕ, zero, suc, ◌+◌, ◌-◌, ◌*◌, ◌/◌, ◌%◌, ◌^◌, ◌≤◌, ◌<◌, ◌≡◌, refl, ap, ◌∙◌, subst, Bool, true,
  false, ◌&&◌, ◌||◌, List, [], ◌∷◌, ◌++◌, ltb, leb, ◌==◌, if◌then◌else◌, arith, Bool-cases, inl,
  inr,
}
use ulmeros.Common.Outcome.{Outcome, ok, ◌>>=◌}
use ulmeros.Util.Bitmap.{Bitmap, byte_size, bitmap_init}
use ulmeros.Util.Bitmap.Access.{clear_at, byte_in_buffer, clear_at-init, bitmap_init-IsValid}
use ulmeros.Mm.Page.{Frames, IsReady, page_size}
use ulmeros.Boot.Regions.{
  Mmape, Region, Mmap, add_region, scan_entries, create_mmap, total_pages, create_pagemap,
}
use ulmeros.Boot.Opened.{any_covers, AllFit, clear_regions-Opened}

-- The loader's entry describes available memory that ends at 4096 or above.
abbrev pub IsSound : Mmape → Type 0
IsSound e = e.kind ≡ 1 → (4096 ≤ e.base_addr + e.size) × (e.base_addr + e.size + 4096 ≤ 2 ^ 44)

unfoldable pub AllSound : List Mmape → Type 0
AllSound [] = Unit
AllSound (e ∷ es) = IsSound e × AllSound es

-- The entries stand one after the other from `p` on, and end at `q`.
unfoldable pub Laid : (ℕ → Mmape) → ℕ → List Mmape → ℕ → Type 0
Laid memory p [] q = p ≡ q
Laid memory p (e ∷ es) q = (memory p ≡ e) × Laid memory (p + (e.entry_size + 4)) es q

fold_entries : List Mmape → Mmap → Mmap
fold_entries [] m = m
fold_entries (e ∷ es) m = fold_entries es (add_region e m)

Laid-le : (memory : ℕ → Mmape) (p : ℕ) (es : List Mmape) (q : ℕ) → Laid memory p es q → p ≤ q
unfolding Laid
Laid-le memory p [] q l = omega arith
Laid-le memory p (e ∷ es) q (_, l) = omega (arith, Laid-le memory (p + (e.entry_size + 4)) es q l)

scan-fold :
    (memory : ℕ → Mmape) (fuel q p : ℕ) (es : List Mmape) (m : Mmap)
    → Laid memory p es q
    → q < 2 ^ 32
    → q - p < fuel
    → scan_entries memory fuel q p m ≡ ok (fold_entries es m)
unfolding scan_entries fold_entries Laid
scan-fold memory zero q p es m l small f = absurd (omega arith)
scan-fold memory (suc fuel) q p [] m l small f = let t : ltb p q ≡ false = ground arith in rw t refl
scan-fold memory (suc fuel) q p (e ∷ es) m (at, l) small f =
    let le = Laid-le memory (p + (e.entry_size + 4)) es q l in
    let t : ltb p q ≡ true = ground arith in
    let next : (p + (e.entry_size + 4)) % 2 ^ 32 ≡ p + (e.entry_size + 4) = omega arith in
    rw (t, at, next)
      (scan-fold memory fuel q (p + (e.entry_size + 4)) es (add_region e m) l small (omega arith))

-- Page `i` lies wholly in the memory that an entry calls available.
abbrev pub entry_covers : Mmape → ℕ → Bool
entry_covers e i =
    (e.kind == 1)
    && (leb e.base_addr (i * page_size) && leb ((i + 1) * page_size) (e.base_addr + e.size))

pub any_entry_covers : List Mmape → ℕ → Bool
any_entry_covers [] i = false
any_entry_covers (e ∷ es) i = entry_covers e i || any_entry_covers es i

-- the highest end of the available entries
pub highest : List Mmape → ℕ → ℕ
highest [] ram = ram
highest (e ∷ es) ram =
    highest es
      (if (e.kind == 1) && ltb ram (e.base_addr + e.size) then e.base_addr + e.size else ram)

any_covers-append :
    (rs ss : List Region) (i : ℕ) → any_covers (rs ++ ss) i ≡ (any_covers rs i || any_covers ss i)
unfolding any_covers
any_covers-append [] ss i = refl
any_covers-append (r ∷ rs) ss i = ground (arith, any_covers-append rs ss i)

AllFit-append :
    (limit : ℕ) (rs ss : List Region) → AllFit limit rs → AllFit limit ss → AllFit limit (rs ++ ss)
unfolding AllFit
AllFit-append limit [] ss f g = g
AllFit-append limit (r ∷ rs) ss (f, fs) g = (f, AllFit-append limit rs ss fs g)

AllFit-grow : (a b : ℕ) (rs : List Region) → a ≤ b → AllFit a rs → AllFit b rs
unfolding AllFit
AllFit-grow a b [] le f = tt
AllFit-grow a b (r ∷ rs) le (f, fs) =
    (λ on. let h = f on in (h.0, omega arith), AllFit-grow a b rs le fs)

-- What the loop leaves: the highest end so far bounds the regions so far.
record Folded (m : Mmap) : Type 0 where
  small : m.phys_ram_size + 4096 ≤ 2 ^ 44
  fit : AllFit m.phys_ram_size m.regions

module _ (e : Mmape) (m : Mmap) (s : IsSound e) (f : Folded m) where
  add_region-ram : (add_region e m).phys_ram_size ≡ (
      if (e.kind == 1) && ltb m.phys_ram_size (e.base_addr + e.size)
      then e.base_addr + e.size
      else m.phys_ram_size)
  unfolding add_region
  add_region-ram = elim (Bool-cases (e.kind == 1)) [
    | inl on ↦ let h = s (ground arith) in ground arith
    | inr off ↦ ground arith
  ]

  add_region-Folded : Folded (add_region e m)
  unfolding add_region AllFit
  add_region-Folded = record {
    small = ground (arith, add_region-ram, f.small, sound);
    fit =
        AllFit-append _ m.regions _
          (AllFit-grow m.phys_ram_size _ m.regions (ground (arith, add_region-ram)) f.fit)
          (fits_new, tt);
  }
    where
      sound :
          (e.kind == 1) ≡ true
          → (4096 ≤ e.base_addr + e.size) × (e.base_addr + e.size + 4096 ≤ 2 ^ 44)
      sound on = s (ground arith)

      fits_new :
          (e.kind == 1) ≡ true
          → (4096 ≤ e.base_addr + e.size) × (e.base_addr + e.size ≤ (add_region e m).phys_ram_size)
      fits_new on = let h = sound on in ground (arith, add_region-ram)

  any_covers-add_region :
      (i : ℕ) → any_covers (add_region e m).regions i ≡ (any_covers m.regions i || entry_covers e i)
  unfolding add_region any_covers
  any_covers-add_region i = any_covers-append m.regions _ i ∙ ground arith

-- What the entries add to a state of the loop.
record Known (es : List Mmape) (m m' : Mmap) : Type 0 where
  folded : Folded m'
  ram : m'.phys_ram_size ≡ highest es m.phys_ram_size
  regions : (i : ℕ) → any_covers m'.regions i ≡ (any_covers m.regions i || any_entry_covers es i)

fold-Known : (es : List Mmape) (m : Mmap) → AllSound es → Folded m → Known es m (fold_entries es m)
unfolding fold_entries AllSound highest any_entry_covers
fold-Known [] m s f = record { folded = f; ram = refl; regions = λ i. ground arith }
fold-Known (e ∷ es) m (s, ss) f =
    let k = fold-Known es (add_region e m) ss (add_region-Folded e m s f) in
    record {
      folded = k.folded;
      ram = k.ram ∙ ap (highest es) (add_region-ram e m s f);
      regions = λ i. ground (arith, k.regions i, any_covers-add_region e m s f i);
    }

any_covers-end :
    (limit i : ℕ) (rs : List Region) → AllFit limit rs → limit / 4096 ≤ i → any_covers rs i ≡ false
unfolding any_covers AllFit
any_covers-end limit i [] f h = refl
any_covers-end limit i (r ∷ rs) (f, fs) h = elim (Bool-cases r.available) [
  | inl on ↦ let g = f on in ground (arith, any_covers-end limit i rs fs h)
  | inr off ↦ ground (arith, any_covers-end limit i rs fs h)
]

-- A bitmap for memory up to the highest available address, from which the page allocator can go
-- on, whose clear bits are the pages that lie wholly in available memory.
abbrev pub MapsMemory : List Mmape → Outcome Bitmap → Type 0
MapsMemory es out =
    (bmp : Bitmap) × (out ≡ ok bmp)
    × (bmp.size ≡ highest es 0 / page_size)
    × ((frames : Frames) → IsReady (record { free_pages = bmp; frames = frames }))
    × ((i : ℕ) → i < bmp.size → clear_at bmp.bitmap i ≡ any_entry_covers es i)

-- From a buffer in the low four gigabytes whose entries stand one after the other and fill it,
-- where each available entry ends at 4096 or above and a page below 2^44, `create_mmap` and
-- `create_pagemap` make a bitmap of the frames below the highest available address in which exactly
-- the pages that lie wholly in an available entry are free, and from which the page allocator's
-- invariant holds.
pub memory_map-free :
    (memory : ℕ → Mmape) (mmap length : ℕ) (es : List Mmape)
    → Laid memory mmap es (mmap + length)
    → mmap + length < 2 ^ 32
    → AllSound es
    → MapsMemory es (create_mmap memory mmap length >>= create_pagemap)
unfolding create_mmap create_pagemap total_pages AllFit any_covers bitmap_init
memory_map-free memory mmap length es l small s =
    let m : Mmap = record { regions = []; phys_ram_size = 0 } in
    let k = fold-Known es m s (record { small = omega arith; fit = tt }) in
    let ram = (fold_entries es m).phys_ram_size in
    let pages : ram / 4096 % 2 ^ 32 ≡ ram / 4096 = omega (arith, k.folded.small) in
    let (b, e, v, size, law) =
      clear_regions-Opened ram (fold_entries es m).regions (bitmap_init (ram / 4096) 0xff)
        (bitmap_init-IsValid (ram / 4096) 0xff) k.folded.small refl k.folded.fit in
    let wrap : (mmap + length) % 2 ^ 32 ≡ mmap + length = omega arith in
    let none_free = clear_at-init (ram / 4096) in
    let sized : b.size ≡ ram / 4096 = size in
    (
      b,
      rw
          (
            wrap,
            scan-fold memory (length + 1) (mmap + length) mmap es m l small (omega arith),
            pages,
          )
          e,
      size ∙ ap (λ k. k / 4096) k.ram,
      λ frames. record {
        valid = v;
        padded = λ i h g. ground (
          arith,
          law i,
          none_free i (subst (λ k. i < byte_size k * 8) sized g),
          any_covers-end ram i (fold_entries es m).regions k.folded.fit (omega (arith, sized)),
        );
      },
      λ i h. ground (
        arith,
        law i,
        k.regions i,
        none_free i (omega (arith, byte_in_buffer (ram / 4096) i (omega (arith, sized)))),
      ),
    )
