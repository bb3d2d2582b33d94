-- ===== src/Boot/Release.antt =====
-- The kernel releases what the boot stage took up: what is free afterwards.
use ulmeros.Common.{
  ℕ, zero, suc, ◌+◌, ◌-◌, ◌*◌, ◌/◌, ◌%◌, ◌^◌, ◌≤◌, ◌<◌, ◌≡◌, refl, ap, ◌∙◌, subst, Bool, true,
  false, ◌==◌, ◌||◌, if◌then◌else◌, arith, Bool-cases, ◌⊎◌, inl, inr, bool_clash,
}
use ulmeros.Common.Outcome.{Outcome, ok, panic, fault, spinning, ◌>>=◌}
use ulmeros.Util.Bitmap.{Bitmap, byte_size}
use ulmeros.Mm.Page.{Phys, IsReady, free_page}
use ulmeros.Mm.Page.Alloc.{is_free, Freed, free_page-Freed, Changed}
use ulmeros.Boot.Reserve.{
  Image, boot_info_of, alloc_boot32_pages, free_pages, free_boot_pages, delete_init_stack,
}
use ulmeros.Boot.Handover.{
  in_run, Lies, in_code, in_heap, in_stack, in_kernel, alloc_boot32_pages-Reserves, code_start,
  code_count, heap_start, heap_count,
}

free_page_ok :
    (p : Phys) (page : ℕ)
    → IsReady p
    → page < p.free_pages.size
    → is_free p page ≡ false
    → (p' : Phys) × (free_page p page ≡ ok p') × Changed p p' page true × (p'.frames ≡ p.frames)
free_page_ok p page r h used = go (free_page p page) (free_page-Freed p page r)
  where
    go :
        (out : Outcome Phys)
        → Freed p page out
        → (p' : Phys) × (out ≡ ok p') × Changed p p' page true × (p'.frames ≡ p.frames)
    go (ok p') (a, b, c, f) = (p', refl, c, f)
    go panic (inl past) = absurd (omega arith)
    go panic (inr free) = absurd (bool_clash free used)
    go fault a = absurd a
    go spinning a = absurd a

in_run_first : (start n : ℕ) → in_run start (suc n) start ≡ true
in_run_first start n = ground arith

in_run_later :
    (start n j : ℕ)
    → in_run (start + 1) n j ≡ true
    → (in_run start (suc n) j ≡ true) × ((start == j) ≡ false)
in_run_later start n j h = ground arith

in_run-suc : (start n j : ℕ) → in_run start (suc n) j ≡ ((start == j) || in_run (start + 1) n j)
in_run-suc start n j = ground arith

if_other : (c : Bool) {x y : Bool} → y ≡ (if c then true else x) → c ≡ false → x ≡ false → y ≡ false
if_other c e o u = ground arith

two_runs :
    (a b c x y z : Bool)
    → c ≡ (a || b)
    → y ≡ (if a then true else x)
    → z ≡ (if b then true else y)
    → z ≡ (if c then true else x)
two_runs a b c x y z e f g = ground arith

-- `out` is `p` with the frames of a run made free, and with no other change.
abbrev Released : Phys → ℕ → ℕ → Outcome Phys → Type 0
Released p n start out =
    (p' : Phys) × (out ≡ ok p')
    × IsReady p'
    × (p'.free_pages.size ≡ p.free_pages.size)
    × ((j : ℕ) → is_free p' j ≡ (if in_run start n j then true else is_free p j))
    × (p'.frames ≡ p.frames)

free_pages-Released :
    (n start : ℕ) (p : Phys)
    → IsReady p
    → p.free_pages.size ≤ 2 ^ 20
    → start + n ≤ p.free_pages.size
    → ((j : ℕ) → in_run start n j ≡ true → is_free p j ≡ false)
    → Released p n start (free_pages n start p)
unfolding free_pages
free_pages-Released zero start p r small h used = (p, refl, r, refl, λ j. ground arith, refl)
free_pages-Released (suc n) start p r small h used =
    let (p₁, e₁, c, f₁) =
      free_page_ok p start r (omega arith) (used start (in_run_first start n)) in
    let next : (start + 1) % 2 ^ 64 ≡ start + 1 = omega arith in
    let (p₂, e₂, r₂, s₂, l₂, f₂) =
      free_pages-Released n (start + 1) p₁ c.ready (omega (arith, c.size)) (omega (arith, c.size))
        (λ j k.
          let (now, other) = in_run_later start n j k in if_other _ (c.law j) other (used j now)) in
    rw (e₁, next, e₂)
      (
        p₂,
        refl,
        r₂,
        s₂ ∙ c.size,
        λ j. two_runs _ _ _ _ _ _ (in_run-suc start n j) (c.law j) (l₂ j),
        f₂ ∙ f₁,
      )

-- No page is in two of the parts that are released.
pub record Disjoint (img : Image) : Type 0 where
  pub code_heap : (j : ℕ) → in_code img j ≡ true → in_heap img j ≡ false
  pub code_stack : (j : ℕ) → in_code img j ≡ true → in_stack j ≡ false
  pub heap_stack : (j : ℕ) → in_heap img j ≡ true → in_stack j ≡ false

or_one : (a b c : Bool) → (a ≡ true) ⊎ (b ≡ true) ⊎ (c ≡ true) → ((a || b) || c) ≡ true
or_one a b c h = ground arith

excludes :
    {a b : ℕ → Bool} → ((j : ℕ) → a j ≡ true → b j ≡ false) → (j : ℕ) → b j ≡ true → a j ≡ false
excludes {a} {b} d j k = elim (Bool-cases (a j)) [
  | inl t ↦ absurd (bool_clash k (d j t))
  | inr f ↦ f
]

-- Three runs of frames in use, apart from each other, are released one after the other.
three_Released :
    (n₁ s₁ n₂ s₂ n₃ s₃ : ℕ) (p : Phys)
    → IsReady p
    → p.free_pages.size ≤ 2 ^ 20
    → s₁ + n₁ ≤ p.free_pages.size
    → s₂ + n₂ ≤ p.free_pages.size
    → s₃ + n₃ ≤ p.free_pages.size
    → ((j : ℕ)
        → ((in_run s₁ n₁ j || in_run s₂ n₂ j) || in_run s₃ n₃ j) ≡ true
        → is_free p j ≡ false)
    → ((j : ℕ) → in_run s₁ n₁ j ≡ true → in_run s₂ n₂ j ≡ false)
    → ((j : ℕ) → in_run s₁ n₁ j ≡ true → in_run s₃ n₃ j ≡ false)
    → ((j : ℕ) → in_run s₂ n₂ j ≡ true → in_run s₃ n₃ j ≡ false)
    → (p₁ p₂ p₃ : Phys) × (free_pages n₁ s₁ p ≡ ok p₁)
      × (free_pages n₂ s₂ p₁ ≡ ok p₂)
      × (free_pages n₃ s₃ p₂ ≡ ok p₃)
      × IsReady p₃
      × ((j : ℕ)
          → is_free p₃ j
            ≡ (if (in_run s₁ n₁ j || in_run s₂ n₂ j) || in_run s₃ n₃ j then true else is_free p j))
three_Released n₁ s₁ n₂ s₂ n₃ s₃ p r small h₁ h₂ h₃ used d₁₂ d₁₃ d₂₃ =
    let (p₁, e₁, r₁, z₁, l₁, f₁) =
      free_pages-Released n₁ s₁ p r small h₁
        (λ j k. used j (or_one (in_run s₁ n₁ j) (in_run s₂ n₂ j) (in_run s₃ n₃ j) (inl k))) in
    let (p₂, e₂, r₂, z₂, l₂, f₂) =
      free_pages-Released n₂ s₂ p₁ r₁ (omega arith) (omega arith) (λ j k.
        if_other _ (l₁ j) (excludes d₁₂ j k)
          (used j (or_one (in_run s₁ n₁ j) (in_run s₂ n₂ j) (in_run s₃ n₃ j) (inr (inl k))))) in
    let (p₃, e₃, r₃, z₃, l₃, f₃) =
      free_pages-Released n₃ s₃ p₂ r₂ (omega arith) (omega arith) (λ j k.
        if_other _ (l₂ j) (excludes d₂₃ j k) (
          if_other _ (l₁ j) (excludes d₁₃ j k)
            (used j (or_one (in_run s₁ n₁ j) (in_run s₂ n₂ j) (in_run s₃ n₃ j) (inr (inr k)))))) in
    (
      p₁,
      p₂,
      p₃,
      e₁,
      e₂,
      e₃,
      r₃,
      λ j. two_runs _ _ _ _ _ _ refl (two_runs _ _ _ _ _ _ refl (l₁ j) (l₂ j)) (l₃ j),
    )

-- the boot stage reserves its pages, and the kernel releases those of the boot code, heap and stack
abbrev pub reserve_and_release : Image → Phys → Outcome Phys
reserve_and_release img p = do
  (info, used) ← alloc_boot32_pages img p.free_pages
  p₁ ← free_boot_pages info (record p { free_pages = used })
  delete_init_stack info p₁

-- what is free in the end: what was free at first or belonged to the boot stage, but for the kernel
abbrev pub Releases : Image → Phys → Outcome Phys → Type 0
Releases img p out =
    (p' : Phys) × (out ≡ ok p')
    × IsReady p'
    × ((j : ℕ)
        → is_free p' j ≡ (
            if (in_code img j || in_heap img j) || in_stack j
            then true
            else if in_kernel img j
            then false
            else is_free p j))

final_law :
    (code heap stack kernel x u z : Bool)
    → u ≡ (if (code || heap) || (stack || kernel) then false else x)
    → z ≡ (if (code || heap) || stack then true else u)
    → z ≡ (if (code || heap) || stack then true else if kernel then false else x)
final_law code heap stack kernel x u z e f = ground arith

reserved :
    (c h s k x u : Bool)
    → u ≡ (if (c || h) || (s || k) then false else x)
    → ((c || h) || s) ≡ true
    → u ≡ false
reserved c h s k x u e t = ground arith

cleared : (c x u : Bool) → u ≡ (if c then false else x) → x ≡ false → u ≡ false
cleared c x u e f = ground arith

same_pages :
    {n n' start start' : ℕ} (p : Phys) {out : Outcome Phys}
    → n ≡ n'
    → start ≡ start'
    → free_pages n' start' p ≡ out
    → free_pages n start p ≡ out
same_pages p e f run = ap (λ (v : ℕ × ℕ). free_pages v.0 v.1 p) (pair e f) ∙ run
  where
    pair : {a b c d : ℕ} → a ≡ b → c ≡ d → ◌≡◌ {A = ℕ × ℕ} (a, c) (b, d)
    pair g h = rw (g, h) refl

release_eq :
    (img : Image) (p : Phys) (b : Bitmap) (p₁ p₂ p₃ : Phys)
    → let info = boot_info_of img in
      alloc_boot32_pages img p.free_pages ≡ ok (info, b)
      → free_pages info.boot32_page_count info.boot32_start_page (record p { free_pages = b })
        ≡ ok p₁
      → free_pages info.heap_pages info.heap_start_page p₁ ≡ ok p₂
      → free_pages info.stack_pages info.stack_start_page p₂ ≡ ok p₃
      → reserve_and_release img p ≡ ok p₃
unfolding free_boot_pages delete_init_stack
release_eq img p b p₁ p₂ p₃ e e₁ e₂ e₃ = rw (e, e₁, e₂, e₃) refl

-- Where the parts of the image lie below the end of memory, which is below 2^31, and no page belongs to two of the boot
-- code, heap and stack, the boot stage's reservation on a ready allocator and the kernel's release of
-- these three all succeed; the allocator is ready afterwards, the pages of the three are free, those of
-- the kernel image that are not among them are in use, and every other page is free exactly if it was.
pub release-Releases :
    (img : Image) (p : Phys)
    → IsReady p
    → Lies img p.free_pages.size
    → Disjoint img
    → Releases img p (reserve_and_release img p)
unfolding boot_info_of
release-Releases img p r l d =
    let (b, e, vb, same, law) =
      alloc_boot32_pages-Reserves img p.free_pages.size l p.free_pages r.valid refl in
    let q : Phys = record p { free_pages = b } in
    let ready : IsReady q = record {
      valid = vb;
      padded = λ i h g.
          cleared _ _ _ (law i)
            (r.padded i (omega arith) (subst (λ k. i < byte_size k * 8) same g));
    } in
    let (p₁, p₂, p₃, e₁, e₂, e₃, r₃, l₃) =
      three_Released ((img.boot_end - img.boot_start) / 4096 + 1) (img.boot_start / 4096)
        (img.kheap_break / 4096 + 1 - img.kheap_start / 4096) (img.kheap_start / 4096) 8 4088 q
        ready (omega (arith, l.small)) (omega (arith, l.code_fits))
        (omega (arith, l.heap_fits, l.heap)) (omega (arith, l.kernel_fits))
        (λ j k.
          reserved (in_code img j) (in_heap img j) (in_stack j) (in_kernel img j) _ _ (law j) k)
        d.code_heap d.code_stack d.heap_stack in
    (
      p₃,
      release_eq img p b p₁ p₂ p₃ e
          (same_pages q (code_count img p.free_pages.size l) (code_start img p.free_pages.size l)
            e₁)
          (same_pages p₁ (heap_count img p.free_pages.size l) (heap_start img p.free_pages.size l)
            e₂)
          e₃,
      r₃,
      λ j.
          final_law (in_code img j) (in_heap img j) (in_stack j) (in_kernel img j) _ _ _ (law j)
            (l₃ j),
    )
