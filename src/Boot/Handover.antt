-- ===== src/Boot/Handover.antt =====
-- What the boot stage reserves, and what is free once the kernel has released it.
use ulmeros.Common.{
  ℕ, zero, suc, ◌+◌, ◌-◌, ◌/◌, ◌%◌, ◌^◌, ◌≤◌, ◌<◌, ◌≡◌, refl, ap, ◌∙◌, Bool, false, ◌&&◌, ◌||◌,
  if◌then◌else◌, arith, ltb, leb,
}
use ulmeros.Common.Outcome.{Outcome, ok}
use ulmeros.Util.Bitmap.{Bitmap, IsValid}
use ulmeros.Util.Bitmap.Access.{clear_at, set-Marks}
use ulmeros.Boot.Paging.{ptr_to_u64}
use ulmeros.Boot.Reserve.{
  Image, BootInfo, mark_pages_used, mark_kernel_pages, boot_info_of, alloc_boot32_pages,
}

-- `j` is one of `n` pages from `page` on.
abbrev pub in_run : (page n j : ℕ) → Bool
in_run page n j = leb page j && ltb j (page + n)

-- `out` is the map with the bits of a run set, and with no other change.
abbrev MarksRun : Bitmap → ℕ → ℕ → Outcome Bitmap → Type 0
MarksRun bmp n page out =
    (bmp' : Bitmap) × (out ≡ ok bmp')
    × IsValid bmp'
    × (bmp'.size ≡ bmp.size)
    × ((j : ℕ)
        → clear_at bmp'.bitmap j ≡ (if in_run page n j then false else clear_at bmp.bitmap j))

mark_pages_used-MarksRun :
    (n page : ℕ) (bmp : Bitmap)
    → IsValid bmp
    → bmp.size < 2 ^ 32
    → page + n ≤ bmp.size
    → MarksRun bmp n page (mark_pages_used n page bmp)
unfolding mark_pages_used
mark_pages_used-MarksRun zero page bmp v small h = (bmp, refl, v, refl, λ j. ground arith)
mark_pages_used-MarksRun (suc n) page bmp v small h =
    let (b₁, e₁, v₁, s₁, l₁) = set-Marks v page (omega arith) in
    let next : (page + 1) % 2 ^ 32 ≡ page + 1 = omega arith in
    let (b₂, e₂, v₂, s₂, l₂) =
      mark_pages_used-MarksRun n (page + 1) b₁ v₁ (omega arith) (omega arith) in
    rw (e₁, next, e₂) (b₂, refl, v₂, s₂ ∙ s₁, λ j. ground (arith, l₁ j, l₂ j))

mark_kernel_pages-MarksRun :
    (n page : ℕ) (bmp : Bitmap)
    → IsValid bmp
    → page + n ≤ bmp.size
    → MarksRun bmp n page (mark_kernel_pages n page bmp)
unfolding mark_kernel_pages
mark_kernel_pages-MarksRun zero page bmp v h = (bmp, refl, v, refl, λ j. ground arith)
mark_kernel_pages-MarksRun (suc n) page bmp v h =
    let (b₁, e₁, v₁, s₁, l₁) = set-Marks v page (omega arith) in
    let (b₂, e₂, v₂, s₂, l₂) = mark_kernel_pages-MarksRun n (page + 1) b₁ v₁ (omega arith) in
    (b₂, rw (e₁, e₂) refl, v₂, s₂ ∙ s₁, λ j. ground (arith, l₁ j, l₂ j))

same_marks :
    {n n' page page' : ℕ} (bmp : Bitmap) {out : Outcome Bitmap}
    → n ≡ n'
    → page ≡ page'
    → mark_pages_used n' page' bmp ≡ out
    → mark_pages_used n page bmp ≡ out
same_marks bmp e f run = ap (λ (v : ℕ × ℕ). mark_pages_used v.0 v.1 bmp) (pair e f) ∙ run
  where
    pair : {a b c d : ℕ} → a ≡ b → c ≡ d → ◌≡◌ {A = ℕ × ℕ} (a, c) (b, d)
    pair g h = rw (g, h) refl

marked_four :
    (code stack heap kernel old b₁ b₂ b₃ b₄ : Bool)
    → b₁ ≡ (if code then false else old)
    → b₂ ≡ (if stack then false else b₁)
    → b₃ ≡ (if heap then false else b₂)
    → b₄ ≡ (if kernel then false else b₃)
    → b₄ ≡ (if (code || heap) || (stack || kernel) then false else old)
marked_four code stack heap kernel old b₁ b₂ b₃ b₄ e₁ e₂ e₃ e₄ = ground arith

-- The parts of the image are in order, and each lies below the end of memory, which is below 2^31.
pub record Lies (img : Image) (size : ℕ) : Type 0 where
  pub code : img.boot_start ≤ img.boot_end
  pub heap : img.kheap_start ≤ img.kheap_break
  pub small : size < 2 ^ 19
  pub code_fits : img.boot_start / 4096 + ((img.boot_end - img.boot_start) / 4096 + 1) ≤ size
  pub heap_fits : img.kheap_break / 4096 < size
  pub kernel_fits : 4096 + (img.kernel_size / 4096 + 1) ≤ size

-- the pages of the boot code, the boot heap, the boot stack and the kernel image
abbrev pub in_code : Image → ℕ → Bool
in_code img = in_run (img.boot_start / 4096) ((img.boot_end - img.boot_start) / 4096 + 1)

abbrev pub in_heap : Image → ℕ → Bool
in_heap img = in_run (img.kheap_start / 4096) (img.kheap_break / 4096 + 1 - img.kheap_start / 4096)

abbrev pub in_stack : ℕ → Bool
in_stack = in_run 4088 8

abbrev pub in_kernel : Image → ℕ → Bool
in_kernel img = in_run 4096 (img.kernel_size / 4096 + 1)

abbrev pub Reserves : Image → Bitmap → Outcome (BootInfo × Bitmap) → Type 0
Reserves img bmp out =
    (bmp' : Bitmap) × (out ≡ ok (boot_info_of img, bmp'))
    × IsValid bmp'
    × (bmp'.size ≡ bmp.size)
    × ((j : ℕ)
        → clear_at bmp'.bitmap j ≡ (
            if (in_code img j || in_heap img j) || (in_stack j || in_kernel img j)
            then false
            else clear_at bmp.bitmap j))

alloc_boot32_pages-eq :
    (img : Image) (b b₁ b₂ b₃ b₄ : Bitmap)
    → let info = boot_info_of img in
      mark_pages_used (info.boot32_page_count % 2 ^ 32) (info.boot32_start_page % 2 ^ 32) b ≡ ok b₁
      → mark_pages_used info.stack_pages info.stack_start_page b₁ ≡ ok b₂
      → mark_pages_used info.heap_pages info.heap_start_page b₂ ≡ ok b₃
      → mark_kernel_pages (info.kernel_size / 4096 + 1) 4096 b₃ ≡ ok b₄
      → alloc_boot32_pages img b ≡ ok (info, b₄)
unfolding alloc_boot32_pages
alloc_boot32_pages-eq img b b₁ b₂ b₃ b₄ e₁ e₂ e₃ e₄ = rw (e₁, e₂, e₃, e₄) refl

module _ (img : Image) (size : ℕ) (l : Lies img size) where
  -- No pointer of the image is extended.
  start_low : ptr_to_u64 img.boot_start ≡ img.boot_start
  unfolding ptr_to_u64
  start_low =
      (let h = l.code_fits in
        let e = l.small in let low : img.boot_start < 2 ^ 31 = omega arith in ground arith)

  end_low : ptr_to_u64 img.boot_end ≡ img.boot_end
  unfolding ptr_to_u64
  end_low =
      (let h = l.code_fits in
        let g = l.code in
        let e = l.small in let low : img.boot_end < 2 ^ 31 = omega arith in ground arith)

  heap_low : ptr_to_u64 img.kheap_start ≡ img.kheap_start
  unfolding ptr_to_u64
  heap_low =
      (let h = l.heap_fits in
        let g = l.heap in
        let e = l.small in let low : img.kheap_start < 2 ^ 31 = omega arith in ground arith)

  break_low : ptr_to_u64 img.kheap_break ≡ img.kheap_break
  unfolding ptr_to_u64
  break_low =
      (let h = l.heap_fits in
        let e = l.small in let low : img.kheap_break < 2 ^ 31 = omega arith in ground arith)

  pub code_start : (boot_info_of img).boot32_start_page ≡ img.boot_start / 4096
  unfolding boot_info_of
  code_start = rw start_low refl

  pub heap_start : (boot_info_of img).heap_start_page ≡ img.kheap_start / 4096
  unfolding boot_info_of
  heap_start = let h = l.heap_fits in rw heap_low (omega (arith, l.heap, l.small))

  pub code_count : (boot_info_of img).boot32_page_count ≡ (img.boot_end - img.boot_start) / 4096 + 1
  unfolding boot_info_of
  code_count =
      let h = l.code_fits in let g = l.code in rw (start_low, end_low) (omega (arith, l.small))

  pub heap_count :
      (boot_info_of img).heap_pages ≡ img.kheap_break / 4096 + 1 - img.kheap_start / 4096
  unfolding boot_info_of
  heap_count = rw (heap_low, break_low) (omega (arith, l.heap_fits, l.heap, l.small))

  -- Where the parts lie below the end of memory, `alloc_boot32_pages` on a well-formed bitmap
  -- succeeds, keeps it well formed and of its size, sets exactly the bits of the pages of the boot
  -- code, the boot stack, the boot heap and the kernel image, and changes no other bit.
  pub alloc_boot32_pages-Reserves :
      (bmp : Bitmap) → IsValid bmp → bmp.size ≡ size → Reserves img bmp (alloc_boot32_pages img bmp)
  unfolding boot_info_of
  alloc_boot32_pages-Reserves bmp v same =
      let info = boot_info_of img in
      let n₁ : info.boot32_page_count % 2 ^ 32 ≡ (img.boot_end - img.boot_start) / 4096 + 1 =
        omega (arith, code_count, l.code_fits, l.small) in
      let start₁ : info.boot32_start_page % 2 ^ 32 ≡ img.boot_start / 4096 =
        omega (arith, code_start, l.code_fits, l.small) in
      let (b₁, e₁, v₁, s₁, l₁) =
        mark_pages_used-MarksRun ((img.boot_end - img.boot_start) / 4096 + 1)
          (img.boot_start / 4096) bmp v (omega (arith, l.small)) (omega (arith, l.code_fits)) in
      let (b₂, e₂, v₂, s₂, l₂) =
        mark_pages_used-MarksRun 8 4088 b₁ v₁ (omega (arith, l.small))
          (omega (arith, l.kernel_fits)) in
      let (b₃, e₃, v₃, s₃, l₃) =
        mark_pages_used-MarksRun (img.kheap_break / 4096 + 1 - img.kheap_start / 4096)
          (img.kheap_start / 4096) b₂ v₂ (omega (arith, l.small))
          (omega (arith, l.heap_fits, l.heap)) in
      let (b₄, e₄, v₄, s₄, l₄) =
        mark_kernel_pages-MarksRun (img.kernel_size / 4096 + 1) 4096 b₃ v₃
          (omega (arith, l.kernel_fits)) in
      (
        b₄,
        alloc_boot32_pages-eq img bmp b₁ b₂ b₃ b₄ (same_marks bmp n₁ start₁ e₁) e₂
            (same_marks b₂ heap_count heap_start e₃) e₄,
        v₄,
        s₄ ∙ s₃ ∙ s₂ ∙ s₁,
        λ j. marked_four _ _ _ _ _ _ _ _ _ (l₁ j) (l₂ j) (l₃ j) (l₄ j),
      )
