-- ===== src/Boot/Reserve.antt =====
-- kernel/arch/x86_64/boot32/boot32mem.c: the pages that the boot stage and the kernel image take up
-- are marked as used; and the end of kernel/arch/x86_64/x86_64/main.c, where the kernel frees those
-- of the boot stage. The copy of the kernel image into its place is not modelled.
use ulmeros.Common.{ℕ, zero, suc, ◌+◌, ◌-◌, ◌/◌, ◌%◌, ◌^◌}
use ulmeros.Common.Outcome.{Outcome, ok, ◌>>=◌}
use ulmeros.Util.Bitmap.{Bitmap, bitmap_set}
use ulmeros.Boot.Paging.{ptr_to_u64}
use ulmeros.Mm.Page.{Phys, page_size, free_page}

-- the linker's symbols, the ends of the boot heap, and the size of the kernel's binary: 32 bits each
pub record Image : Type 0 where
  pub boot_start : ℕ
  pub boot_end : ℕ
  pub kheap_start : ℕ
  pub kheap_break : ℕ
  pub kernel_size : ℕ

-- the fields of `bootinfo_t` that are filled here
pub record BootInfo : Type 0 where
  pub boot32_start_page : ℕ
  pub boot32_page_count : ℕ
  pub heap_start_page : ℕ
  pub heap_pages : ℕ
  pub kernel_size : ℕ
  pub stack_start_page : ℕ
  pub stack_pages : ℕ

abbrev pub kernel_load_addr : ℕ
kernel_load_addr = 0x01000000

abbrev pub boot32_stack_loc : ℕ
boot32_stack_loc = 0x01000000

abbrev pub boot32_stack_pages : ℕ
boot32_stack_pages = 8

-- `while (count--) bitmap_set(&free_pages, start_page++);`
unfoldable pub mark_pages_used : (count start_page : ℕ) → Bitmap → Outcome Bitmap
mark_pages_used zero start_page bmp = ok bmp
mark_pages_used (suc count) start_page bmp =
    bitmap_set bmp start_page >>= mark_pages_used count ((start_page + 1) % 2 ^ 32)

-- The loop over the kernel's pages; the 64-bit page number stays small and does not wrap.
unfoldable pub mark_kernel_pages : (count page : ℕ) → Bitmap → Outcome Bitmap
mark_kernel_pages zero page bmp = ok bmp
mark_kernel_pages (suc count) page bmp = bitmap_set bmp page >>= mark_kernel_pages count (page + 1)

-- The numbers that `alloc_boot32_pages` computes; `size_t` has 32 bits here.
unfoldable pub boot_info_of : Image → BootInfo
boot_info_of img = record {
  boot32_start_page = ptr_to_u64 img.boot_start / page_size;
  boot32_page_count =
      (ptr_to_u64 img.boot_end + 2 ^ 64 - ptr_to_u64 img.boot_start) % 2 ^ 64 / page_size + 1;
  heap_start_page = ptr_to_u64 img.kheap_start / page_size % 2 ^ 32;
  heap_pages =
      ((ptr_to_u64 img.kheap_break / page_size + 1) % 2 ^ 32
        + 2 ^ 32
        - ptr_to_u64 img.kheap_start / page_size % 2 ^ 32)
      % 2 ^ 32;
  kernel_size = img.kernel_size;
  stack_start_page = boot32_stack_loc / page_size - boot32_stack_pages;
  stack_pages = boot32_stack_pages;
}

unfoldable pub alloc_boot32_pages : Image → Bitmap → Outcome (BootInfo × Bitmap)
alloc_boot32_pages img bmp = do
  let info = boot_info_of img
  b₁ ← mark_pages_used (info.boot32_page_count % 2 ^ 32) (info.boot32_start_page % 2 ^ 32) bmp
  b₂ ← mark_pages_used info.stack_pages info.stack_start_page b₁
  b₃ ← mark_pages_used info.heap_pages info.heap_start_page b₂
  b₄ ← mark_kernel_pages (info.kernel_size / page_size + 1) (kernel_load_addr / page_size) b₃
  ok (info, b₄)

-- `while (count--) free_page(start++);`, main.c
unfoldable pub free_pages : (count start : ℕ) → Phys → Outcome Phys
free_pages zero start p = ok p
free_pages (suc count) start p = free_page p start >>= free_pages count ((start + 1) % 2 ^ 64)

-- the two calls in `amd64_main`
unfoldable pub free_boot_pages : BootInfo → Phys → Outcome Phys
free_boot_pages info p = do
  p₁ ← free_pages info.boot32_page_count info.boot32_start_page p
  free_pages info.heap_pages info.heap_start_page p₁

unfoldable pub delete_init_stack : BootInfo → Phys → Outcome Phys
delete_init_stack info p = free_pages info.stack_pages info.stack_start_page p
