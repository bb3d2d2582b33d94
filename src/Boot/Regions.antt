-- ===== src/Boot/Regions.antt =====
-- kernel/arch/x86_64/boot32/mmap.c: the regions that the boot loader reports, and the bitmap made
-- of them. `size_t` and pointers have 32 bits here, and wrap. `regions` is a list in the order of
-- `list_add`; a region's `kmalloc` is taken to succeed.
use ulmeros.Common.{
  ℕ, zero, suc, ◌+◌, ◌-◌, ◌/◌, ◌%◌, ◌^◌, Bool, not, ◌&&◌, Option, none, some, List, [], ◌∷◌, ◌++◌,
  ltb, leb, ◌==◌, if◌then◌else◌,
}
use ulmeros.Common.Outcome.{Outcome, ok, spinning, ◌>>=◌}
use ulmeros.Util.Bitmap.{Bitmap, bitmap_init, bitmap_set, bitmap_clr, bitmap_find_free}
use ulmeros.Mm.Page.{Phys, page_size, clear_frame}

-- `multiboot_mmape_t`
pub record Mmape : Type 0 where
  pub entry_size : ℕ
  pub base_addr : ℕ
  pub size : ℕ
  pub kind : ℕ

-- `region_t`
pub record Region : Type 0 where
  pub addr : ℕ
  pub size : ℕ
  pub available : Bool

-- the static variables `regions` and `phys_ram_size`
pub record Mmap : Type 0 where
  pub regions : List Region
  pub phys_ram_size : ℕ

-- The body of the loop: what one entry adds.
unfoldable pub add_region : Mmape → Mmap → Mmap
add_region e m =
    let end_addr = (e.base_addr + e.size) % 2 ^ 64 in
    record {
      regions =
          m.regions ++ record { addr = e.base_addr; size = e.size; available = e.kind == 1 } ∷ [];
      phys_ram_size =
          if (e.kind == 1) && ltb m.phys_ram_size end_addr then end_addr else m.phys_ram_size;
    }

-- The loop, where `memory` is the entry that stands at an address.
unfoldable pub scan_entries : (memory : ℕ → Mmape) → (fuel end entry : ℕ) → Mmap → Outcome Mmap
scan_entries memory zero end entry m = spinning
scan_entries memory (suc fuel) end entry m =
    let e = memory entry in
    let rest =
      scan_entries memory fuel end ((entry + (e.entry_size + 4)) % 2 ^ 32) (add_region e m) in
    if ltb entry end then rest else ok m

-- An entry that does not wrap takes four bytes at least, so `length` rounds reach the end.
unfoldable pub create_mmap : (memory : ℕ → Mmape) → (mmap length : ℕ) → Outcome Mmap
create_mmap memory mmap length =
    scan_entries memory (length + 1) ((mmap + length) % 2 ^ 32) mmap
      (record { regions = []; phys_ram_size = 0 })

-- `start_page` and `end_page`
unfoldable pub start_page : Region → ℕ
start_page r =
    let page = r.addr / page_size % 2 ^ 32 in
    if r.addr % page_size == 0 then page else (page + 1) % 2 ^ 32

unfoldable pub end_page : Region → ℕ
end_page r = ((r.addr + r.size) % 2 ^ 64 / page_size + 2 ^ 64 - 1) % 2 ^ 32

-- `for (page = start_page; page <= end_page; page++)`
unfoldable pub clear_pages : (fuel end page : ℕ) → Bitmap → Outcome Bitmap
clear_pages zero end page bmp = spinning
clear_pages (suc fuel) end page bmp =
    let rest = bitmap_clr bmp page >>= clear_pages fuel end ((page + 1) % 2 ^ 32) in
    if leb page end then rest else ok bmp

-- A page at or past the size stops the machine, so a round more than there are pages is enough.
unfoldable pub clear_regions : List Region → Bitmap → Outcome Bitmap
clear_regions [] bmp = ok bmp
clear_regions (r ∷ rs) bmp =
    if not r.available
    then clear_regions rs bmp
    else (clear_pages (bmp.size + 1) (end_page r) (start_page r) bmp >>= clear_regions rs)

unfoldable pub total_pages : Mmap → ℕ
total_pages m = m.phys_ram_size / page_size % 2 ^ 32

unfoldable pub create_pagemap : Mmap → Outcome Bitmap
create_pagemap m = clear_regions m.regions (bitmap_init (total_pages m) 0xff)

-- `(size_t)-1` where no frame is free
unfoldable pub frame_number : Option ℕ → ℕ
frame_number none = 2 ^ 32 - 1
frame_number (some ppn) = ppn

-- The address `ppn << PAGE_SHIFT` wraps at four gigabytes.
unfoldable pub boot_alloc_page : Phys → Outcome (ℕ × Phys)
boot_alloc_page p =
    let ppn = frame_number (bitmap_find_free p.free_pages) in
    do
      used ← bitmap_set p.free_pages ppn
      ok (ppn, record { free_pages = used; frames = clear_frame p.frames (ppn % 2 ^ 20) })
