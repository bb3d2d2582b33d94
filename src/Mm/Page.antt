-- ===== src/Mm/Page.antt =====
-- kernel/kernel/mm/page.c: the allocator of physical page frames. A set bit of the map marks a
-- frame in use. The calls run one at a time: `free_pages_lock` is taken and released round each
-- body, and the mutex itself is modelled in Sched/Mutex.
pub mod Alloc
pub mod Count
pub mod Dma
mod Tests
use ulmeros.Common.{
  ℕ, zero, suc, ◌+◌, ◌-◌, ◌*◌, ◌≤◌, ◌<◌, ◌≡◌, Bool, false, Option, none, some, ltb, leb, ◌==◌,
  if◌then◌else◌, not,
}
use ulmeros.Common.Outcome.{Outcome, ok, panic, ◌>>=◌, ◌>>◌, assert}
use ulmeros.Util.Bitmap.{
  Bitmap, IsValid, byte_size, bitmap_get, bitmap_set, bitmap_clr, bitmap_find_free,
  bitmap_find_n_free,
}
use ulmeros.Util.Bitmap.Access.{clear_at}

-- arch/definitions.h
abbrev pub page_size : ℕ
page_size = 4096

-- The 512 eight-byte words of each frame, by frame number and index.
abbrev pub Frames : Type 0
Frames = ℕ → ℕ → ℕ

-- `free_pages`, and the memory that the frames make up
pub record Phys : Type 0 where
  pub free_pages : Bitmap
  pub frames : Frames

-- The map is well formed, and no bit of its last byte past the size is clear.
pub record IsReady (p : Phys) : Type 0 where
  pub valid : IsValid p.free_pages
  pub padded :
      (i : ℕ)
      → p.free_pages.size ≤ i
      → i < byte_size p.free_pages.size * 8
      → clear_at p.free_pages.bitmap i ≡ false

-- `memset(ppn_to_virt(ppn), 0, PAGE_SIZE)`
unfoldable pub clear_frame : Frames → ℕ → Frames
clear_frame frames ppn q i = if q == ppn then 0 else frames q i

unfoldable pub alloc_page : Phys → Outcome (ℕ × Phys)
alloc_page p = elim (bitmap_find_free p.free_pages) [
  | none ↦ panic
  | some ppn ↦ do
    used ← bitmap_set p.free_pages ppn
    ok (ppn, record { free_pages = used; frames = clear_frame p.frames ppn })
]

-- `while (dma_pages--) bitmap_set(&free_pages, page++);`
mark_used : ℕ → ℕ → Bitmap → Outcome Bitmap
mark_used zero page bmp = ok bmp
mark_used (suc left) page bmp = do used ← bitmap_set bmp page; mark_used left (page + 1) used

abbrev pub dma_pages : ℕ
dma_pages = 16

abbrev pub max_page : ℕ
max_page = 1048576 - 1

-- The result is the physical address of the region.
pub alloc_dma_region : Phys → Outcome (ℕ × Phys)
unfolding mark_used
alloc_dma_region p = elim (bitmap_find_n_free p.free_pages dma_pages) [
  | none ↦ panic
  | some ppn_start ↦ if ltb max_page (ppn_start + dma_pages) then panic else do
    used ← mark_used dma_pages ppn_start p.free_pages
    ok (ppn_start * page_size, record p { free_pages = used })
]

-- Out of bounds the assertion fails, and so it does at a frame that is not in use.
pub free_page : Phys → ℕ → Outcome Phys
free_page p page = if leb p.free_pages.size page then panic else do
  used ← bitmap_get p.free_pages page
  assert used
  cleared ← bitmap_clr p.free_pages page
  ok (record p { free_pages = cleared })
