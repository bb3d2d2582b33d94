-- ===== src/Mm/Page/Tests.antt =====
-- The page allocator on a machine of forty-eight frames.
use ulmeros.Common.{ℕ, zero, suc, ◌<◌, refl, [], ◌∷◌, arith, ◌+◌, get_or}
use ulmeros.Util.Bitmap.{byte_size}
use ulmeros.Mm.Page.{Phys, IsReady, alloc_page, alloc_dma_region, free_page}
use ulmeros.Mm.Page.Alloc.{Allocated, alloc_page-Allocated, Freed, free_page-Freed}
use ulmeros.Mm.Page.Dma.{DmaRegion, alloc_dma_region-DmaRegion}

-- frames 0, 1 and 3 are in use
abbrev machine : Phys
machine = record {
  free_pages = record { size = 48; bitmap = 0x0b ∷ 0 ∷ 0 ∷ 0 ∷ 0 ∷ 0 ∷ [] };
  frames = λ ppn i. ppn + i;
}

bytes_small : (i : ℕ) → get_or (0x0b ∷ 0 ∷ 0 ∷ 0 ∷ 0 ∷ 0 ∷ []) i 0 < 256
bytes_small zero = omega arith
bytes_small (suc zero) = omega arith
bytes_small (suc (suc zero)) = omega arith
bytes_small (suc (suc (suc zero))) = omega arith
bytes_small (suc (suc (suc (suc zero)))) = omega arith
bytes_small (suc (suc (suc (suc (suc zero))))) = omega arith
bytes_small (suc (suc (suc (suc (suc (suc i)))))) = omega arith

machine-IsReady : IsReady machine
unfolding byte_size
machine-IsReady = record {
  valid = record { buffer = refl; bytes = bytes_small };
  padded = λ i h k. absurd (omega arith);
}

alloc_page-Allocated_example : Allocated machine (alloc_page machine)
alloc_page-Allocated_example = alloc_page-Allocated machine machine-IsReady

free_page-Freed_example : Freed machine 3 (free_page machine 3)
free_page-Freed_example = free_page-Freed machine 3 machine-IsReady

alloc_dma_region-DmaRegion_example : DmaRegion machine (alloc_dma_region machine)
alloc_dma_region-DmaRegion_example = alloc_dma_region-DmaRegion machine machine-IsReady
