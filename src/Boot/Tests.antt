-- ===== src/Boot/Tests.antt =====
-- The boot stage on small memory maps.
use ulmeros.Common.{ℕ, ◌+◌, ◌≡◌, refl, true, [], ◌∷◌, arith, ◌==◌, if◌then◌else◌, List}
use ulmeros.Common.Bits.{is_clear}
use ulmeros.Common.Outcome.{panic, ◌>>=◌}
use ulmeros.Util.Bitmap.{byte_size, bitmap_init}
use ulmeros.Util.Bitmap.Access.{bitmap_init-IsValid}
use ulmeros.Mm.Page.{Phys, IsReady, alloc_page}
use ulmeros.Mm.Page.Count.{free_count, count}
use ulmeros.Boot.Regions.{Mmape, Region, create_mmap, create_pagemap, boot_alloc_page}
use ulmeros.Boot.Pagemap.{MapsMemory, Laid, AllSound, memory_map-free}
use ulmeros.Boot.Opened.{AllFit}
use ulmeros.Boot.Small.{create_pagemap-panics}
use ulmeros.Boot.Paging.{paging_init}
use ulmeros.Boot.Tables.{boot_alloc-alloc}
use ulmeros.Boot.Mapped.{MapsIdentity, paging_init-MapsIdentity}
use ulmeros.Boot.Reserve.{Image}
use ulmeros.Boot.Handover.{Lies}
use ulmeros.Boot.Release.{Disjoint, Releases, reserve_and_release, release-Releases}

-- what a personal computer reports: low memory, firmware, and memory from one megabyte on
abbrev low_memory : Mmape
low_memory = record { entry_size = 20; base_addr = 0; size = 0x9fc00; kind = 1 }

abbrev firmware : Mmape
firmware = record { entry_size = 20; base_addr = 0xf0000; size = 0x10000; kind = 2 }

abbrev high_memory : Mmape
high_memory = record { entry_size = 20; base_addr = 0x100000; size = 0x7f800; kind = 1 }

abbrev buffer : ℕ → Mmape
buffer p = if p == 0x9000 then low_memory else if p == 0x9018 then firmware else high_memory

abbrev entries : List Mmape
entries = low_memory ∷ firmware ∷ high_memory ∷ []

entries-Laid : Laid buffer 0x9000 entries (0x9000 + 72)
unfolding Laid
entries-Laid = (refl, (refl, (refl, refl)))

entries-AllSound : AllSound entries
unfolding AllSound
entries-AllSound = (λ e. omega arith, (λ e. omega arith, (λ e. omega arith, tt)))

memory_map-free_example : MapsMemory entries (create_mmap buffer 0x9000 72 >>= create_pagemap)
memory_map-free_example =
    memory_map-free buffer 0x9000 72 entries entries-Laid (omega arith) entries-AllSound

abbrev tiny : Region
tiny = record { addr = 0; size = 0x400; available = true }

abbrev usual : Region
usual = record { addr = 0x10000; size = 0x8000; available = true }

usual-AllFit : AllFit 0x18000 (usual ∷ [])
unfolding AllFit
usual-AllFit = (λ e. omega arith, tt)

create_pagemap-panics_example :
    create_pagemap (record { regions = usual ∷ tiny ∷ []; phys_ram_size = 0x18000 }) ≡ panic
create_pagemap-panics_example =
    create_pagemap-panics (record { regions = usual ∷ tiny ∷ []; phys_ram_size = 0x18000 })
      (usual ∷ []) [] tiny refl (omega arith) usual-AllFit refl (omega arith)

abbrev machine : Phys
machine = record { free_pages = bitmap_init 16384 0; frames = λ ppn i. ppn + i }

machine-IsReady : IsReady machine
unfolding bitmap_init byte_size
machine-IsReady = record {
  valid = bitmap_init-IsValid 16384 0;
  padded = λ i h k. absurd (omega arith);
}

same_frame : boot_alloc_page machine ≡ alloc_page machine
unfolding bitmap_init
same_frame = boot_alloc-alloc machine machine-IsReady (omega arith)

abbrev image : Image
image = record {
  boot_start = 0x100000;
  boot_end = 0x105000;
  kheap_start = 0x2000000;
  kheap_break = 0x2010000;
  kernel_size = 0x50000;
}

image-Lies : Lies image 16384
image-Lies = record {
  code = omega arith;
  heap = omega arith;
  small = omega arith;
  code_fits = omega arith;
  heap_fits = omega arith;
  kernel_fits = omega arith;
}

image-Disjoint : Disjoint image
image-Disjoint = record {
  code_heap = λ j h. ground arith;
  code_stack = λ j h. ground arith;
  heap_stack = λ j h. ground arith;
}

release-Releases_example : Releases image machine (reserve_and_release image machine)
unfolding bitmap_init
release-Releases_example = release-Releases image machine machine-IsReady image-Lies image-Disjoint

abbrev small_machine : Phys
small_machine = record { free_pages = bitmap_init 16 0; frames = λ ppn i. ppn + i }

small_machine-IsReady : IsReady small_machine
unfolding bitmap_init byte_size
small_machine-IsReady = record {
  valid = bitmap_init-IsValid 16 0;
  padded = λ i h k. absurd (omega arith);
}

small_machine_free : free_count small_machine ≡ 16
unfolding free_count count bitmap_init byte_size is_clear
small_machine_free = refl

paging_init-MapsIdentity_example : MapsIdentity 1030 (paging_init 1030 small_machine)
unfolding bitmap_init
paging_init-MapsIdentity_example =
    paging_init-MapsIdentity 1030 small_machine small_machine-IsReady (omega arith) (omega arith)
      (omega (arith, small_machine_free))
