-- ===== src/Mm.antt =====
-- kernel/kernel/mm: physical pages, the kernel heap, user heaps and page faults.
pub mod Page
pub mod Heap
