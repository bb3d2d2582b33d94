-- ===== src/Boot/Paging.antt =====
-- kernel/arch/x86_64/boot32/paging.c: the page tables that map memory onto itself. Pointers have 32
-- bits: the address of a frame is that of its number modulo 2^20. A pointer to a table is the number
-- of its frame. Setting the processor's registers (`enable_paging`) has no effect here.
use ulmeros.Common.{ℕ, zero, suc, ◌+◌, ◌*◌, ◌%◌, ◌^◌, ◌-◌, ltb, leb, if◌then◌else◌}
use ulmeros.Common.Outcome.{Outcome, ok, ◌>>=◌}
use ulmeros.Mm.Page.{Phys}
use ulmeros.Arch.Vspace.{store}
use ulmeros.Boot.Regions.{boot_alloc_page}

-- The cast of a pointer of 32 bits to `uint64_t` extends its sign.
unfoldable pub ptr_to_u64 : ℕ → ℕ
ptr_to_u64 ptr = if ltb ptr (2 ^ 31) then ptr else ptr + (2 ^ 64 - 2 ^ 32)

-- `(uint64_t)table | PAG_PRESENT | PAG_RDWR`
unfoldable pub table_word : ℕ → ℕ
table_word frame = ptr_to_u64 (frame * 4096) + 3

-- the local variables of `id_map`, but for `pml4`, and the memory
pub record IdMap : Type 0 where
  pub pml4i : ℕ
  pub pdpti : ℕ
  pub pdiri : ℕ
  pub ptbli : ℕ
  pub phys : ℕ
  pub pdpt : ℕ
  pub pdir : ℕ
  pub ptbl : ℕ
  pub mem : Phys

-- `t = alloc_page() << PAGE_SHIFT; table[index] = t | PAG_PRESENT | PAG_RDWR`
unfoldable pub next_table : Phys → (table index : ℕ) → Outcome (ℕ × Phys)
next_table p table index = do
  (ppn, p') ← boot_alloc_page p
  ok (ppn % 2 ^ 20, store p' (table, index) (table_word (ppn % 2 ^ 20)))

-- `phys_addr = (phys++) << PAGE_SHIFT` is computed in 32 bits.
unfoldable pub write_entry : IdMap → IdMap
write_entry s = record s {
  ptbli = s.ptbli + 1;
  phys = (s.phys + 1) % 2 ^ 32;
  mem = store s.mem (s.ptbl, s.ptbli) (s.phys * 4096 % 2 ^ 32 + 3);
}

unfoldable pub next_ptbl : IdMap → Outcome IdMap
next_ptbl s =
    if leb 512 s.ptbli
    then (do
      (t, p) ← next_table s.mem s.pdir (s.pdiri + 1)
      ok (record s { ptbli = 0; ptbl = t; pdiri = s.pdiri + 1; mem = p }))
    else ok s

unfoldable pub next_pdir : IdMap → Outcome IdMap
next_pdir s =
    if leb 511 s.pdiri
    then (do
      (t, p) ← next_table s.mem s.pdpt (s.pdpti + 1)
      ok (record s { pdiri = 0; pdir = t; pdpti = s.pdpti + 1; mem = p }))
    else ok s

unfoldable pub next_pdpt : ℕ → IdMap → Outcome IdMap
next_pdpt pml4 s =
    if leb 511 s.pdpti
    then (do
      (t, p) ← next_table s.mem pml4 (s.pml4i + 1)
      ok (record s { pdpti = 0; pdpt = t; pml4i = s.pml4i + 1; mem = p }))
    else ok s

-- the loop, `page_count` rounds
unfoldable pub id_map_pages : (pml4 page_count : ℕ) → IdMap → Outcome IdMap
id_map_pages pml4 zero s = ok s
id_map_pages pml4 (suc page_count) s =
    next_ptbl (write_entry s) >>= next_pdir >>= next_pdpt pml4 >>= id_map_pages pml4 page_count

unfoldable pub id_map : (pml4_ppn page_count : ℕ) → Phys → Outcome IdMap
id_map pml4_ppn page_count p = do
  let pml4 = pml4_ppn % 2 ^ 20
  (pdpt_ppn, p₁) ← boot_alloc_page p
  (pdir_ppn, p₂) ← boot_alloc_page p₁
  (ptbl_ppn, p₃) ← boot_alloc_page p₂
  let pdpt = pdpt_ppn % 2 ^ 20
  let pdir = pdir_ppn % 2 ^ 20
  let ptbl = ptbl_ppn % 2 ^ 20
  id_map_pages pml4 page_count (record {
    pml4i = 0;
    pdpti = 0;
    pdiri = 0;
    ptbli = 0;
    phys = 0;
    pdpt = pdpt;
    pdir = pdir;
    ptbl = ptbl;
    mem =
        store (store (store p₃ (pml4, 0) (table_word pdpt)) (pdpt, 0) (table_word pdir)) (pdir, 0)
          (table_word ptbl);
  })

-- The result is the frame of the top table; its entry 256 is a copy of entry 0.
unfoldable pub paging_init : (id_map_count : ℕ) → Phys → Outcome (ℕ × Phys)
paging_init id_map_count p = do
  (_, p₁) ← boot_alloc_page p
  (pml4_ppn, p₂) ← boot_alloc_page p₁
  s ← id_map pml4_ppn id_map_count p₂
  let pml4 = pml4_ppn % 2 ^ 20
  ok (pml4_ppn, store s.mem (pml4, 256) (s.mem.frames pml4 0))
