-- ===== src/Arch/Vspace.antt =====
-- kernel/arch/x86_64/x86_64/vspace.c: four-level page tables, in the frames of the physical page
-- allocator. A page table entry is its 64-bit word, read and written by the fields of `gpte_t`.
-- Each body runs under the lock of the address space; flushing the TLB has no effect here.
pub mod Entry
pub mod Map
pub mod Unmap
mod Tests
use ulmeros.Common.{
  ℕ, zero, suc, ◌+◌, ◌-◌, ◌*◌, ◌/◌, ◌%◌, ◌^◌, ◌<◌, ◌≡◌, Bool, true, false, Option, none, some, ltb,
  ◌==◌, if◌then◌else◌,
}
use ulmeros.Common.Outcome.{Outcome, ok, fault, ◌>>=◌, ◌>>◌}
use ulmeros.Mm.Page.{Phys, Frames, page_size, alloc_page, free_page}

-- `gpte_t`: bit 0 present, 1 write, 2 user, 12 to 51 the page number, 63 no_exec
unfoldable pub present : ℕ → Bool
present w = w % 2 == 1

unfoldable pub entry_ppn : ℕ → ℕ
entry_ppn w = w / 2 ^ 12 % 2 ^ 40

unfoldable pub with_present : ℕ → ℕ
with_present w = w / 2 * 2 + 1

unfoldable pub with_write : ℕ → ℕ → ℕ
with_write w b = w / 4 * 4 + b * 2 + w % 2

unfoldable pub with_user : ℕ → ℕ → ℕ
with_user w b = w / 8 * 8 + b * 4 + w % 4

unfoldable pub with_no_exec : ℕ → ℕ → ℕ
with_no_exec w b = b * 2 ^ 63 + w % 2 ^ 63

unfoldable pub with_ppn : ℕ → ℕ → ℕ
with_ppn w ppn = w / 2 ^ 52 * 2 ^ 52 + ppn % 2 ^ 40 * 2 ^ 12 + w % 2 ^ 12

-- A pointer to an entry: the frame of its table, and its index there. `none` is NULL.
abbrev pub Entry : Type 0
Entry = ℕ × ℕ

abbrev pub read_entry : Frames → Entry → ℕ
read_entry frames (f, i) = frames f i

unfoldable pub store : Phys → Entry → ℕ → Phys
store p (f, i) w = record p {
  frames = λ g j. if g == f then (if j == i then w else p.frames g j) else p.frames g j;
}

-- `vaddr_t`; the page numbers of the tables are the first parts of the entries.
pub record Vaddr : Type 0 where
  pub pml4e : Entry
  pub pdpte : Option Entry
  pub pdire : Option Entry
  pub ptble : Option Entry
  pub page_ppn : Option ℕ
  pub page : Option ℕ

-- one level down: the entry at an index of the table that a present entry points to
unfoldable pub level : Frames → Option Entry → ℕ → Option Entry
level frames none i = none
level frames (some e) i =
    if present (read_entry frames e) then some (entry_ppn (read_entry frames e), i) else none

unfoldable pub page_of : Frames → Option Entry → Option ℕ
page_of frames none = none
page_of frames (some e) =
    if present (read_entry frames e) then some (entry_ppn (read_entry frames e)) else none

abbrev pub ident_offset : ℕ
ident_offset = 0xffff800000000000

-- `ppn_to_virt`
unfoldable pub ppn_to_virt : ℕ → ℕ
ppn_to_virt ppn = (ppn * page_size + ident_offset) % 2 ^ 64

-- `page`, the frame that it points to; `none` where the pointer is NULL
unfoldable pub page_pointer : Option ℕ → Option ℕ
page_pointer none = none
page_pointer (some ppn) = if ppn_to_virt ppn == 0 then none else some ppn

-- `virt & 0x1ff`, and so on up the tables
abbrev pub ptbli : ℕ → ℕ
ptbli virt = virt % 512

abbrev pub pdiri : ℕ → ℕ
pdiri virt = virt / 2 ^ 9 % 512

abbrev pub pdpti : ℕ → ℕ
pdpti virt = virt / 2 ^ 18 % 512

abbrev pub pml4i : ℕ → ℕ
pml4i virt = virt / 2 ^ 27 % 512

unfoldable pub resolve_mapping : Frames → ℕ → ℕ → Vaddr
resolve_mapping frames pml4_ppn virt =
    let pml4e : Entry = (pml4_ppn, pml4i virt) in
    let pdpte = level frames (some pml4e) (pdpti virt) in
    let pdire = level frames pdpte (pdiri virt) in
    let ptble = level frames pdire (ptbli virt) in
    record {
      pml4e = pml4e;
      pdpte = pdpte;
      pdire = pdire;
      ptble = ptble;
      page_ppn = page_of frames ptble;
      page = page_pointer (page_of frames ptble);
    }

-- `if (!e->present)`: mark the entry present, writable and for users, and give it a new table.
pub add_table : Phys → Entry → Outcome Phys
add_table p e = if present (read_entry p.frames e) then ok p else do
  let marked = with_user (with_write (with_present (read_entry p.frames e)) 1) 1
  (ppn, p') ← alloc_page (store p e marked)
  ok (store p' e (with_ppn (read_entry p'.frames e) ppn))

-- the same through a pointer that may be NULL
add_table_at : Phys → Option Entry → Outcome Phys
add_table_at p none = fault
add_table_at p (some e) = add_table p e

-- `int flags`: whether each of PG_NOEXEC, PG_WRITE and PG_USER is set
pub record Flags : Type 0 where
  pub no_exec : Bool
  pub write : Bool
  pub user : Bool

abbrev pub bit_of : Bool → ℕ
bit_of true = 1
bit_of false = 0

unfoldable pub leaf_word : ℕ → ℕ → Flags → ℕ
leaf_word w phys flags =
    with_ppn
      (with_user
        (with_write (with_no_exec (with_present w) (bit_of flags.no_exec)) (bit_of flags.write))
        (bit_of flags.user))
      phys

fill_leaf : Phys → Option Entry → ℕ → Flags → Outcome Phys
fill_leaf p none phys flags = fault
fill_leaf p (some e) phys flags =
    if present (read_entry p.frames e)
    then ok p
    else ok (store p e (leaf_word (read_entry p.frames e) phys flags))

-- Resolving once more after a level that was there already gives what was resolved before.
pub vspace_map : Phys → (pml4_ppn virt phys : ℕ) → Flags → Outcome Phys
unfolding add_table_at fill_leaf
vspace_map p₀ root virt phys flags = do
  p₁ ← add_table p₀ (resolve_mapping p₀.frames root virt).pml4e
  p₂ ← add_table_at p₁ (resolve_mapping p₁.frames root virt).pdpte
  p₃ ← add_table_at p₂ (resolve_mapping p₂.frames root virt).pdire
  fill_leaf p₃ (resolve_mapping p₃.frames root virt).ptble phys flags

unmap_leaf : Phys → Option Entry → Option ℕ → Outcome (Bool × Phys)
unmap_leaf p (some e) (some ppn) = do p' ← free_page (store p e 0) ppn; ok (true, p')
unmap_leaf p (some e) none = ok (false, p)
unmap_leaf p none page = ok (false, p)

pub vspace_unmap : Phys → (pml4_ppn virt : ℕ) → Outcome (Bool × Phys)
unfolding unmap_leaf
vspace_unmap p root virt = let v = resolve_mapping p.frames root virt in unmap_leaf p v.ptble v.page

-- The loop with which the program break and the kernel heap give back pages: the number of pages left,
-- and the next one.
pub unmap_range : (pages first : ℕ) → Phys → (pml4_ppn : ℕ) → Outcome Phys
unmap_range zero first p root = ok p
unmap_range (suc pages) first p root =
    vspace_unmap p root first >>= λ (unmapped, p'). unmap_range pages (first + 1) p' root

-- 0 where the page is not mapped. The caller holds the lock, which the function asserts.
pub virt_to_ppn : Phys → (pml4_ppn virt_addr : ℕ) → ℕ
virt_to_ppn p root virt_addr =
    elim (resolve_mapping p.frames root (virt_addr / page_size)).page_ppn [
      | none ↦ 0
      | some ppn ↦ ppn
    ]

-- The upper half of the kernel's table is copied into a new one.
pub vspace_create : Phys → (kernel_pml4 : ℕ) → Outcome (ℕ × Phys)
vspace_create p kernel = do
  (pml4, p') ← alloc_page p
  ok (
    pml4,
    record p' {
      frames = λ g j.
          if g == pml4
          then (if ltb j 256 then p'.frames g j else p'.frames kernel j)
          else p'.frames g j;
    },
  )

-- The loops over the entries of a table `depth` levels above the pages; `left` entries from `i`.
free_entries : (depth left i table : ℕ) → Phys → Outcome Phys
free_entries depth zero i table p = ok p
free_entries zero (suc left) i table p = elim (present (p.frames table i)) [
  | true ↦
      (free_page p (entry_ppn (p.frames table i)) >>= λ p'. free_entries zero left (i + 1) table p')
  | false ↦ free_entries zero left (i + 1) table p
]
free_entries (suc depth) (suc left) i table p = elim (present (p.frames table i)) [
  | true ↦
      (free_entries depth 512 0 (entry_ppn (p.frames table i)) p >>= λ p'.
      (free_page p' (entry_ppn (p.frames table i)) >>= λ p''.
      free_entries (suc depth) left (i + 1) table p''))
  | false ↦ free_entries (suc depth) left (i + 1) table p
]

-- `(size_t)-1`, which marks an address space that has been deleted
abbrev pub no_table : ℕ
no_table = 2 ^ 64 - 1

-- Only the lower half of the top table belongs to the address space. The result is also the new
-- `pml4_ppn`, which a second call finds.
pub vspace_delete : Phys → (pml4_ppn : ℕ) → Outcome (ℕ × Phys)
unfolding free_entries
vspace_delete p pml4_ppn =
    if pml4_ppn == no_table
    then ok (no_table, p)
    else do p' ← free_entries 3 256 0 pml4_ppn p; p'' ← free_page p' pml4_ppn; ok (no_table, p'')
