-- ===== src/Boot/Identity.antt =====
-- The loop of `id_map`, as long as one page directory is enough.
use ulmeros.Common.{
  ℕ, zero, suc, ◌+◌, ◌-◌, ◌*◌, ◌/◌, ◌%◌, ◌^◌, ◌≤◌, ◌<◌, ◌≡◌, ◌≢◌, refl, ap, ◌∙◌, sym, subst, true,
  false, ◌==◌, if◌then◌else◌, arith, leb,
}
use native.Mathlib.Decide.{ℕ_discrete}
use ulmeros.Common.Outcome.{Outcome, ok, ◌>>=◌}
use ulmeros.Mm.Page.{Phys}
use ulmeros.Mm.Page.Count.{free_count}
use ulmeros.Arch.Vspace.{store}
use ulmeros.Boot.Paging.{
  IdMap, table_word, write_entry, next_ptbl, next_pdir, next_pdpt, next_table, id_map_pages,
}
use ulmeros.Boot.Tables.{table_word-low, Tables, put-Tables, grow-Tables, next_table-Entered}

-- the state of the loop after `k` pages
pub record Running (pml4 k : ℕ) (s : IdMap) : Type 0 where
  pub table : ℕ → ℕ
  pub role : ℕ → ℕ
  pub tables : Tables s.mem pml4 s.pdpt s.pdir table role (k / 512) k
  pub at_ptbl : s.ptbl ≡ table (k / 512)
  pub at_ptbli : s.ptbli ≡ k % 512
  pub at_pdiri : s.pdiri ≡ k / 512
  pub at_pdpti : s.pdpti ≡ 0
  pub at_phys : s.phys ≡ k

-- the frames that `n` pages from page `k` on need
abbrev pub needed : ℕ → ℕ → ℕ
needed k n = (n + k % 512) / 512

abbrev pub RunsOn : (pml4 k left : ℕ) → Outcome IdMap → Type 0
RunsOn pml4 k left out = (s : IdMap) × (out ≡ ok s) × Running pml4 k s × (left ≤ free_count s.mem)

store-free_count : (p : Phys) (f i w : ℕ) → free_count (store p (f, i) w) ≡ free_count p
unfolding free_count store
store-free_count p f i w = refl

module _ (pml4 k : ℕ) (s : IdMap) (r : Running pml4 k s) (few : k + 1 < 511 * 512) where
  abbrev written : Phys
  written = store s.mem (r.table (k / 512), k % 512) (table_word k)

  written_mem : (write_entry s).mem ≡ written
  unfolding write_entry
  written_mem =
      let small : k * 4096 % 2 ^ 32 ≡ k * 4096 = omega arith in
      rw (r.at_ptbl, r.at_ptbli, r.at_phys, small, table_word-low k (omega arith)) refl

  in_dir : (leb 511 s.pdiri ≡ false) × (leb 511 s.pdpti ≡ false)
  in_dir = ground (arith, r.at_pdiri, r.at_pdpti)

  stay :
      k % 512 ≢ 511
      → RunsOn pml4
          (k + 1)
          (free_count s.mem)
          (next_ptbl (write_entry s) >>= next_pdir >>= next_pdpt pml4)
  unfolding next_ptbl next_pdir next_pdpt write_entry
  stay in_table =
      let room : leb 512 (s.ptbli + 1) ≡ false = ground (arith, r.at_ptbli) in
      let here : (k + 1) / 512 ≡ k / 512 = omega arith in
      (
        write_entry s,
        rw (room, in_dir.0, in_dir.1) refl,
        record {
          table = r.table;
          role = r.role;
          tables =
              subst (λ p. Tables p pml4 s.pdpt s.pdir r.table r.role ((k + 1) / 512) (k + 1))
                (sym written_mem)
                (subst (λ c. Tables written pml4 s.pdpt s.pdir r.table r.role c (k + 1)) (sym here)
                  (put-Tables r.tables refl));
          at_ptbl = r.at_ptbl ∙ ap r.table (sym here);
          at_ptbli = omega (arith, r.at_ptbli);
          at_pdiri = omega (arith, r.at_pdiri);
          at_pdpti = r.at_pdpti;
          at_phys = omega (arith, r.at_phys);
        },
        omega (arith, store-free_count s.mem s.ptbl s.ptbli (s.phys * 4096 % 2 ^ 32 + 3)),
      )

  -- The page table is full: the next one is entered in the directory.
  grow :
      k % 512 ≡ 511
      → 0 < free_count s.mem
      → RunsOn pml4
          (k + 1)
          (free_count s.mem - 1)
          (next_ptbl (write_entry s) >>= next_pdir >>= next_pdpt pml4)
  unfolding next_ptbl next_pdir next_pdpt write_entry
  grow full some_free =
      let put = put-Tables r.tables refl in
      let same = store-free_count s.mem (r.table (k / 512)) (k % 512) (table_word k) in
      let (t, p', e, taken) =
        next_table-Entered written s.pdir (k / 512 + 1) put.ready put.small (omega (arith, same)) in
      let e' : next_table (write_entry s).mem s.pdir (s.pdiri + 1)
          ≡ ok (t, store p' (s.pdir, k / 512 + 1) (table_word t)) =
        ap (λ p. next_table p s.pdir (s.pdiri + 1)) written_mem
        ∙ ap (λ d. next_table written s.pdir (d + 1)) r.at_pdiri
        ∙ e in
      let here : (k + 1) / 512 ≡ k / 512 + 1 = omega arith in
      let out_of_room : leb 512 (s.ptbli + 1) ≡ true = ground (arith, r.at_ptbli) in
      let room : leb 511 (s.pdiri + 1) ≡ false = ground (arith, r.at_pdiri) in
      let s' : IdMap = record (write_entry s) {
        ptbli = 0;
        ptbl = t;
        pdiri = s.pdiri + 1;
        mem = store p' (s.pdir, k / 512 + 1) (table_word t);
      } in
      (
        s',
        rw (out_of_room, e', room, in_dir.1) refl,
        record {
          table = λ c. if c == k / 512 + 1 then t else r.table c;
          role = λ q. if q == t then 3 + (k / 512 + 1) else r.role q;
          tables =
              subst
                (λ c.
                  Tables s'.mem pml4 s.pdpt s.pdir (λ c. if c == k / 512 + 1 then t else r.table c)
                    (λ q. if q == t then 3 + (k / 512 + 1) else r.role q) c (k + 1))
                (sym here) (grow-Tables put t p' taken);
          at_ptbl = ground (arith, here);
          at_ptbli = omega arith;
          at_pdiri = omega (arith, r.at_pdiri);
          at_pdpti = r.at_pdpti;
          at_phys = omega (arith, r.at_phys);
        },
        omega (arith, same, taken.counted, store-free_count p' s.pdir (k / 512 + 1) (table_word t)),
      )

pub id_map_pages-RunsOn :
    (pml4 n k : ℕ) (s : IdMap)
    → Running pml4 k s
    → k + n < 511 * 512
    → needed k n ≤ free_count s.mem
    → RunsOn pml4 (k + n) 0 (id_map_pages pml4 n s)
unfolding id_map_pages
id_map_pages-RunsOn pml4 zero k s r few enough =
    let end : k ≡ k + 0 = omega arith in (s, refl, subst (λ j. Running pml4 j s) end r, omega arith)
id_map_pages-RunsOn pml4 (suc n) k s r few enough =
    let end : (k + 1) + n ≡ k + suc n = omega arith in
    elim (ℕ_discrete (k % 512) 511) [
      | yes full ↦
          let (s', e, r', left) = grow pml4 k s r (omega arith) full (omega arith) in
          rw e (
            subst (λ j. RunsOn pml4 j 0 (id_map_pages pml4 n s')) end
              (id_map_pages-RunsOn pml4 n (k + 1) s' r' (omega arith) (omega arith)))
      | no in_table ↦
          let (s', e, r', left) = stay pml4 k s r (omega arith) in_table in
          rw e (
            subst (λ j. RunsOn pml4 j 0 (id_map_pages pml4 n s')) end
              (id_map_pages-RunsOn pml4 n (k + 1) s' r' (omega arith) (omega arith)))
    ]
