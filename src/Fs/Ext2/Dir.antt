-- ===== src/Fs/Ext2/Dir.antt =====
-- `ext2_fetch_dir`: the entries of a directory.
use ulmeros.Common.{
  ℕ, zero, suc, ◌+◌, ◌-◌, ◌*◌, ◌^◌, ◌<◌, ◌≤◌, ◌≡◌, refl, true, false, List, [], ◌∷◌, ◌++◌, ltb,
  ◌==◌, if◌then◌else◌, ap, sym, ◌∙◌, arith, subst, Bool-cases, inl, inr, min,
}
use ulmeros.Common.Outcome.{ok, ◌>>=◌}
use ulmeros.Fs.Ext2.{
  Bytes, Device, get16, get32, Ext2fs, Inode, done, ext2_read, buffer_of, Dentry, name_at,
  list_from, ext2_fetch_dir,
}
use ulmeros.Fs.Ext2.Blocks.{Reads, Sized, OnDisk}
use ulmeros.Fs.Ext2.Read.{content, Holds, ext2_read-content}

-- a directory's record, as it is laid out: a file that was removed has inode 0
pub record Record : Type 0 where
  pub inode : ℕ
  pub size : ℕ
  pub name : List ℕ

-- The bytes of `b` from `index` up to `end` are these records, none of size 0.
abbrev pub Laid : Bytes → (index end : ℕ) → List Record → Type 0
Laid b index end [] = end ≤ index
Laid b index end (x ∷ xs) =
    (index < end)
    × (get32 b index ≡ x.inode)
    × (get16 b (index + 4) ≡ x.size)
    × (0 < x.size)
    × (name_at b (index + 8) (b (index + 6)) ≡ x.name)
    × Laid b (index + x.size) end xs

-- the names and inodes of the files that are there
abbrev pub entries : List Record → List Dentry
entries [] = []
entries (x ∷ xs) =
    if x.inode == 0 then entries xs else record { name = x.name; inode = x.inode } ∷ entries xs

append_nil : (files : List Dentry) → files ++ [] ≡ files
append_nil [] = refl
append_nil (x ∷ files) = ap (λ k. x ∷ k) (append_nil files)

append_one :
    (files : List Dentry) (x : Dentry) (rest : List Dentry)
    → (files ++ x ∷ []) ++ rest ≡ files ++ x ∷ rest
append_one [] x rest = refl
append_one (y ∷ files) x rest = ap (λ k. y ∷ k) (append_one files x rest)

-- The loop goes over the records one by one, and its fuel is enough.
list_from-entries :
    (b : Bytes) (fuel length index : ℕ) (files : List Dentry) (xs : List Record)
    → Laid b index length xs
    → length ≤ index + fuel
    → list_from b fuel length index files ≡ ok (files ++ entries xs)
unfolding list_from
list_from-entries b zero length index files [] end enough =
    let t : ltb index length ≡ false = ground arith in rw t (ap ok (sym (append_nil files)))
list_from-entries b zero length index files (x ∷ xs) (more, inode, size, positive, name, laid)
      enough =
    absurd (omega arith)
list_from-entries b (suc fuel) length index files [] end enough =
    let t : ltb index length ≡ false = ground arith in
    rw (list_from, t) (ap ok (sym (append_nil files)))
list_from-entries b (suc fuel) length index files (x ∷ xs) (more, inode, size, positive, name, laid)
      enough =
    let t : ltb index length ≡ true = ground arith in
    let next = λ (fs : List Dentry).
      list_from-entries b fuel length (index + x.size) fs xs laid (omega arith) in
    elim (Bool-cases (x.inode == 0)) [
      | inl removed ↦ rw (list_from, t, inode, size, removed) (next files)
      | inr there ↦
          rw (list_from, t, inode, size, name, there)
            (next (files ++ record { name = x.name; inode = x.inode } ∷ [])
              ∙ ap ok (append_one files _ (entries xs)))
    ]

module _ (d : Device) (disk : Bytes) (capacity : ℕ) (r : Reads d disk capacity) (fs : Ext2fs)
    (k : ℕ) (s : Sized fs k) (inode : Inode) (length count : ℕ)
    (on : OnDisk disk capacity fs.block_size inode count) (fits : length ≤ count * fs.block_size)
    (small : length < 2 ^ 63) where
  same_read :
      (buffer : Bytes)
      → (b : Bytes) × (ext2_read d fs inode length buffer length 0 ≡ ok (done length b))
        × Holds disk fs.block_size inode 0 0 length buffer b
  same_read buffer =
      let (b, e, h) =
        ext2_read-content d disk capacity r fs k s inode length count on fits small buffer length 0
          (omega arith) small in
      let same : min length (length - 0) ≡ length = omega arith in
      (
        b,
        e ∙ ap (λ n. ok (done n b)) same,
        subst (λ n. Holds disk fs.block_size inode 0 0 n buffer b) same h,
      )

  -- `ext2_fetch_dir` of a directory on the disk ends. Where what it has read is a sequence of records
  -- of positive size, the entries are those of the records with an inode, in their order, and what
  -- it has read is what the directory's blocks hold.
  pub ext2_fetch_dir-entries :
      (buffer : Bytes)
      → (b : Bytes) × ((i : ℕ) → i < length → b i ≡ content disk fs.block_size inode i)
        × ((xs : List Record)
            → Laid b 0 length xs
            → ext2_fetch_dir d fs inode length buffer ≡ ok (entries xs))
  unfolding ext2_fetch_dir
  ext2_fetch_dir-entries buffer =
      let (b, e, h) = same_read buffer in
      (
        b,
        λ i below.
            h.filled i (omega arith) below ∙ ap (content disk fs.block_size inode) (omega arith),
        λ xs laid.
            ap (λ o. o >>= λ q. list_from (buffer_of q) length length 0 []) e
            ∙ list_from-entries b length length 0 [] xs laid (omega arith),
      )
