-- ===== src/Fs/Vfs/Calls.antt =====
-- `ffind` of kernel/kernel/fs/ffind.c and `vfs_mkdir` of kernel/kernel/fs/vfs.c on whole paths.
use ulmeros.Common.{
  ℕ, suc, ◌≤◌, ◌≡◌, ◌≢◌, ◌∙◌, refl, true, false, none, some, List, [], ◌∷◌, ◌++◌, length,
  length-append, arith,
}
use ulmeros.Common.Outcome.{ok, fault}
use ulmeros.Fs.Vfs.{
  Vfs, Node, Fetch, success, give, ffind_success, ffind_recursive, ffind_root, second_is_end, ffind,
  Around, vfs_mkdir,
}
use ulmeros.Fs.Vfs.Paths.{IsName, AllNames, join, ne-slash, join-length}
use ulmeros.Fs.Vfs.Lookup.{AllFetched, reached, walk, answer, ffind_recursive-walk}

module _ (bytes_of : ℕ → List ℕ) (fetch : Fetch) (v : Vfs)
    (all : (d : ℕ) → AllFetched (v.dirs d).files) (wd : ℕ) (around : Around) where
  relative :
      (c : ℕ) (cs : List ℕ) (out : Node)
      → c ≢ b'/'
      → ffind bytes_of fetch v wd (c ∷ cs) around out false
        ≡ ffind_recursive
            (suc (suc (length cs)))
            bytes_of
            fetch
            v
            (c ∷ cs)
            around.slash_before
            wd
            out
            false
  unfolding ffind
  relative c cs out h = rw (ne-slash c h)

  from_here :
      (n : List ℕ) (ns : List (List ℕ)) (out : Node)
      → IsName n
      → AllNames ns
      → ffind bytes_of fetch v wd (join n ns) around out false
        ≡ answer v out (walk bytes_of v wd n ns)
  from_here [] ns out name names = let h = name.some_char in cc
  from_here (c ∷ cs) [] out name names =
      relative c cs out name.no_slash.0
      ∙ ffind_recursive-walk bytes_of fetch v all (suc (suc (length cs))) (c ∷ cs) []
          around.slash_before wd out name names (omega arith)
  from_here (c ∷ cs) (m ∷ ms) out name names =
      let rest = cs ++ b'/' ∷ join m ms in
      relative c rest out name.no_slash.0
      ∙ ffind_recursive-walk bytes_of fetch v all (suc (suc (length rest))) (c ∷ cs) (m ∷ ms)
          around.slash_before wd out name names
          (let fewer = join-length m ms in
            let long = length-append cs (b'/' ∷ join m ms) in omega arith)

  two_chars : (cs : List ℕ) → 2 ≤ length cs → second_is_end cs around ≡ false
  unfolding second_is_end
  two_chars [] h = absurd (omega arith)
  two_chars (c ∷ []) h = absurd (omega arith)
  two_chars (c ∷ d ∷ cs) h = refl

  from_root :
      (n : List ℕ) (ns : List (List ℕ)) (out : Node)
      → IsName n
      → AllNames ns
      → 2 ≤ length (join n ns)
      → ffind bytes_of fetch v wd (b'/' ∷ join n ns) around out false
        ≡ answer v out (walk bytes_of v v.root n ns)
  unfolding ffind ffind_root
  from_root n ns out name names long = rw (two_chars (join n ns) long) (
      ffind_recursive-walk bytes_of fetch v all (suc (length (join n ns))) n ns true v.root out name
        names (let fewer = join-length n ns in omega arith))

  -- Where all entries have their files, and for a path of names that are not empty, have no slash and
  -- fit into an entry, of two characters or more: `ffind` without FFIND_CREATE goes along the names from
  -- the working directory, and behind a slash from the root, and answers as the place that they lead to
  -- says.
  pub ffind-walk :
      (n : List ℕ) (ns : List (List ℕ)) (out : Node)
      → IsName n
      → AllNames ns
      → 2 ≤ length (join n ns)
      → (ffind bytes_of fetch v wd (join n ns) around out false
          ≡ answer v out (walk bytes_of v wd n ns))
        × (ffind bytes_of fetch v wd (b'/' ∷ join n ns) around out false
            ≡ answer v out (walk bytes_of v v.root n ns))
  ffind-walk n ns out name names long =
      (from_here n ns out name names, from_root n ns out name names long)

  -- Where all entries have their files: `vfs_mkdir` of a path of names that leads to a file reads through
  -- NULL, and does not return EEXIST.
  pub vfs_mkdir-reached :
      (n : List ℕ) (ns : List (List ℕ)) (f : ℕ)
      → IsName n
      → AllNames ns
      → walk bytes_of v wd n ns ≡ reached f
      → vfs_mkdir bytes_of fetch v wd (join n ns) around ≡ fault
  unfolding vfs_mkdir
  vfs_mkdir-reached n ns f name names there = rw (from_here n ns none name names, there)

-- A path of a slash and one character leads to the root directory, whatever the character.
pub ffind-one_char :
    (bytes_of : ℕ → List ℕ) (fetch : Fetch) (v : Vfs) (wd c : ℕ) (around : Around) (old : ℕ)
    → ffind bytes_of fetch v wd (b'/' ∷ c ∷ []) around (some (some old)) false
      ≡ ok (success, some (some (v.dirs v.root).file), v)
unfolding ffind ffind_root second_is_end give ffind_success
ffind-one_char bytes_of fetch v wd c around old = refl
