-- ===== src/Fs/Vfs/Lookup.antt =====
-- Looking up a path with kernel/kernel/fs/ffind.c, name by name, where the entries have their files.
use ulmeros.Common.{
  ℕ, zero, suc, ◌+◌, ◌≤◌, ◌<◌, ◌≡◌, ◌⊎◌, inl, inr, ◌∙◌, refl, Bool, true, false, not, ◌&&◌, Option,
  none, some, List, [], ◌∷◌, length, ltb, if◌then◌else◌, Bool-cases, Option-cases, arith,
}
use ulmeros.Common.Outcome.{Outcome, ok, fault}
use ulmeros.Fs.Vfs.{
  Vfs, Dirent, Item, entry, bare, Node, Found, Fetch, success, enoent, is_dir, ended, empty_list,
  entered, find_item, step_into, noent_at_node, noent_or_null, give, found_file, fs_fetch,
  ffind_noent, ffind_success, same_text, enotdir, ffind_recursive,
}
use ulmeros.Fs.Vfs.Paths.{IsName, AllNames, join, split_name-last, split_name-slash, join-ended}

-- Each entry of the list has its file.
abbrev pub AllFetched : List Item → Type 0
AllFetched [] = Unit {0}
AllFetched (entry e ∷ items) = ((f : ℕ) × (e.file ≡ some f)) × AllFetched items
AllFetched (bare f ∷ items) = ⊥

-- Where a path leads: to a file; to no entry of a list of entries; or to a file that is no directory, or
-- an empty directory, before its end.
pub data Walk : Type 0 where
  reached : (file : ℕ) → Walk
  missing : Walk
  blocked : Walk

unfoldable pub file_of_item : Option (ℕ × Item) → Option ℕ
file_of_item none = none
file_of_item (some (i, entry e)) = e.file
file_of_item (some (i, bare f)) = none

-- the file with a name in a directory, or in the file system that is mounted there
unfoldable pub child : (bytes_of : ℕ → List ℕ) → Vfs → (dir : ℕ) → (name : List ℕ) → Option ℕ
child bytes_of v dir name = file_of_item (find_item bytes_of (v.dirs (entered v dir)).files name 0)

unfoldable pub not_found : Vfs → (dir : ℕ) → Walk
not_found v dir = if empty_list (v.dirs (entered v dir)).files then blocked else missing

-- The walk goes on from what a name leads to, at the end of the path or before it.
abbrev pub at_end : Walk → Option ℕ → Walk
at_end nothing none = nothing
at_end nothing (some f) = reached f

abbrev pub through : Walk → Vfs → (deeper : ℕ → Walk) → Option ℕ → Walk
through nothing v deeper none = nothing
through nothing v deeper (some f) =
    if is_dir (v.files f).type then deeper (v.files f).special_dir else blocked

unfoldable pub walk : (bytes_of : ℕ → List ℕ) → Vfs → (dir : ℕ) → List ℕ → List (List ℕ) → Walk
walk bytes_of v dir n [] = at_end (not_found v dir) (child bytes_of v dir n)
walk bytes_of v dir n (m ∷ ms) =
    through (not_found v dir) v (λ d. walk bytes_of v d m ms) (child bytes_of v dir n)

-- What `ffind` answers: without a place for the file it reads through NULL, but where a name is missing.
abbrev pub answer : Vfs → Node → Walk → Outcome Found
answer v none (reached f) = fault
answer v none missing = ok (enoent, none, v)
answer v none blocked = fault
answer v (some none) (reached f) = ok (success, some none, v)
answer v (some none) missing = ok (enoent, some none, v)
answer v (some none) blocked = ok (enoent, some none, v)
answer v (some (some old)) (reached f) = ok (success, some (some f), v)
answer v (some (some old)) missing = ok (enoent, some (some old), v)
answer v (some (some old)) blocked = ok (enoent, some (some old), v)

find_item-entry :
    (bytes_of : ℕ → List ℕ) (items : List Item) (name : List ℕ) (i : ℕ)
    → AllFetched items
    → (find_item bytes_of items name i ≡ none)
      ⊎ ((k : ℕ) × (e : Dirent) × (f : ℕ) × (find_item bytes_of items name i ≡ some (k, entry e))
          × (e.file ≡ some f))
unfolding find_item
find_item-entry bytes_of [] name i all = inl refl
find_item-entry bytes_of (bare f ∷ items) name i all = elim all [ ]
find_item-entry bytes_of (entry e ∷ items) name i ((f, has), all) =
    elim (Bool-cases (same_text e.name name)) [
      | inl here ↦ rw here (inr (i, e, f, refl, has))
      | inr other ↦ rw other (find_item-entry bytes_of items name (i + 1) all)
    ]

find_item-empty :
    (bytes_of : ℕ → List ℕ) (items : List Item) (name : List ℕ)
    → empty_list items ≡ true
    → find_item bytes_of items name 0 ≡ none
unfolding find_item
find_item-empty bytes_of [] name h = refl
find_item-empty bytes_of (x ∷ items) name h = cc

give-answer : (v : Vfs) (out : Node) (f : ℕ) → give v false out f ≡ answer v out (reached f)
unfolding give ffind_success
give-answer v none f = refl
give-answer v (some none) f = refl
give-answer v (some (some old)) f = refl

missing-answer :
    (v : Vfs) (dir : ℕ) (out : Node) → noent_or_null v dir false out ≡ answer v out missing
unfolding noent_or_null ffind_noent
missing-answer v dir none = refl
missing-answer v dir (some none) = refl
missing-answer v dir (some (some old)) = refl

blocked-answer :
    (v : Vfs) (dir : ℕ) (out : Node) → noent_at_node v dir false out ≡ answer v out blocked
unfolding noent_at_node ffind_noent
blocked-answer v dir none = refl
blocked-answer v dir (some none) = refl
blocked-answer v dir (some (some old)) = refl

fits : (n : ℕ) → n ≤ 255 → ltb 255 n ≡ false
fits n h = ground arith

module _ (bytes_of : ℕ → List ℕ) (fetch : Fetch) (v : Vfs)
    (all : (d : ℕ) → AllFetched (v.dirs d).files) where
  -- What is done with the file of a name.
  abbrev go_on :
      (dir : ℕ) (rem : List ℕ) (slash : Bool) (out : Node) (deeper : Vfs → ℕ → Outcome Found)
      (f : ℕ)
      → Outcome Found
  go_on dir rem slash out deeper f =
      if ended rem
      then (if slash && not (is_dir (v.files f).type)
          then ok (enotdir, out, v)
          else give v false out f)
      else if is_dir (v.files f).type
      then deeper v (v.files f).special_dir
      else noent_at_node v dir false out

  abbrev by_child : (dir : ℕ) (out : Node) (go : ℕ → Outcome Found) → Option ℕ → Outcome Found
  by_child dir out go none = answer v out (not_found v dir)
  by_child dir out go (some f) = go f

  one_name :
      (dir : ℕ) (name rem : List ℕ) (slash : Bool) (out : Node) (deeper : Vfs → ℕ → Outcome Found)
      → (if empty_list (v.dirs (entered v dir)).files
          then noent_at_node v (entered v dir) false out
          else step_into fetch v
              (entered v dir)
              rem
              slash
              false
              out
              (find_item bytes_of (v.dirs (entered v dir)).files name 0)
              deeper)
        ≡ by_child dir out (go_on (entered v dir) rem slash out deeper) (child bytes_of v dir name)
  unfolding child not_found file_of_item step_into found_file fs_fetch
  one_name dir name rem slash out deeper =
      let d = entered v dir in
      let items = (v.dirs d).files in
      elim (Bool-cases (empty_list items)) [
        | inl nothing ↦
            rw (find_item-empty bytes_of items name nothing, nothing) (blocked-answer v d out)
        | inr some_item ↦ elim (find_item-entry bytes_of items name 0 (all d)) [
          | inl e ↦ rw (e, some_item) (missing-answer v d out)
          | inr (k, e, f, at, has) ↦ rw (at, some_item, has)
        ]
      ]

  -- The look-up along a path of names, from a directory.
  pub ffind_recursive-walk :
      (fuel : ℕ) (n : List ℕ) (ns : List (List ℕ)) (before : Bool) (dir : ℕ) (out : Node)
      → IsName n
      → AllNames ns
      → length ns < fuel
      → ffind_recursive fuel bytes_of fetch v (join n ns) before dir out false
        ≡ answer v out (walk bytes_of v dir n ns)
  unfolding ffind_recursive walk
  ffind_recursive-walk zero n ns before dir out name names enough = absurd (omega arith)
  ffind_recursive-walk (suc fuel) n [] before dir out name names enough =
      rw (split_name-last n name.no_slash, fits (length n) name.short, name.some_char)
        (one_name dir n [] false out
            (λ v' d. ffind_recursive fuel bytes_of fetch v' [] true d out false)
          ∙ elim (Option-cases (child bytes_of v dir n)) [
            | inl e ↦ rw e
            | inr (f, e) ↦ rw e (give-answer v out f)
          ])
  ffind_recursive-walk (suc fuel) n (m ∷ ms) before dir out name (next, names) enough =
      rw (split_name-slash n (join m ms) name.no_slash, fits (length n) name.short, name.some_char)
        (one_name dir n (join m ms) true out
            (λ v' d. ffind_recursive fuel bytes_of fetch v' (join m ms) true d out false)
          ∙ elim (Option-cases (child bytes_of v dir n)) [
            | inl e ↦ rw e
            | inr (f, e) ↦ elim (Bool-cases (is_dir (v.files f).type)) [
              | inl is_d ↦
                  rw (e, join-ended m ms next.some_char, is_d)
                    (ffind_recursive-walk fuel m ms true (v.files f).special_dir out next names
                      (omega arith))
              | inr no_d ↦
                  rw (e, join-ended m ms next.some_char, no_d)
                    (blocked-answer v (entered v dir) out)
            ]
          ])
