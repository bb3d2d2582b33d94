-- ===== src/Fs/Vfs/Tests.antt =====
-- A root directory with the directory "etc", in which there is the file "fs".
use ulmeros.Common.{
  ℕ, ◌≡◌, refl, true, false, none, some, List, [], ◌∷◌, Bool-cases, inl, inr, ◌==◌, if◌then◌else◌,
  arith,
}
use ulmeros.Common.Outcome.{ok, fault}
use ulmeros.Fs.Vfs.{
  Vfs, Dir, File, FileType, directory, regular, Item, entry, Fetch, Around, ffind, success,
  vfs_mkdir, find_item, same_text,
}
use ulmeros.Fs.Vfs.Paths.{IsName, join}
use ulmeros.Fs.Vfs.Lookup.{AllFetched, reached, walk, child, file_of_item, not_found, answer}
use ulmeros.Fs.Vfs.Calls.{ffind-walk, vfs_mkdir-reached, ffind-one_char}

abbrev etc : List ℕ
etc = b'e' ∷ b't' ∷ b'c' ∷ []

abbrev fs : List ℕ
fs = b'f' ∷ b's' ∷ []

abbrev no_bytes : ℕ → List ℕ
no_bytes f = []

abbrev never : Fetch
never fstype dir e v = fault

abbrev file : FileType → ℕ → File
file type own = record {
  type = type;
  parent = some 0;
  special_dir = own;
  major = 0;
  minor = 0;
  driver1 = 0;
  driver2 = 0;
}

abbrev dir_of : ℕ → List Item → Dir
dir_of f items = record {
  file = f;
  files = items;
  parent = 0;
  mounted = none;
  fstype = some 0;
  driver = 0;
}

abbrev disk : Vfs
disk = record {
  files = λ f. if f == 2 then file regular 0 else file directory f;
  dirs = λ d.
      if d == 0
      then dir_of 0 (entry (record { name = etc; inode = 11; file = some 1 }) ∷ [])
      else if d == 1
      then dir_of 1 (entry (record { name = fs; inode = 12; file = some 2 }) ∷ [])
      else dir_of 0 [];
  root = 0;
  next_file = 3;
  next_dir = 2;
}

abbrev plain : Around
plain = record { slash_before = false; zero_behind = true }

all_fetched : (d : ℕ) → AllFetched (disk.dirs d).files
all_fetched d = elim (Bool-cases (d == 0)) [
  | inl root ↦ rw root ((1, refl), tt)
  | inr other ↦ elim (Bool-cases (d == 1)) [
    | inl inner ↦ rw (other, inner) ((2, refl), tt)
    | inr none_there ↦ rw (other, none_there) tt
  ]
]

etc-IsName : IsName etc
etc-IsName = record {
  no_slash = (omega arith, (omega arith, (omega arith, tt)));
  some_char = refl;
  short = omega arith;
}

fs-IsName : IsName fs
fs-IsName = record {
  no_slash = (omega arith, (omega arith, tt));
  some_char = refl;
  short = omega arith;
}

walk-fs : walk no_bytes disk 0 etc (fs ∷ []) ≡ reached 2
unfolding walk child file_of_item not_found find_item same_text
walk-fs = refl

ffind-walk_example :
    (ffind no_bytes never disk 0 (join etc (fs ∷ [])) plain (some (some 9)) false
      ≡ answer disk (some (some 9)) (walk no_bytes disk 0 etc (fs ∷ [])))
    × (ffind no_bytes never disk 0 (b'/' ∷ join etc (fs ∷ [])) plain (some (some 9)) false
        ≡ answer disk (some (some 9)) (walk no_bytes disk 0 etc (fs ∷ [])))
ffind-walk_example =
    ffind-walk no_bytes never disk all_fetched 0 plain etc (fs ∷ []) (some (some 9)) etc-IsName
      (fs-IsName, tt) (omega arith)

one_char_is_root :
    ffind no_bytes never disk 0 (b'/' ∷ b'a' ∷ []) plain (some (some 9)) false
    ≡ ok (success, some (some 0), disk)
one_char_is_root = ffind-one_char no_bytes never disk 0 b'a' plain 9

mkdir_reads_null : vfs_mkdir no_bytes never disk 0 (join etc (fs ∷ [])) plain ≡ fault
mkdir_reads_null =
    vfs_mkdir-reached no_bytes never disk all_fetched 0 plain etc (fs ∷ []) 2 etc-IsName
      (fs-IsName, tt) walk-fs
