-- ===== src/Fs/Vfs.antt =====
-- kernel/kernel/fs/ffind.c, and the calls of kernel/kernel/fs/vfs.c that look paths up: directories and
-- files are numbered objects. A path is the list of its characters. Of files, the times, owners, access
-- modes, lengths and inode numbers are left out, and so is `fs_tree_lock`, which is held round each
-- look-up. The working directory is an argument; `get_working_dir` takes the root where there is none.
pub mod Paths
pub mod Lookup
pub mod Calls
mod Tests
use ulmeros.Common.{
  ℕ, zero, suc, ◌+◌, Bool, true, false, not, ◌&&◌, ◌||◌, Option, none, some, List, [], ◌∷◌, ◌++◌,
  get_elem?, set, length, ltb, ◌==◌, if◌then◌else◌,
}
use ulmeros.Common.Outcome.{Outcome, ok, panic, fault, spinning, ◌>>=◌, ◌>>◌, assert}

-- `ftype_t`
pub data FileType : Type 0 where
  fifo : FileType
  char : FileType
  directory : FileType
  block : FileType
  regular : FileType
  symlink : FileType
  socket : FileType
  unknown : FileType

-- `file_t`; `special_dir` is `special.directory`, and the device is that of a block or character file.
pub record File : Type 0 where
  pub type : FileType
  pub parent : Option ℕ
  pub special_dir : ℕ
  pub major : ℕ
  pub minor : ℕ
  pub driver1 : ℕ
  pub driver2 : ℕ

-- `direntry_t`; `file` is NULL until the file system has fetched it.
pub record Dirent : Type 0 where
  pub name : List ℕ
  pub inode : ℕ
  pub file : Option ℕ

-- What a list of directory entries holds: an entry, or, where `ffind` has put it, a file.
pub data Item : Type 0 where
  entry : Dirent → Item
  bare : ℕ → Item

-- `dir_t`
pub record Dir : Type 0 where
  pub file : ℕ
  pub files : List Item
  pub parent : ℕ
  pub mounted : Option ℕ
  pub fstype : Option ℕ
  pub driver : ℕ

-- The numbers from `next_file` and `next_dir` on are of objects not allocated yet.
pub record Vfs : Type 0 where
  pub files : ℕ → File
  pub dirs : ℕ → Dir
  pub root : ℕ
  pub next_file : ℕ
  pub next_dir : ℕ

pub data Status : Type 0 where
  success : Status
  enoent : Status
  eexist : Status
  enotdir : Status
  enametoolong : Status
  einval : Status
  eisdir : Status
  enosys : Status

unfoldable pub set_file : Vfs → ℕ → File → Vfs
set_file v f x = record v { files = λ g. if g == f then x else v.files g }

unfoldable pub set_dir : Vfs → ℕ → Dir → Vfs
set_dir v d x = record v { dirs = λ e. if e == d then x else v.dirs e }

abbrev pub is_dir : FileType → Bool
is_dir directory = true
is_dir other = false

unfoldable pub same_text : List ℕ → List ℕ → Bool
same_text [] [] = true
same_text [] (b ∷ bs) = false
same_text (a ∷ as') [] = false
same_text (a ∷ as') (b ∷ bs) = a == b && same_text as' bs

-- `strccpy(current_name, pathname, '/')`: the name, what follows, and whether a slash stood between.
pub split_name : List ℕ → List ℕ × List ℕ × Bool
split_name [] = ([], [], false)
split_name (c ∷ cs) =
    let (name, rem, slash) = split_name cs in
    if c == b'/' then ([], cs, true) else (c ∷ name, rem, slash)

-- The first entry of a list with a name, and its place. A file that stands there is read as an entry: its
-- first bytes, `bytes_of`, are taken for a name.
pub find_item : (bytes_of : ℕ → List ℕ) → List Item → List ℕ → (place : ℕ) → Option (ℕ × Item)
find_item bytes_of [] name i = none
find_item bytes_of (entry e ∷ items) name i =
    let rest = find_item bytes_of items name (i + 1) in
    if same_text e.name name then some (i, entry e) else rest
find_item bytes_of (bare f ∷ items) name i =
    let rest = find_item bytes_of items name (i + 1) in
    if same_text (bytes_of f) name then some (i, bare f) else rest

-- `file_t** node`: the pointer may be NULL, and so may what it points to.
abbrev pub Node : Type 0
Node = Option (Option ℕ)

abbrev pub Found : Type 0
Found = Status × Node × Vfs

pub ffind_noent :
    Vfs → (parent : ℕ) → (create : Bool) → (new_file : Option ℕ) → Node → Outcome Found
ffind_noent v parent false new_file out = ok (enoent, out, v)
ffind_noent v parent true none out = fault
ffind_noent v parent true (some f) out =
    let d = v.dirs parent in
    let v₁ = set_dir v parent (record d { files = d.files ++ bare f ∷ [] }) in
    let v₂ = set_file v₁ f (record (v.files f) {
      parent = some parent;
      driver1 = (v.files d.file).driver1;
      driver2 = 0;
    }) in
    let own = (v.files f).special_dir in
    ok (
      success,
      out,
      if is_dir (v.files f).type
          then set_dir v₂ own
              (record (v₂.dirs own) { parent = parent; driver = (v₂.files f).driver1 })
          else v₂,
    )

-- `*node`, which reads through NULL where there is no pointer
pub noent_at_node : Vfs → (parent : ℕ) → (create : Bool) → Node → Outcome Found
noent_at_node v parent create none = fault
noent_at_node v parent create (some file) = ffind_noent v parent create file (some file)

-- `node ? *node : NULL`
pub noent_or_null : Vfs → (parent : ℕ) → (create : Bool) → Node → Outcome Found
noent_or_null v parent create none = ffind_noent v parent create none none
noent_or_null v parent create (some file) = ffind_noent v parent create file (some file)

pub ffind_success : (create : Bool) → Status
ffind_success create = if create then eexist else success

-- `if (*node) *node = file`
pub give : Vfs → (create : Bool) → Node → (file : ℕ) → Outcome Found
give v create none file = fault
give v create (some none) file = ok (ffind_success create, some none, v)
give v create (some (some old)) file = ok (ffind_success create, some (some file), v)

-- The driver's `fetch` gives an entry its file.
abbrev pub Fetch : Type 0
Fetch = (fstype dir : ℕ) → Dirent → Vfs → Outcome (ℕ × Vfs)

-- the file of the entry at a place of a directory
pub fs_fetch : Fetch → Vfs → (dir place : ℕ) → Dirent → Option ℕ → Option ℕ → Outcome (ℕ × Vfs)
fs_fetch fetch v dir place e (some f) fstype = ok (f, v)
fs_fetch fetch v dir place e none none = panic
fs_fetch fetch v dir place e none (some fs) = do
  (f, v₁) ← fetch fs dir e v
  let d = v₁.dirs dir
  let v₂ =
      set_dir v₁ dir (record d { files = set d.files place (entry (record e { file = some f })) })
  ok (f, set_file v₂ f (record (v₂.files f) { parent = some dir }))

-- The file of what has been found; a file that was read as an entry has no such field.
pub found_file : Fetch → Vfs → (dir place : ℕ) → Item → Outcome (ℕ × Vfs)
found_file fetch v dir place (entry e) = fs_fetch fetch v dir place e e.file (v.dirs dir).fstype
found_file fetch v dir place (bare f) = fault

abbrev pub entered : Vfs → ℕ → ℕ
entered v dir = elim (v.dirs dir).mounted [ none ↦ dir | some root ↦ root ]

abbrev pub empty_list : List Item → Bool
empty_list [] = true
empty_list (i ∷ is) = false

abbrev pub ended : List ℕ → Bool
ended [] = true
ended (c ∷ cs) = false

-- What follows once the name has been split off and looked up; `deeper` is the recursive call.
pub step_into :
    Fetch
    → Vfs
    → (dir : ℕ) → (rem : List ℕ) → (slash create : Bool) → Node
    → Option (ℕ × Item)
    → (deeper : Vfs → ℕ → Outcome Found) → Outcome Found
step_into fetch v dir rem slash create out none deeper = noent_or_null v dir create out
step_into fetch v dir rem slash create out (some (place, item)) deeper = do
  (f, v') ← found_file fetch v dir place item
  let is_directory = is_dir (v'.files f).type
  if ended rem
      then if slash && not is_directory then ok (enotdir, out, v') else give v' create out f
      else if is_directory
      then deeper v' (v'.files f).special_dir
      else noent_at_node v' dir create out

-- Each call takes at least one character of the path. `before` says whether a slash stands in memory
-- before the path, where the last test of an empty path reads.
pub ffind_recursive :
    (fuel : ℕ)
    → (bytes_of : ℕ → List ℕ) → Fetch
    → Vfs
    → (pathname : List ℕ) → (before : Bool) → (working_dir : ℕ) → Node
    → (create : Bool) → Outcome Found
ffind_recursive zero bytes_of fetch v pathname before wd out create = spinning
ffind_recursive (suc fuel) bytes_of fetch v pathname before wd out create =
    let (current, rem, ends) = split_name pathname in
    let slash = ends || (ended current && before) in
    let name = if ended current then b'.' ∷ [] else current in
    let dir = entered v wd in
    let look =
      step_into fetch v dir rem slash create out (find_item bytes_of (v.dirs dir).files name 0)
        (λ v' d. ffind_recursive fuel bytes_of fetch v' rem true d out create) in
    if ltb 255 (length current)
    then ok (enametoolong, out, v)
    else if empty_list (v.dirs dir).files
    then noent_at_node v dir create out
    else look

-- Of the bytes of memory around the path: whether the one before it is a slash, and whether the one
-- behind its end is zero.
pub record Around : Type 0 where
  pub slash_before : Bool
  pub zero_behind : Bool

-- `pathname[1] == 0`, where `pathname` is what follows the first slash
pub second_is_end : List ℕ → Around → Bool
second_is_end [] around = around.zero_behind
second_is_end (c ∷ []) around = true
second_is_end (c ∷ d ∷ cs) around = false

-- Of a path that starts with a slash.
pub ffind_root :
    (bytes_of : ℕ → List ℕ)
    → Fetch
    → Vfs
    → (rest : List ℕ) → Around
    → Node
    → (create : Bool) → Outcome Found
ffind_root bytes_of fetch v rest around out create =
    if second_is_end rest around
    then (if create then ok (eexist, out, v) else give v false out (v.dirs v.root).file)
    else ffind_recursive (suc (length rest)) bytes_of fetch v rest true v.root out create

pub ffind :
    (bytes_of : ℕ → List ℕ)
    → Fetch
    → Vfs
    → (working_dir : ℕ) → (pathname : List ℕ) → Around
    → Node
    → (create : Bool) → Outcome Found
ffind bytes_of fetch v wd [] around out create =
    ffind_recursive 1 bytes_of fetch v [] around.slash_before wd out create
ffind bytes_of fetch v wd (c ∷ cs) around out create =
    if c == b'/'
    then ffind_root bytes_of fetch v cs around out create
    else ffind_recursive (suc (suc (length cs))) bytes_of fetch v (c ∷ cs) around.slash_before wd
        out create

-- `falloc`
falloc : Vfs → FileType → (major minor special_dir : ℕ) → ℕ × Vfs
falloc v type major minor own = (
  v.next_file,
  record (set_file v v.next_file (record {
    type = type;
    parent = none;
    special_dir = own;
    major = major;
    minor = minor;
    driver1 = 0;
    driver2 = 0;
  })) { next_file = v.next_file + 1 },
)

abbrev special : FileType → Bool
special block = true
special char = true
special fifo = true
special socket = true
special other = false

-- The second call of `ffind`, for the new file.
pub create_at :
    (bytes_of : ℕ → List ℕ)
    → Fetch
    → (working_dir : ℕ) → (pathname : List ℕ) → Around
    → ℕ × Vfs
    → Outcome (Status × Vfs)
create_at bytes_of fetch wd pathname around (f, v) = do
  (status, _, v') ← ffind bytes_of fetch v wd pathname around (some (some f)) true
  ok (status, v')

-- `status` of the first call: the new file is made where there is none.
pub when_missing : Status → Vfs → (Vfs → Outcome (Status × Vfs)) → Outcome (Status × Vfs)
when_missing enoent v make = make v
when_missing success v make = ok (eexist, v)
when_missing other v make = ok (other, v)

pub vfs_mknod :
    (bytes_of : ℕ → List ℕ)
    → Fetch
    → Vfs
    → (working_dir : ℕ) → (pathname : List ℕ) → Around
    → FileType
    → (major minor : ℕ) → Outcome (Status × Vfs)
vfs_mknod bytes_of fetch v wd pathname around type major minor =
    if special type
    then (do
      (status, _, v₁) ← ffind bytes_of fetch v wd pathname around none false
      when_missing status v₁
          (λ w. create_at bytes_of fetch wd pathname around (falloc w type major minor 0)))
    else ok (einval, v)

pub new_dir : Vfs → ℕ × Vfs
new_dir v =
    let (f, v') = falloc v directory 0 0 v.next_dir in
    (
      f,
      record (set_dir v' v.next_dir (record {
        file = f;
        files = [];
        parent = 0;
        mounted = none;
        fstype = none;
        driver = 0;
      })) { next_dir = v.next_dir + 1 },
    )

pub vfs_mkdir :
    (bytes_of : ℕ → List ℕ)
    → Fetch
    → Vfs
    → (working_dir : ℕ) → (pathname : List ℕ) → Around
    → Outcome (Status × Vfs)
vfs_mkdir bytes_of fetch v wd pathname around = do
  (status, _, v₁) ← ffind bytes_of fetch v wd pathname around none false
  when_missing status v₁ (λ w. create_at bytes_of fetch wd pathname around (new_dir w))

-- What `vfs_open` hands out: a descriptor of a file with the operations of a file system, or the block
-- device that `bd_open` is called for.
pub data Opened : Type 0 where
  file_of : (file fstype : ℕ) → Opened
  device : (major minor : ℕ) → Opened
  refused : Status → Opened

open_regular : (file : ℕ) → Vfs → Option ℕ → Outcome Opened
open_regular f v none = panic
open_regular f v (some parent) = elim (v.dirs parent).fstype [
  | none ↦ fault
  | some fs ↦ ok (file_of f fs)
]

open_target : Vfs → (target : Option ℕ) → Outcome Opened
open_target v none = fault
open_target v (some f) = elim (v.files f).type [
  | regular ↦ open_regular f v (v.files f).parent
  | block ↦ ok (device (v.files f).major (v.files f).minor)
  | directory ↦ ok (refused eisdir)
  | _ ↦ ok (refused enosys)
]

after_find : Found → Outcome (Opened × Vfs)
after_find (success, some target, v) = do o ← open_target v target; ok (o, v)
after_find (success, none, v) = fault
after_find (status, out, v) = ok (refused status, v)

-- `target` is not set before the look-up, which reads it: `uninitialised` is what it holds.
pub vfs_open :
    (bytes_of : ℕ → List ℕ)
    → Fetch
    → Vfs
    → (working_dir : ℕ) → (filename : List ℕ) → Around
    → (uninitialised : Option ℕ) → Outcome (Opened × Vfs)
vfs_open bytes_of fetch v wd filename around uninitialised =
    ffind bytes_of fetch v wd filename around (some uninitialised) false >>= after_find
