-- ===== src/Fs/Blockdevs.antt =====
-- kernel/kernel/fs/blockdev.c and `bd_open` of kernel/kernel/fs/blkdev_ops.c: the registry of block devices. The
-- lists are those of their payloads; their locks are held round each body.
mod Tests
use ulmeros.Common.{
  ℕ, suc, ◌+◌, ◌%◌, ◌^◌, ◌≡◌, refl, Bool, true, false, ◌&&◌, Option, none, some, List, [], ◌∷◌,
  ◌++◌, ◌==◌, if◌then◌else◌,
}
use ulmeros.Common.Outcome.{Outcome, ok, ◌>>=◌}
use ulmeros.Fs.Vfs.{Vfs, Fetch, Around, block, same_text, vfs_mknod}

-- `bd_t`; `major` is that of its driver.
pub record Blockdev : Type 0 where
  pub major : ℕ
  pub minor : ℕ
  pub capacity : ℕ
  pub name : List ℕ

pub record Registry : Type 0 where
  pub major_counter : ℕ
  pub driver_list : List ℕ
  pub bd_list : List Blockdev

-- A driver is known by the major number that it is given.
pub bd_register_driver : Registry → ℕ × Registry
bd_register_driver r = (
  r.major_counter,
  record r {
    major_counter = (r.major_counter + 1) % 2 ^ 64;
    driver_list = r.driver_list ++ r.major_counter ∷ [];
  },
)

-- the device that the descriptor of `bd_open` is for; `none` is ENOENT
pub bd_open : List Blockdev → (major minor : ℕ) → Option Blockdev
bd_open [] major minor = none
bd_open (b ∷ bs) major minor =
    let rest = bd_open bs major minor in
    if b.minor == minor && b.major == major then some b else rest

pub bd_get_by_name : List Blockdev → (name : List ℕ) → Option (ℕ × ℕ)
bd_get_by_name [] name = none
bd_get_by_name (b ∷ bs) name =
    let rest = bd_get_by_name bs name in
    if same_text name b.name then some (b.major, b.minor) else rest

-- "/dev/"
abbrev pub dev_path : List ℕ
dev_path = b'/' ∷ b'd' ∷ b'e' ∷ b'v' ∷ b'/' ∷ []

-- An error is only reported. Without a process the working directory is the root.
pub try_mknod_blkdevice : (bytes_of : ℕ → List ℕ) → Fetch → Around → Vfs → Blockdev → Outcome Vfs
try_mknod_blkdevice bytes_of fetch around v b = do
  (status, v') ← vfs_mknod bytes_of fetch v v.root (dev_path ++ b.name) around block b.major b.minor
  ok v'

pub blockdev_mknodes : (bytes_of : ℕ → List ℕ) → Fetch → Around → Vfs → List Blockdev → Outcome Vfs
blockdev_mknodes bytes_of fetch around v [] = ok v
blockdev_mknodes bytes_of fetch around v (b ∷ bs) =
    try_mknod_blkdevice bytes_of fetch around v b >>= λ v'.
    blockdev_mknodes bytes_of fetch around v' bs
