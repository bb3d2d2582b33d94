-- ===== src/Proc/Descriptors.antt =====
-- The file descriptors of a process, in kernel/kernel/sched/proc.c, and the system calls of
-- kernel/kernel/fs/fs_syscall.c that use them. Open files are numbered. `fd_list_lock` is held round the
-- loop and round the addition to the list.
pub mod Numbers
mod Tests
use ulmeros.Common.{
  ℕ, zero, suc, ◌+◌, ◌-◌, ◌*◌, ◌%◌, ◌^◌, Bool, true, false, Option, none, some, List, [], ◌∷◌, ◌++◌,
  ltb, leb, ◌==◌, if◌then◌else◌,
}
use ulmeros.Common.Outcome.{Outcome, ok, panic, fault, ◌>>=◌}
use ulmeros.Fs.Vfs.{Vfs, Fetch, Around, Status, enoent, Opened, file_of, device, refused, vfs_open}
use ulmeros.Fs.Blockdevs.{Blockdev, bd_open}

-- `user_fd_t`
pub record UserFd : Type 0 where
  pub user_fd : ℕ
  pub fd_ptr : ℕ

-- What a process keeps of its open files.
pub record Process : Type 0 where
  pub fd_counter : ℕ
  pub fd_list : List UserFd

pub find_fd : List UserFd → (fd : ℕ) → Option ℕ
find_fd [] fd = none
find_fd (u ∷ us) fd = let rest = find_fd us fd in if u.user_fd == fd then some u.fd_ptr else rest

-- `int fd` as its 32 bits
abbrev pub is_negative : ℕ → Bool
is_negative fd = leb (2 ^ 31) fd

pub proc_get_fd : Process → (fd : ℕ) → Option ℕ
unfolding find_fd
proc_get_fd p fd = if is_negative fd then none else find_fd p.fd_list fd

-- The number is returned as an `int`.
pub proc_new_fd : Process → (fd : ℕ) → ℕ × Process
proc_new_fd p fd = (
  p.fd_counter % 2 ^ 32,
  record {
    fd_counter = (p.fd_counter + 1) % 2 ^ 64;
    fd_list = p.fd_list ++ record { user_fd = p.fd_counter; fd_ptr = fd } ∷ [];
  },
)

-- What a call of `read` or `write` on an open file comes to: an error, or the operation of the file.
pub data Transfer : Type 0 where
  einval : Transfer
  ebadf : Transfer
  enotsup : Transfer
  to_stdout : (len : ℕ) → Transfer
  operate : (fd : ℕ) → Transfer

-- arch/definitions.h
abbrev pub user_break : ℕ
user_break = 0x0000800000000000

-- `SYS_BUFFER_RANGE_CHECK`
abbrev pub past_user_break : (buf size : ℕ) → Bool
past_user_break buf size = ltb user_break ((buf + size) % 2 ^ 64)

transfer : (has_op : ℕ → Bool) → Option ℕ → Transfer
transfer has_op none = ebadf
transfer has_op (some f) = if has_op f then operate f else enotsup

-- `has_op` says which open files have the operation. Without a process the assertion fails, behind the
-- check of the range.
pub sys_read : (has_op : ℕ → Bool) → Option Process → (fd buffer len : ℕ) → Outcome Transfer
unfolding transfer
sys_read has_op none fd buffer len = if past_user_break buffer len then ok einval else panic
sys_read has_op (some p) fd buffer len =
    if past_user_break buffer len then ok einval else ok (transfer has_op (proc_get_fd p fd))

pub sys_write : (has_op : ℕ → Bool) → Option Process → (fd buffer len : ℕ) → Outcome Transfer
unfolding transfer
sys_write has_op none fd buffer len = if past_user_break buffer len then ok einval else panic
sys_write has_op (some p) fd buffer len =
    if past_user_break buffer len
    then ok einval
    else if fd == 1
    then ok (to_stdout len)
    else ok (transfer has_op (proc_get_fd p fd))

-- The result of `sys_open`: a number, or the error of `vfs_open`.
pub data OpenResult : Type 0 where
  number : (fd : ℕ) → OpenResult
  failed : Status → OpenResult

abbrev add_number : ℕ × Process → OpenResult × Process
add_number (n, p) = (number n, p)

-- `new_fd` is the descriptor that `kmalloc` gives for what is opened.
finish_open : Process → (new_fd : ℕ) → List Blockdev → Opened → OpenResult × Process
finish_open p new_fd bds (refused e) = (failed e, p)
finish_open p new_fd bds (file_of f fs) = add_number (proc_new_fd p new_fd)
finish_open p new_fd bds (device major minor) = elim (bd_open bds major minor) [
  | none ↦ (failed enoent, p)
  | some b ↦ add_number (proc_new_fd p new_fd)
]

pub sys_open :
    (bytes_of : ℕ → List ℕ)
    → Fetch
    → List Blockdev
    → Vfs
    → Option Process
    → (working_dir : ℕ) → (path : List ℕ) → Around
    → (uninitialised : Option ℕ) → (new_fd : ℕ) → Outcome (OpenResult × Process × Vfs)
unfolding finish_open
sys_open bytes_of fetch bds v none wd path around uninitialised new_fd = panic
sys_open bytes_of fetch bds v (some p) wd path around uninitialised new_fd = do
  (opened, v') ← vfs_open bytes_of fetch v wd path around uninitialised
  let (result, p') = finish_open p new_fd bds opened
  ok (result, p', v')
