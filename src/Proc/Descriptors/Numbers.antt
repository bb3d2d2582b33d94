-- ===== src/Proc/Descriptors/Numbers.antt =====
-- The numbers of file descriptors in kernel/kernel/sched/proc.c: each new one is its file's alone.
use ulmeros.Common.{ℕ, ◌+◌, ◌%◌, ◌^◌, ◌<◌, ◌≡◌, ◌≢◌, false, some, List, [], ◌∷◌, ◌++◌, leb, arith}
use ulmeros.Proc.Descriptors.{UserFd, Process, find_fd, proc_get_fd, proc_new_fd}

-- The numbers in use are below a bound.
abbrev pub AllBelow : ℕ → List UserFd → Type 0
AllBelow bound [] = Unit {0}
AllBelow bound (u ∷ us) = (u.user_fd < bound) × AllBelow bound us

-- The counter is above all numbers in use.
abbrev pub IsTable : Process → Type 0
IsTable p = AllBelow p.fd_counter p.fd_list

below_append :
    (bound : ℕ) (us : List UserFd) (f : ℕ)
    → AllBelow bound us
    → AllBelow (bound + 1) (us ++ record { user_fd = bound; fd_ptr = f } ∷ [])
below_append bound [] f all = (omega arith, tt)
below_append bound (u ∷ us) f (lt, all) = (omega arith, below_append bound us f all)

find_new :
    (bound : ℕ) (us : List UserFd) (f : ℕ)
    → AllBelow bound us
    → find_fd (us ++ record { user_fd = bound; fd_ptr = f } ∷ []) bound ≡ some f
unfolding find_fd
find_new bound [] f all = ground arith
find_new bound (u ∷ us) f (lt, all) = ground (arith, find_new bound us f all)

find_other :
    (new : UserFd) (us : List UserFd) (fd : ℕ)
    → fd ≢ new.user_fd
    → find_fd (us ++ new ∷ []) fd ≡ find_fd us fd
unfolding find_fd
find_other new [] fd ne = ground arith
find_other new (u ∷ us) fd ne = ground (arith, find_other new us fd ne)

-- Where the counter is above all numbers in use and below 2^31: after `proc_new_fd`, `proc_get_fd` gives
-- the new file at the number returned and what it gave before at each other number, and the counter is
-- above all numbers in use again.
pub proc_new_fd-get :
    (p : Process) (f other : ℕ)
    → IsTable p
    → p.fd_counter < 2 ^ 31
    → other ≢ (proc_new_fd p f).0
    → (proc_get_fd (proc_new_fd p f).1 (proc_new_fd p f).0 ≡ some f)
      × (proc_get_fd (proc_new_fd p f).1 other ≡ proc_get_fd p other)
      × IsTable (proc_new_fd p f).1
unfolding proc_new_fd proc_get_fd
proc_new_fd-get p f other table small ne =
    let same : p.fd_counter % 2 ^ 32 ≡ p.fd_counter = omega arith in
    let next : (p.fd_counter + 1) % 2 ^ 64 ≡ p.fd_counter + 1 = omega arith in
    (
      rw (same, plus p.fd_counter small) (find_new p.fd_counter p.fd_list f table),
      rw (find_other (record { user_fd = p.fd_counter; fd_ptr = f }) p.fd_list other (omega arith)),
      rw next (below_append p.fd_counter p.fd_list f table),
    )
  where
    plus : (n : ℕ) → n < 2 ^ 31 → leb (2 ^ 31) n ≡ false
    plus n h = ground arith
