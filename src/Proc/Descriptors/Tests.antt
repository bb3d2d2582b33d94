-- ===== src/Proc/Descriptors/Tests.antt =====
-- A process with one open file.
use ulmeros.Common.{◌^◌, ◌≡◌, refl, true, some, [], ◌∷◌, arith}
use ulmeros.Common.Outcome.{ok}
use ulmeros.Proc.Descriptors.{
  Process, find_fd, proc_get_fd, proc_new_fd, sys_read, transfer, einval, operate,
}
use ulmeros.Proc.Descriptors.Numbers.{IsTable, proc_new_fd-get}

abbrev one_file : Process
one_file = record { fd_counter = 1; fd_list = record { user_fd = 0; fd_ptr = 70 } ∷ [] }

proc_new_fd-get_example :
    (proc_get_fd (proc_new_fd one_file 80).1 (proc_new_fd one_file 80).0 ≡ some 80)
    × (proc_get_fd (proc_new_fd one_file 80).1 0 ≡ proc_get_fd one_file 0)
    × IsTable (proc_new_fd one_file 80).1
unfolding proc_new_fd
proc_new_fd-get_example =
    proc_new_fd-get one_file 80 0 (omega arith, tt) (omega arith) (omega arith)

read_first : sys_read (λ f. true) (some one_file) 0 4096 10 ≡ ok (operate 70)
unfolding sys_read transfer proc_get_fd find_fd
read_first = refl

read_kernel_memory : sys_read (λ f. true) (some one_file) 0 (2 ^ 63) 10 ≡ ok einval
unfolding sys_read transfer proc_get_fd find_fd
read_kernel_memory = refl
