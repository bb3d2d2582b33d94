-- ===== src/Sched/Cleanup/Tests.antt =====
-- Runs of the clean-up at concrete lists of tasks.
use ulmeros.Common.{ℕ, ◌+◌, refl, false, some, [], ◌∷◌, ◌==◌, if◌then◌else◌, arith}
use ulmeros.Common.Outcome.{ok}
use ulmeros.Sched.Tasks.{Task, running, killed, contains}
use ulmeros.Sched.Cleanup.{Calls, Cleanup, cleanup_pass}
use ulmeros.Sched.Cleanup.Pass.{Succeeds, AreOwned, Passed, cleanup_pass-Passed}

-- counts the calls
abbrev calls : Calls ℕ
calls = record { delete_stack = λ p u s. ok (s + 1); proc_delete = λ p s. ok (s + 100) }

abbrev task : ℕ → Task
task t = record {
  tid = t;
  state = if t == 2 then running else killed;
  context = 0;
  vspace = 0;
  kstack_ptr = 0;
  irq_wait = false;
  user_stack = 0;
  process = some 7;
}

abbrev start : Cleanup ℕ
start = record { task_count = 2; task_list = λ p. 1 ∷ 2 ∷ []; freed = []; rest = 0 }

calls-Succeeds : Succeeds calls task
calls-Succeeds = record { stack = λ p u s. (s + 1, refl); process = λ p s. (s + 100, refl) }

start-AreOwned : AreOwned calls task (λ p. 1 ∷ 2 ∷ []) (1 ∷ 2 ∷ [])
unfolding AreOwned contains
start-AreOwned = ((λ dead p e. refl), refl, ((λ dead p e. refl), refl, tt))

first_is_freed : Passed calls task (1 ∷ 2 ∷ []) start (cleanup_pass calls task (1 ∷ 2 ∷ []) start)
first_is_freed =
    cleanup_pass-Passed calls task calls-Succeeds (1 ∷ 2 ∷ []) start start-AreOwned (omega arith)
      (omega arith)
