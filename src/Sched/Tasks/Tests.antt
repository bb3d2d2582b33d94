-- ===== src/Sched/Tasks/Tests.antt =====
-- Three tasks: one that waits for an interrupt, and two that can run.
use ulmeros.Common.{
  ℕ, ◌≤◌, ◌≡◌, inl, inr, refl, Bool, true, false, Option, none, some, [], ◌∷◌, ◌==◌, if◌then◌else◌,
  arith,
}
use ulmeros.Common.Outcome.{ok, panic}
use ulmeros.Sched.Tasks.{
  Sched, Task, TaskState, running, killed, get_next_task, task_schedulable, rotate, unlist,
  contains, set_task,
}
use ulmeros.Sched.Tasks.Turns.{nth_choice, get_next_task-turn}

abbrev task : Bool → TaskState → Task
task waits state = record {
  tid = 1;
  state = state;
  context = 0;
  vspace = 0;
  kstack_ptr = 0;
  irq_wait = waits;
  user_stack = 0;
  process = none;
}

abbrev with_first : Task → Option ℕ → Sched
with_first first current = record {
  tasks = λ t. if t == 0 then first else task false running;
  proc_killed = λ p. false;
  sched_tasks = 0 ∷ 1 ∷ 2 ∷ [];
  sched_enabled = true;
  current_task = current;
  applied_vspace = 0;
  kernel_sp = 0;
}

abbrev three : Sched
three = with_first (task true running) none

get_next_task-turn_example : (n : ℕ) × (s' : Sched) × (n ≤ 2) × (nth_choice n 3 three ≡ ok (2, s'))
get_next_task-turn_example =
    get_next_task-turn 3 three (0 ∷ 1 ∷ []) [] 2 refl
      (
        inl (record { process_lives = refl; lives = refl; waits = refl }),
        (inr (record { process_lives = refl; lives = refl; runs = refl }), tt),
      )
      (record { process_lives = refl; lives = refl; runs = refl }) (omega arith)

-- A task that has been killed, while the current task is not on the list.
killed_task_panics : get_next_task 3 (with_first (task false killed) (some 7)) ≡ panic
unfolding get_next_task task_schedulable rotate unlist contains set_task
killed_task_panics = refl
