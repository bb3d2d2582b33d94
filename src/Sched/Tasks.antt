-- ===== src/Sched/Tasks.antt =====
-- kernel/kernel/sched/sched.c and what it needs of kernel/kernel/sched/task.c: which task runs next. The list
-- of tasks is that of its payloads, and Util/LinkedList is about the list itself. Tasks and processes are
-- numbered; `schedule` runs with interrupts disabled.
pub mod Turns
mod Tests
use ulmeros.Common.{
  ℕ, zero, suc, ◌+◌, ◌*◌, ◌/◌, Bool, true, false, not, ◌&&◌, ◌||◌, Option, none, some, List, [],
  ◌∷◌, ◌++◌, ◌==◌, if◌then◌else◌,
}
use ulmeros.Common.Outcome.{Outcome, ok, panic, fault, spinning, ◌>>=◌, ◌>>◌, assert}

-- `task_state_t`
pub data TaskState : Type 0 where
  running : TaskState
  sleeping : TaskState
  killed : TaskState

-- `task_t`
pub record Task : Type 0 where
  pub tid : ℕ
  pub state : TaskState
  pub context : ℕ
  pub vspace : ℕ
  pub kstack_ptr : ℕ
  pub irq_wait : Bool
  pub user_stack : ℕ
  pub process : Option ℕ

-- `proc_killed` says which processes are in PROC_KILLED; the last two fields are the address space and the
-- kernel stack that the processor has.
pub record Sched : Type 0 where
  pub tasks : ℕ → Task
  pub proc_killed : ℕ → Bool
  pub sched_tasks : List ℕ
  pub sched_enabled : Bool
  pub current_task : Option ℕ
  pub applied_vspace : ℕ
  pub kernel_sp : ℕ

unfoldable pub set_task : Sched → ℕ → Task → Sched
set_task s t x = record s { tasks = λ u. if u == t then x else s.tasks u }

abbrev pub is_killed : TaskState → Bool
is_killed killed = true
is_killed other = false

abbrev pub is_running : TaskState → Bool
is_running running = true
is_running other = false

-- `task->process && task->process->state == PROC_KILLED`
abbrev pub process_killed : (ℕ → Bool) → Option ℕ → Bool
process_killed proc_killed none = false
process_killed proc_killed (some p) = proc_killed p

unfoldable pub contains : ℕ → List ℕ → Bool
contains t [] = false
contains t (u ∷ us) = u == t || contains t us

unfoldable pub remove : ℕ → List ℕ → List ℕ
remove t [] = []
remove t (u ∷ us) = if u == t then us else u ∷ remove t us

-- `list_it_remove(&sched_tasks, list_find(&sched_tasks, task))`, which asserts that the task is there
pub unlist : Sched → Option ℕ → Outcome Sched
unlist s none = panic
unlist s (some t) = do
  assert (contains t s.sched_tasks)
  ok (record s { sched_tasks = remove t s.sched_tasks })

-- It is the current task that is taken off the list, not the one asked about.
pub task_schedulable : Sched → (task : ℕ) → Outcome (Bool × Sched)
task_schedulable s t = do
  let s₁ =
      if process_killed s.proc_killed (s.tasks t).process
      then set_task s t (record (s.tasks t) { state = killed })
      else s
  s₂ ← (if is_killed (s₁.tasks t).state then unlist s₁ s₁.current_task else ok s₁)
  ok (not (s₂.tasks t).irq_wait && is_running (s₂.tasks t).state, s₂)

-- `list_get` at 0 and `list_rotate`
unfoldable pub rotate : List ℕ → Option (ℕ × List ℕ)
rotate [] = none
rotate (t ∷ ts) = some (t, ts ++ t ∷ [])

-- The rounds of the loop are its fuel.
pub get_next_task : (fuel : ℕ) → Sched → Outcome (ℕ × Sched)
get_next_task zero s = spinning
get_next_task (suc fuel) s = elim (rotate s.sched_tasks) [
  | none ↦ panic
  | some (next, rotated) ↦ do
    (able, s') ← task_schedulable (record s { sched_tasks = rotated }) next
    let again = get_next_task fuel s'
    if able then ok (next, s') else again
]

-- What is done for the task that ran until now.
save_current : Sched → (context : ℕ) → Option ℕ → Outcome Sched
save_current s ctx none = ok s
save_current s ctx (some c) = do
  let s' = set_task s c (record (s.tasks c) { context = ctx })
  if is_killed (s'.tasks c).state then unlist s' (some c) else ok s'

abbrev same_task : Option ℕ → ℕ → Bool
same_task none t = false
same_task (some c) t = c == t

-- `!current_task || current_task->vspace != next_task->vspace`
switch_vspace : Sched → Option ℕ → (next : ℕ) → ℕ
switch_vspace s none next = (s.tasks next).vspace
switch_vspace s (some c) next =
    if (s.tasks c).vspace == (s.tasks next).vspace then s.applied_vspace else (s.tasks next).vspace

pub switch_to : Sched → (context next : ℕ) → Outcome (ℕ × Sched)
unfolding save_current switch_vspace
switch_to s ctx next = do
  s' ← save_current s ctx s.current_task
  ok (
    (s'.tasks next).context,
    record s' {
      applied_vspace = switch_vspace s' s'.current_task next;
      kernel_sp = (s'.tasks next).kstack_ptr;
      current_task = some next;
    },
  )

pub schedule : (fuel : ℕ) → Sched → (context : ℕ) → Outcome (ℕ × Sched)
schedule fuel s ctx =
    let switched = do
      (next, s') ← get_next_task fuel s
      if same_task s'.current_task next then ok (ctx, s') else switch_to s' ctx next
    in if s.sched_enabled then switched else ok (ctx, s)

pub sched_insert : Sched → (task : ℕ) → Sched
sched_insert s t = record s { sched_tasks = s.sched_tasks ++ t ∷ [] }

-- `task_kill`, up to its `yield`
pub task_kill : Sched → Outcome Sched
task_kill s = elim s.current_task [
  | none ↦ fault
  | some c ↦ ok (set_task s c (record (s.tasks c) { state = killed }))
]

pub irq_signal : Sched → (task : ℕ) → Sched
irq_signal s t = set_task s t (record (s.tasks t) { irq_wait = false })

-- `stack_align`
abbrev pub stack_align : ℕ → ℕ
stack_align stack_ptr = stack_ptr / 8 * 8

abbrev pub kstack_size : ℕ
kstack_size = 8192

-- `create_kernel_task` and `create_user_task`: the new task, with the address of its kernel stack and
-- its context from `context_init`. A kernel task has in `user_stack` what stood there before.
pub create_task : (tid_counter kstack_base context vspace user_stack : ℕ) → Task
create_task tid base context vspace user_stack = record {
  tid = tid;
  state = running;
  context = context;
  vspace = vspace;
  kstack_ptr = stack_align (base + kstack_size);
  irq_wait = false;
  user_stack = user_stack;
  process = none;
}
