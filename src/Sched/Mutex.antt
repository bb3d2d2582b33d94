-- ===== src/Sched/Mutex.antt =====
-- kernel/kernel/sched/mutex.c: tasks that lock and unlock one mutex, as interleaved steps. Each step is
-- one access to what the tasks share. A task whose assertion fails stops the machine, and has no step.
pub mod Exclusion
pub mod Waiting
mod Tests
use ulmeros.Common.{
  ℕ, ◌+◌, ◌≡◌, Bool, true, false, Option, none, some, List, [], ◌∷◌, ◌++◌, ◌==◌, if◌then◌else◌,
}

-- where a task is: outside, or before the next access of `mutex_lock` or `mutex_unlock`
pub data Pc : Type 0 where
  idle : Pc
  locking : Pc
  contending : Pc
  dozing : Pc
  queuing : Pc
  yielding : Pc
  acquired : Pc
  critical : Pc
  releasing : Pc
  notifying : Pc
  waking : Pc

-- `mutex_t`, the lock of its `waiting_tasks_lock`, and of each task its place and whether its state
-- is TASK_SLEEPING
pub record Tasks : Type 0 where
  pub lock : Bool
  pub held_by : Option ℕ
  pub wait_lock : Bool
  pub waiting_tasks : List ℕ
  pub asleep : ℕ → Bool
  pub pc : ℕ → Pc

unfoldable pub update {ℓ} : {A : Type ℓ} → (ℕ → A) → ℕ → A → ℕ → A
update f t v u = if u == t then v else f u

-- a step of task `t`
pub data Step (t : ℕ) (s : Tasks) : Tasks → Type 0 where
  -- `mutex_lock`: the assertion that the lock is not held
  enter : s.pc t ≡ idle → s.lock ≡ false → Step t s (record s { pc = update s.pc t locking })
  -- `xchg(1, &mtx->lock)`, with the lock free, and with it taken
  take :
      s.pc t ≡ locking
      → s.lock ≡ false
      → Step t s (record s { lock = true; pc = update s.pc t acquired })
  miss : s.pc t ≡ locking → s.lock ≡ true → Step t s (record s { pc = update s.pc t contending })
  -- `spin_lock`, which ends when its exchange finds the lock free
  spin :
      s.pc t ≡ contending
      → s.wait_lock ≡ false
      → Step t s (record s { wait_lock = true; pc = update s.pc t dozing })
  doze :
      s.pc t ≡ dozing
      → Step t s (record s { asleep = update s.asleep t true; pc = update s.pc t queuing })
  queue :
      s.pc t ≡ queuing
      → Step t s
          (record s { waiting_tasks = s.waiting_tasks ++ t ∷ []; pc = update s.pc t yielding })
  -- `yield` comes back once the task is awake; then `spin_unlock`
  resume :
      s.pc t ≡ yielding
      → s.asleep t ≡ false
      → Step t s (record s { wait_lock = false; pc = update s.pc t locking })
  own : s.pc t ≡ acquired → Step t s (record s { held_by = some t; pc = update s.pc t critical })
  -- `mutex_unlock`, with its two assertions
  disown :
      s.pc t ≡ critical
      → s.lock ≡ true
      → s.held_by ≡ some t
      → Step t s (record s { held_by = none; pc = update s.pc t releasing })
  release : s.pc t ≡ releasing → Step t s (record s { lock = false; pc = update s.pc t notifying })
  notify :
      s.pc t ≡ notifying
      → s.wait_lock ≡ false
      → Step t s (record s { wait_lock = true; pc = update s.pc t waking })
  wake_none :
      s.pc t ≡ waking
      → s.waiting_tasks ≡ []
      → Step t s (record s { wait_lock = false; pc = update s.pc t idle })
  -- the first task is woken, and stays on the list
  wake :
      {w : ℕ} {ws : List ℕ}
      → s.pc t ≡ waking
      → s.waiting_tasks ≡ w ∷ ws
      → s.asleep w ≡ true
      → Step t s (record s {
        asleep = update s.asleep w false;
        wait_lock = false;
        pc = update s.pc t idle;
      })

-- `mutex_init`, with every task outside
abbrev pub initial : Tasks
initial = record {
  lock = false;
  held_by = none;
  wait_lock = false;
  waiting_tasks = [];
  asleep = λ t. false;
  pc = λ t. idle;
}

-- the states that steps of any tasks lead to
pub data Reaches (s : Tasks) : Tasks → Type 0 where
  start : Reaches s s
  next : {s' s'' : Tasks} → (t : ℕ) → Reaches s s' → Step t s' s'' → Reaches s s''
