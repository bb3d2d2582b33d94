-- ===== src/Sched/Cleanup.antt =====
-- kernel/kernel/sched/tasklist.c: the task that deletes the tasks that were killed, and a process with its last
-- task. What `delete_stack` and `proc_delete` do to the process is an argument, on a state of theirs; the
-- locks are held round each body.
pub mod Pass
mod Tests
use ulmeros.Common.{
  ℕ, zero, suc, ◌+◌, ◌-◌, ◌%◌, ◌^◌, Bool, true, false, Option, none, some, List, [], ◌∷◌, ◌++◌,
  ◌==◌, if◌then◌else◌,
}
use ulmeros.Common.Outcome.{Outcome, ok, ◌>>=◌, ◌>>◌, assert}
use ulmeros.Sched.Tasks.{Task, is_killed, contains, remove}

pub record Calls {ℓ} (S : Type ℓ) : Type ℓ where
  pub delete_stack : (process user_stack : ℕ) → S → Outcome S
  pub proc_delete : (process : ℕ) → S → Outcome S

-- `task_count`, the list of tasks of each process, the tasks freed so far, and the rest
pub record Cleanup {ℓ} (S : Type ℓ) : Type ℓ where
  pub task_count : ℕ
  pub task_list : ℕ → List ℕ
  pub freed : List ℕ
  pub rest : S

abbrev pub is_empty : List ℕ → Bool
is_empty [] = true
is_empty (t ∷ ts) = false

unfoldable pub set_list : (ℕ → List ℕ) → ℕ → List ℕ → ℕ → List ℕ
set_list lists p l q = if q == p then l else lists q

module _ {ℓ} {S : Type ℓ} (k : Calls S) (tasks : ℕ → Task) where
  -- the part for a task that has a process
  unfoldable pub leave_process : (task : ℕ) → (process : Option ℕ) → Cleanup S → Outcome (Cleanup S)
  leave_process t none c = ok c
  leave_process t (some p) c = do
    s ← k.delete_stack p (tasks t).user_stack c.rest
    assert (contains t (c.task_list p))
    let left = remove t (c.task_list p)
    s' ← (if is_empty left then k.proc_delete p s else ok s)
    ok (record c { task_list = set_list c.task_list p left; rest = s' })

  unfoldable pub task_delete : (task : ℕ) → Cleanup S → Outcome (Cleanup S)
  task_delete t c = do
    assert (is_killed (tasks t).state)
    c' ← leave_process t (tasks t).process c
    ok (record c' { freed = c'.freed ++ t ∷ [] })

  -- one pass over `task_list`, with the tasks that stay on it
  unfoldable pub cleanup_pass : List ℕ → Cleanup S → Outcome (List ℕ × Cleanup S)
  cleanup_pass [] c = ok ([], c)
  cleanup_pass (t ∷ ts) c =
      if is_killed (tasks t).state
      then (do
        c' ← task_delete t c
        cleanup_pass ts (record c' { task_count = (c'.task_count + 2 ^ 64 - 1) % 2 ^ 64 }))
      else (do (stay, c') ← cleanup_pass ts c; ok (t ∷ stay, c'))

-- `tl_insert`
unfoldable pub tl_insert {ℓ} : {S : Type ℓ} → List ℕ → ℕ → Cleanup S → List ℕ × Cleanup S
tl_insert ts t c = (ts ++ t ∷ [], record c { task_count = (c.task_count + 1) % 2 ^ 64 })
