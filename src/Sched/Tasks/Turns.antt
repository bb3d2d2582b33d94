-- ===== src/Sched/Tasks/Turns.antt =====
-- The round robin of kernel/kernel/sched/sched.c: whose turn it is.
use ulmeros.Common.{
  ℕ, zero, suc, ◌+◌, ◌≤◌, ◌<◌, ◌≡◌, ◌⊎◌, inl, inr, ◌∙◌, refl, sym, ap, subst, true, false, not,
  ◌&&◌, List, [], ◌∷◌, ◌++◌, length, length-append, arith,
}
use mathlib.Core.List.{append_assoc}
use ulmeros.Common.Outcome.{Outcome, ok, ◌>>=◌}
use ulmeros.Sched.Tasks.{
  Sched, is_killed, is_running, process_killed, task_schedulable, rotate, get_next_task,
}

-- Neither the task nor its process has been killed, and it waits or sleeps.
pub record Waits (s : Sched) (t : ℕ) : Type 0 where
  pub process_lives : process_killed s.proc_killed (s.tasks t).process ≡ false
  pub lives : is_killed (s.tasks t).state ≡ false
  pub waits : not (s.tasks t).irq_wait && is_running (s.tasks t).state ≡ false

-- It can run.
pub record CanRun (s : Sched) (t : ℕ) : Type 0 where
  pub process_lives : process_killed s.proc_killed (s.tasks t).process ≡ false
  pub lives : is_killed (s.tasks t).state ≡ false
  pub runs : not (s.tasks t).irq_wait && is_running (s.tasks t).state ≡ true

abbrev pub AllWait : Sched → List ℕ → Type 0
AllWait s [] = Unit {0}
AllWait s (t ∷ ts) = Waits s t × AllWait s ts

abbrev pub AllLive : Sched → List ℕ → Type 0
AllLive s [] = Unit {0}
AllLive s (t ∷ ts) = (Waits s t ⊎ CanRun s t) × AllLive s ts

abbrev listed : Sched → List ℕ → Sched
listed s ts = record s { sched_tasks = ts }

schedulable-Waits :
    (s : Sched) (ts : List ℕ) (t : ℕ)
    → Waits s t
    → task_schedulable (listed s ts) t ≡ ok (false, listed s ts)
unfolding task_schedulable
schedulable-Waits s ts t w = rw (w.process_lives, w.lives, w.waits)

schedulable-CanRun :
    (s : Sched) (ts : List ℕ) (t : ℕ)
    → CanRun s t
    → task_schedulable (listed s ts) t ≡ ok (true, listed s ts)
unfolding task_schedulable
schedulable-CanRun s ts t c = rw (c.process_lives, c.lives, c.runs)

-- The first task of the list that can run is chosen, and the list goes on behind it.
pub get_next_task-first :
    (fuel : ℕ) (s : Sched) (xs ys : List ℕ) (t : ℕ)
    → AllWait s xs
    → CanRun s t
    → length xs < fuel
    → get_next_task fuel (listed s (xs ++ t ∷ ys)) ≡ ok (t, listed s (ys ++ (xs ++ t ∷ [])))
unfolding get_next_task rotate
get_next_task-first zero s xs ys t waiting able enough = absurd (omega arith)
get_next_task-first (suc fuel) s [] ys t waiting able enough =
    rw (schedulable-CanRun s (ys ++ t ∷ []) t able)
get_next_task-first (suc fuel) s (x ∷ xs) ys t (w, waiting) able enough =
    rw (schedulable-Waits s ((xs ++ t ∷ ys) ++ x ∷ []) x w, append_assoc xs (t ∷ ys) (x ∷ []))
      (get_next_task-first fuel s xs (ys ++ x ∷ []) t waiting able (omega arith)
        ∙ ap (λ zs. ok (t, listed s zs)) (append_assoc ys (x ∷ []) (xs ++ t ∷ [])))

-- The choice after `n` earlier ones.
pub nth_choice : (n fuel : ℕ) → Sched → Outcome (ℕ × Sched)
nth_choice zero fuel s = get_next_task fuel s
nth_choice (suc n) fuel s = get_next_task fuel s >>= λ (t, s'). nth_choice n fuel s'

-- Of tasks that live, all wait or there is a first that can run.
first_able :
    (s : Sched) (xs : List ℕ)
    → AllLive s xs
    → AllWait s xs
      ⊎ ((as' : List ℕ) × (t : ℕ) × (bs : List ℕ) × (xs ≡ as' ++ t ∷ bs)
          × AllWait s as'
          × CanRun s t
          × AllLive s bs)
first_able s [] all = inl tt
first_able s (x ∷ xs) (inr able, all) = inr ([], x, xs, refl, tt, able, all)
first_able s (x ∷ xs) (inl w, all) = elim (first_able s xs all) [
  | inl waiting ↦ inl (w, waiting)
  | inr (as', t, bs, e, waiting, able, rest) ↦
      inr (x ∷ as', t, bs, ap (λ zs. x ∷ zs) e, (w, waiting), able, rest)
]

-- It is some task's turn after no more choices than tasks stand before it.
Turn : (fuel : ℕ) → Sched → (before behind : List ℕ) → ℕ → Type 0
Turn fuel s xs ys u =
    (n : ℕ) × (s' : Sched) × (n ≤ length xs)
    × (nth_choice n fuel (listed s (xs ++ u ∷ ys)) ≡ ok (u, s'))

take-Turn :
    (bound fuel : ℕ) (s : Sched) (xs ys : List ℕ) (u : ℕ)
    → length xs < bound
    → AllLive s xs
    → CanRun s u
    → length xs + length ys < fuel
    → Turn fuel s xs ys u
unfolding Turn nth_choice
take-Turn zero fuel s xs ys u small live able enough = absurd (omega arith)
take-Turn (suc bound) fuel s xs ys u small live able enough = elim (first_able s xs live) [
  | inl waiting ↦ (
    0,
    listed s (ys ++ (xs ++ u ∷ [])),
    omega arith,
    get_next_task-first fuel s xs ys u waiting able (omega arith),
  )
  | inr (as', t, bs, e, waiting, can, rest) ↦
      let whole : xs ++ u ∷ ys ≡ as' ++ t ∷ (bs ++ u ∷ ys) =
        ap (λ zs. zs ++ u ∷ ys) e ∙ append_assoc as' (t ∷ bs) (u ∷ ys) in
      let long = ap length e ∙ length-append as' (t ∷ bs) in
      let long' =
        length-append ys (as' ++ t ∷ [])
        ∙ ap (λ (k : ℕ). length ys + k) (length-append as' (t ∷ [])) in
      let (n, s', le, run) =
        take-Turn bound fuel s bs (ys ++ (as' ++ t ∷ [])) u (omega arith) rest able (omega arith) in
      (
        suc n,
        s',
        omega arith,
        rw
            (
              whole,
              get_next_task-first fuel s as' (bs ++ u ∷ ys) t waiting can (omega arith),
              append_assoc bs (u ∷ ys) (as' ++ t ∷ []),
            )
            run,
      )
]

-- Where none of the tasks before it, and no process of one, has been killed, and the states of tasks do
-- not change between choices: a task that can run is chosen after no more choices than tasks stand before
-- it, and no choice has more rounds than the list has tasks.
pub get_next_task-turn :
    (fuel : ℕ) (s : Sched) (xs ys : List ℕ) (u : ℕ)
    → s.sched_tasks ≡ xs ++ u ∷ ys
    → AllLive s xs
    → CanRun s u
    → length xs + length ys < fuel
    → (n : ℕ) × (s' : Sched) × (n ≤ length xs) × (nth_choice n fuel s ≡ ok (u, s'))
unfolding Turn
get_next_task-turn fuel s xs ys u e live able enough =
    let (n, s', le, run) =
      take-Turn (suc (length xs)) fuel s xs ys u (omega arith) live able enough in
    (n, s', le, subst (λ zs. nth_choice n fuel (listed s zs) ≡ ok (u, s')) (sym e) run)
