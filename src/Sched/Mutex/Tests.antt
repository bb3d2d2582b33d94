-- ===== src/Sched/Mutex/Tests.antt =====
-- Two tasks, of which task 1 takes the mutex and task 2 has to wait.
use ulmeros.Common.{ℕ, ◌≡◌, refl, true, some, [], ◌∷◌}
use ulmeros.Sched.Mutex.{
  locking, contending, dozing, queuing, yielding, acquired, critical, Tasks, update, enter, take,
  miss, spin, doze, queue, own, initial, Reaches, start, next,
}
use ulmeros.Sched.Mutex.Exclusion.{owns, mutual_exclusion}
use ulmeros.Sched.Mutex.Waiting.{Stuck, waiter-Stuck}

abbrev taken : Tasks
unfolding update
taken = record initial {
  lock = true;
  pc = update (update (update initial.pc 1 locking) 2 locking) 1 acquired;
}

taken-Reaches : Reaches initial taken
unfolding update
taken-Reaches = next 1 (next 2 (next 1 start (enter refl refl)) (enter refl refl)) (take refl refl)

-- task 2 asleep
abbrev queued : Tasks
unfolding update
queued = record taken {
  wait_lock = true;
  waiting_tasks = 2 ∷ [];
  asleep = update taken.asleep 2 true;
  pc = update (update (update (update taken.pc 2 contending) 2 dozing) 2 queuing) 2 yielding;
}

queued-Reaches : Reaches initial queued
unfolding update
queued-Reaches =
    next 2 (next 2 (next 2 (next 2 taken-Reaches (miss refl refl)) (spin refl refl)) (doze refl))
      (queue refl)

queued-Stuck : Stuck 2 queued
unfolding update
queued-Stuck = record { yields = refl; sleeps = refl }

-- task 1 in the critical section
abbrev inside : Tasks
unfolding update
inside = record queued { held_by = some 1; pc = update queued.pc 1 critical }

inside-Reaches : Reaches queued inside
unfolding update
inside-Reaches = next 1 start (own refl)

mutual_exclusion_example :
    ((t u : ℕ) → owns (queued.pc t) ≡ true → owns (queued.pc u) ≡ true → t ≡ u)
    × ((t : ℕ) → queued.pc t ≡ critical → (queued.lock ≡ true) × (queued.held_by ≡ some t))
mutual_exclusion_example = mutual_exclusion queued queued-Reaches

waiter-Stuck_example : Stuck 2 inside × (inside.wait_lock ≡ true)
waiter-Stuck_example = waiter-Stuck queued inside 2 queued-Reaches queued-Stuck inside-Reaches
