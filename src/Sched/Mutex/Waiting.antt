-- ===== src/Sched/Mutex/Waiting.antt =====
-- A task that waits for the mutex waits for ever: it sleeps with the lock of the list of waiting tasks.
use ulmeros.Common.{ℕ, ◌≡◌, ◌≢◌, refl, sym, ap, ◌∙◌, Bool, true, false, bool_clash}
use native.Mathlib.Decide.{ℕ_discrete}
use ulmeros.Sched.Mutex.{
  Pc, idle, locking, contending, dozing, queuing, yielding, acquired, critical, releasing,
  notifying, waking, Tasks, update, Step, enter, take, miss, spin, doze, queue, resume, own, disown,
  release, notify, wake_none, wake, initial, Reaches, start, next,
}
use ulmeros.Sched.Mutex.Exclusion.{Safe, spins, off, step-Safe, all_states}

-- asleep in the `yield` of `mutex_lock`
pub record Stuck (w : ℕ) (s : Tasks) : Type 0 where
  pub yields : s.pc w ≡ yielding
  pub sleeps : s.asleep w ≡ true

is_yielding : Pc → Bool
is_yielding yielding = true
is_yielding _ = false

module _ (t w : ℕ) (s : Tasks) (i : Safe s) (k : Stuck w s) where
  -- Another task's move leaves the sleeper where it is.
  apart : (p : Pc) → s.pc t ≡ p → is_yielding p ≡ false → w ≢ t
  unfolding is_yielding
  apart p e n q = bool_clash refl (ap is_yielding (sym k.yields ∙ ap s.pc q ∙ e) ∙ n)

  still : (p v : Pc) → s.pc t ≡ p → is_yielding p ≡ false → update s.pc t v w ≡ yielding
  still p v e n = off s.pc t v w (apart p e n) ∙ k.yields

  -- The task that is woken has not gone to sleep with the lock that the waker holds.
  no_waker : s.pc t ≡ waking → w ≡ t
  unfolding spins
  no_waker e = i.waiters.one w t (ap spins k.yields) (ap spins e)

  step-Stuck : (s' : Tasks) → Step t s s' → Stuck w s'
  unfolding is_yielding
  step-Stuck _ (enter e l) = record { yields = still idle locking e refl; sleeps = k.sleeps }
  step-Stuck _ (take e l) = record { yields = still locking acquired e refl; sleeps = k.sleeps }
  step-Stuck _ (miss e l) = record { yields = still locking contending e refl; sleeps = k.sleeps }
  step-Stuck _ (spin e l) = record { yields = still contending dozing e refl; sleeps = k.sleeps }
  step-Stuck _ (doze e) = record {
    yields = still dozing queuing e refl;
    sleeps = off s.asleep t true w (apart dozing e refl) ∙ k.sleeps;
  }
  step-Stuck _ (queue e) = record { yields = still queuing yielding e refl; sleeps = k.sleeps }
  step-Stuck _ (resume e a) = elim (ℕ_discrete w t) [
    | yes q ↦ absurd (bool_clash k.sleeps (ap s.asleep q ∙ a))
    | no n ↦ record { yields = off s.pc t locking w n ∙ k.yields; sleeps = k.sleeps }
  ]
  step-Stuck _ (own e) = record { yields = still acquired critical e refl; sleeps = k.sleeps }
  step-Stuck _ (disown e l h) = record {
    yields = still critical releasing e refl;
    sleeps = k.sleeps;
  }
  step-Stuck _ (release e) = record { yields = still releasing notifying e refl; sleeps = k.sleeps }
  step-Stuck _ (notify e l) = record { yields = still notifying waking e refl; sleeps = k.sleeps }
  step-Stuck _ (wake_none e l) = record { yields = still waking idle e refl; sleeps = k.sleeps }
  step-Stuck _ (wake e l a) = absurd (apart waking e refl (no_waker e))

-- A task that has gone to sleep in `mutex_lock` sleeps for ever: it keeps the lock of the list, which
-- `mutex_unlock` needs to wake it. In every state that later steps reach it is still asleep there,
-- and the lock of the list is taken.
pub waiter-Stuck :
    (s s' : Tasks) (w : ℕ)
    → Reaches initial s
    → Stuck w s
    → Reaches s s'
    → Stuck w s' × (s'.wait_lock ≡ true)
unfolding spins
waiter-Stuck s s' w r k more =
    let (safe, stuck) = after s' more in (stuck, safe.waiters.taken w (ap spins stuck.yields))
  where
    after : (q : Tasks) → Reaches s q → Safe q × Stuck w q
    after _ start = (all_states s r, k)
    after _ (next {s'} {s''} t m step) =
        let (safe, stuck) = after s' m in
        (step-Safe t s' safe s'' step, step-Stuck t w s' safe stuck s'' step)
