-- ===== src/Sched/Mutex/Exclusion.antt =====
-- One task at a time is in the critical section, and unlocking there passes its assertions.
use ulmeros.Common.{
  ℕ, ◌≡◌, ◌≢◌, refl, sym, ap, ◌∙◌, Bool, true, false, none, some, arith, ◌⊎◌, inl, inr, bool_clash,
}
use native.Mathlib.Decide.{ℕ_discrete}
use ulmeros.Sched.Mutex.{
  Pc, idle, locking, contending, dozing, queuing, yielding, acquired, critical, releasing,
  notifying, waking, Tasks, update, Step, enter, take, miss, spin, doze, queue, resume, own, disown,
  release, notify, wake_none, wake, initial, Reaches, start, next,
}

-- the places between taking the lock and giving it back
unfoldable pub owns : Pc → Bool
owns acquired = true
owns critical = true
owns releasing = true
owns _ = false

-- the places where a task holds the lock of the list of waiting tasks
unfoldable pub spins : Pc → Bool
spins dozing = true
spins queuing = true
spins yielding = true
spins waking = true
spins _ = false

-- A lock that the tasks at the places of `holds` hold: one at most, and only while it is taken.
pub record Locked (holds : Pc → Bool) (pc : ℕ → Pc) (lock : Bool) : Type 0 where
  pub one : (t u : ℕ) → holds (pc t) ≡ true → holds (pc u) ≡ true → t ≡ u
  pub taken : (t : ℕ) → holds (pc t) ≡ true → lock ≡ true

module _ {ℓ} {A : Type ℓ} (f : ℕ → A) (t : ℕ) (v : A) where
  pub at : update f t v t ≡ v
  unfolding update
  at = ground arith

  pub off : (u : ℕ) → u ≢ t → update f t v u ≡ f u
  unfolding update
  off u n = ground arith

module _ (holds : Pc → Bool) (pc : ℕ → Pc) (lock : Bool) (l : Locked holds pc lock) (t : ℕ)
    (v : Pc) where
  -- the value at a task after an update: the new one there, the old one elsewhere
  holder :
      (u : ℕ)
      → holds (update pc t v u) ≡ true
      → ((u ≡ t) × (holds v ≡ true)) ⊎ (holds (pc u) ≡ true)
  holder u h = elim (ℕ_discrete u t) [
    | yes e ↦ inl (e, ap holds (sym (at pc t v) ∙ ap (update pc t v) (sym e)) ∙ h)
    | no n ↦ inr (ap holds (sym (off pc t v u n)) ∙ h)
  ]

  -- A task that moves between places that hold, or between places that do not.
  keep : holds v ≡ holds (pc t) → Locked holds (update pc t v) lock
  keep e = record {
    one = λ u w h k. l.one u w (was u h) (was w k);
    taken = λ u h. l.taken u (was u h);
  }
    where
      was : (u : ℕ) → holds (update pc t v u) ≡ true → holds (pc u) ≡ true
      was u h = elim (holder u h) [ inl (q, k) ↦ ap (λ x. holds (pc x)) q ∙ sym e ∙ k | inr k ↦ k ]

  -- A task that takes the free lock.
  acquire : lock ≡ false → Locked holds (update pc t v) true
  acquire e = record { one = λ u w h k. is_t u h ∙ sym (is_t w k); taken = λ u h. refl }
    where
      is_t : (u : ℕ) → holds (update pc t v u) ≡ true → u ≡ t
      is_t u h = elim (holder u h) [ inl (q, k) ↦ q | inr k ↦ absurd (bool_clash (l.taken u k) e) ]

  -- A task that gives the lock back.
  give_back : holds (pc t) ≡ true → holds v ≡ false → Locked holds (update pc t v) false
  give_back e d = record {
    one = λ u w h k. absurd (none_left u h);
    taken = λ u h. absurd (none_left u h);
  }
    where
      none_left : (u : ℕ) → holds (update pc t v u) ≢ true
      none_left u h = elim (holder u h) [
        | inl (q, k) ↦ bool_clash k d
        | inr k ↦
            let same : u ≡ t = l.one u t k e in
            bool_clash (sym (ap holds (ap (update pc t v) same ∙ at pc t v)) ∙ h) d
      ]

is_critical : Pc → Bool
is_critical critical = true
is_critical _ = false

pub record Safe (s : Tasks) : Type 0 where
  pub mutex : Locked owns s.pc s.lock
  pub waiters : Locked spins s.pc s.wait_lock
  pub held : (t : ℕ) → s.pc t ≡ critical → s.held_by ≡ some t

-- A task that moves to a place outside the critical section puts no task there.
still_critical :
    (pc : ℕ → Pc) (t : ℕ) (v : Pc)
    → is_critical v ≡ false
    → (u : ℕ) → update pc t v u ≡ critical
    → pc u ≡ critical
unfolding is_critical
still_critical pc t v e u h = elim (ℕ_discrete u t) [
  | yes q ↦ absurd (bool_clash (ap is_critical (sym (ap (update pc t v) q ∙ at pc t v) ∙ h)) e)
  | no n ↦ sym (off pc t v u n) ∙ h
]

module _ (t : ℕ) (s : Tasks) (i : Safe s) where
  owner : (p : Pc) → s.pc t ≡ p → owns p ≡ true → owns (s.pc t) ≡ true
  owner p e h = ap owns e ∙ h

  -- a step in which neither lock changes hands
  moves :
      (p v : Pc)
      → s.pc t ≡ p
      → owns v ≡ owns p
      → spins v ≡ spins p
      → Locked owns (update s.pc t v) s.lock × Locked spins (update s.pc t v) s.wait_lock
  moves p v e o w = (
    keep owns s.pc s.lock i.mutex t v (o ∙ sym (ap owns e)),
    keep spins s.pc s.wait_lock i.waiters t v (w ∙ sym (ap spins e)),
  )

  held_on :
      (v : Pc) → is_critical v ≡ false → (u : ℕ) → update s.pc t v u ≡ critical → s.held_by ≡ some u
  held_on v e u h = i.held u (still_critical s.pc t v e u h)

  owner_critical :
      s.pc t ≡ acquired → (u : ℕ) → update s.pc t critical u ≡ critical → some t ≡ some u
  unfolding owns
  owner_critical e u h = elim (ℕ_discrete u t) [
    | yes q ↦ ap some (sym q)
    | no n ↦ ap some (i.mutex.one t u (ap owns e) (ap owns (sym (off s.pc t critical u n) ∙ h)))
  ]

  none_critical : s.pc t ≡ critical → (u : ℕ) → update s.pc t releasing u ≡ critical → none ≡ some u
  unfolding owns is_critical
  none_critical e u h =
      let c = still_critical s.pc t releasing refl u h in
      let same : u ≡ t = i.mutex.one u t (ap owns c) (ap owns e) in
      absurd (
        bool_clash refl
          (ap is_critical (sym h ∙ ap (update s.pc t releasing) same ∙ at s.pc t releasing)))

  pub step-Safe : (s' : Tasks) → Step t s s' → Safe s'
  unfolding owns spins is_critical
  step-Safe _ (enter e l) =
      let (m, w) = moves idle locking e refl refl in
      record { mutex = m; waiters = w; held = held_on locking refl }
  step-Safe _ (take e l) = record {
    mutex = acquire owns s.pc s.lock i.mutex t acquired l;
    waiters = keep spins s.pc s.wait_lock i.waiters t acquired (sym (ap spins e));
    held = held_on acquired refl;
  }
  step-Safe _ (miss e l) =
      let (m, w) = moves locking contending e refl refl in
      record { mutex = m; waiters = w; held = held_on contending refl }
  step-Safe _ (spin e l) = record {
    mutex = keep owns s.pc s.lock i.mutex t dozing (sym (ap owns e));
    waiters = acquire spins s.pc s.wait_lock i.waiters t dozing l;
    held = held_on dozing refl;
  }
  step-Safe _ (doze e) =
      let (m, w) = moves dozing queuing e refl refl in
      record { mutex = m; waiters = w; held = held_on queuing refl }
  step-Safe _ (queue e) =
      let (m, w) = moves queuing yielding e refl refl in
      record { mutex = m; waiters = w; held = held_on yielding refl }
  step-Safe _ (resume e a) = record {
    mutex = keep owns s.pc s.lock i.mutex t locking (sym (ap owns e));
    waiters = give_back spins s.pc s.wait_lock i.waiters t locking (ap spins e) refl;
    held = held_on locking refl;
  }
  step-Safe _ (own e) =
      let (m, w) = moves acquired critical e refl refl in
      record { mutex = m; waiters = w; held = owner_critical e }
  step-Safe _ (disown e l h) =
      let (m, w) = moves critical releasing e refl refl in
      record { mutex = m; waiters = w; held = none_critical e }
  step-Safe _ (release e) = record {
    mutex = give_back owns s.pc s.lock i.mutex t notifying (ap owns e) refl;
    waiters = keep spins s.pc s.wait_lock i.waiters t notifying (sym (ap spins e));
    held = held_on notifying refl;
  }
  step-Safe _ (notify e l) = record {
    mutex = keep owns s.pc s.lock i.mutex t waking (sym (ap owns e));
    waiters = acquire spins s.pc s.wait_lock i.waiters t waking l;
    held = held_on waking refl;
  }
  step-Safe _ (wake_none e l) = record {
    mutex = keep owns s.pc s.lock i.mutex t idle (sym (ap owns e));
    waiters = give_back spins s.pc s.wait_lock i.waiters t idle (ap spins e) refl;
    held = held_on idle refl;
  }
  step-Safe _ (wake e l a) = record {
    mutex = keep owns s.pc s.lock i.mutex t idle (sym (ap owns e));
    waiters = give_back spins s.pc s.wait_lock i.waiters t idle (ap spins e) refl;
    held = held_on idle refl;
  }

initial-Safe : Safe initial
unfolding owns spins
initial-Safe = record {
  mutex = record {
    one = λ t u h k. absurd (bool_clash h refl);
    taken = λ t h. absurd (bool_clash h refl);
  };
  waiters = record {
    one = λ t u h k. absurd (bool_clash h refl);
    taken = λ t h. absurd (bool_clash h refl);
  };
  held = λ t e. absurd (bool_clash refl (ap owns (sym e)));
}

pub all_states : (s : Tasks) → Reaches initial s → Safe s
all_states _ start = initial-Safe
all_states _ (next {s'} {s''} t r m) = step-Safe t s' (all_states s' r) s'' m

-- Whatever the order in which the tasks take their steps, no two tasks are between taking the mutex
-- and giving it back. The lock is taken while a task is, and the mutex is held by the task in the
-- critical section, so that `mutex_unlock` there passes both its assertions.
pub mutual_exclusion :
    (s : Tasks)
    → Reaches initial s
    → ((t u : ℕ) → owns (s.pc t) ≡ true → owns (s.pc u) ≡ true → t ≡ u)
      × ((t : ℕ) → s.pc t ≡ critical → (s.lock ≡ true) × (s.held_by ≡ some t))
unfolding owns
mutual_exclusion s r =
    let safe = all_states s r in
    (safe.mutex.one, λ t e. (safe.mutex.taken t (ap owns e), safe.held t e))
