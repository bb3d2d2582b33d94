-- ===== src/Sched/Cleanup/Pass.antt =====
-- One pass of the clean-up deletes the tasks that were killed, and no other.
use ulmeros.Common.{
  ℕ, ◌+◌, ◌-◌, ◌%◌, ◌^◌, ◌≤◌, ◌<◌, ◌≡◌, refl, ap, ◌∙◌, sym, subst, Bool, true, false, not, ◌||◌,
  some, List, [], ◌∷◌, ◌++◌, ◌==◌, if◌then◌else◌, arith, Bool-cases, inl, inr, length, Option-cases,
}
use mathlib.Core.List.{append-nil, append_assoc}
use ulmeros.Common.Outcome.{Outcome, ok}
use ulmeros.Sched.Tasks.{Task, is_killed, contains, remove}
use ulmeros.Sched.Cleanup.{
  Calls, Cleanup, is_empty, set_list, leave_process, task_delete, cleanup_pass,
}

module _ {ℓ} {S : Type ℓ} (k : Calls S) (tasks : ℕ → Task) where
  -- the calls into the process succeed
  pub record Succeeds : Type ℓ where
    pub stack : (p u : ℕ) (s : S) → (s' : S) × (k.delete_stack p u s ≡ ok s')
    pub process : (p : ℕ) (s : S) → (s' : S) × (k.proc_delete p s ≡ ok s')

  unfoldable pub select : (Task → Bool) → List ℕ → List ℕ
  select test [] = []
  select test (t ∷ ts) = let rest = select test ts in if test (tasks t) then t ∷ rest else rest

  abbrev pub alive : Task → Bool
  alive t = not (is_killed t.state)

  abbrev pub killed_one : Task → Bool
  killed_one t = is_killed t.state

  -- A killed task that has a process is on the list of that process.
  abbrev pub IsOwned : (ℕ → List ℕ) → ℕ → Type 0
  IsOwned lists t =
      is_killed (tasks t).state ≡ true
      → (p : ℕ) → (tasks t).process ≡ some p
      → contains t (lists p) ≡ true

  -- All are, and no task is twice on the list.
  unfoldable pub AreOwned : (ℕ → List ℕ) → List ℕ → Type 0
  AreOwned lists [] = Unit
  AreOwned lists (t ∷ ts) = IsOwned lists t × (contains t ts ≡ false) × AreOwned lists ts

  contains-remove :
      (t u : ℕ) (l : List ℕ) → (t == u) ≡ false → contains u (remove t l) ≡ contains u l
  unfolding contains remove
  contains-remove t u [] ne = refl
  contains-remove t u (v ∷ l) ne = elim (Bool-cases (v == t)) [
    | inl e ↦ let other : (v == u) ≡ false = ground arith in rw (e, other) refl
    | inr n ↦ rw n (ap (λ b. (v == u) || b) (contains-remove t u l ne))
  ]

  -- What is on the lists stays there when another task leaves its process.
  AreOwned-leave :
      (lists : ℕ → List ℕ) (t p : ℕ) (ts : List ℕ)
      → contains t ts ≡ false
      → AreOwned lists ts
      → AreOwned (set_list lists p (remove t (lists p))) ts
  unfolding AreOwned contains set_list
  AreOwned-leave lists t p [] h o = tt
  AreOwned-leave lists t p (u ∷ ts) h (owned, once, rest) =
      let ne : (t == u) ≡ false = ground arith in
      let later : contains t ts ≡ false = ground arith in
      (
        λ dead q has. elim (Bool-cases (q == p)) [
          | inl e ↦
              let same : q ≡ p = ground arith in
              rw e (
                contains-remove t u (lists p) ne
                ∙ subst (λ r. contains u (lists r) ≡ true) same (owned dead q has))
          | inr n ↦ rw n (owned dead q has)
        ],
        once,
        AreOwned-leave lists t p ts later rest,
      )

  abbrev Left : ℕ → Cleanup S → Outcome (Cleanup S) → Type ℓ
  Left t c out =
      (c' : Cleanup S) × (out ≡ ok c')
      × (c'.freed ≡ c.freed ++ t ∷ [])
      × (c'.task_count ≡ c.task_count)
      × ((ts : List ℕ) → contains t ts ≡ false → AreOwned c.task_list ts → AreOwned c'.task_list ts)

  task_delete-Left :
      Succeeds
      → (t : ℕ) (c : Cleanup S) → is_killed (tasks t).state ≡ true
      → IsOwned c.task_list t
      → Left t c (task_delete k tasks t c)
  unfolding task_delete leave_process
  task_delete-Left good t c dead owned = elim (Option-cases (tasks t).process) [
    | inl e ↦ rw (dead, e) (record c { freed = c.freed ++ t ∷ [] }, refl, refl, refl, λ ts h o. o)
    | inr (p, e) ↦
        let (s₁, e₁) = good.stack p (tasks t).user_stack c.rest in
        let mem = owned dead p e in
        let left = remove t (c.task_list p) in
        let kept = λ (ts : List ℕ) (h : contains t ts ≡ false) (o : AreOwned c.task_list ts).
          AreOwned-leave c.task_list t p ts h o in
        elim (Bool-cases (is_empty left)) [
          | inl last ↦
              let (s₂, e₂) = good.process p s₁ in
              rw (dead, e, e₁, mem, last, e₂)
                (
                  record c {
                    task_list = set_list c.task_list p left;
                    rest = s₂;
                    freed = c.freed ++ t ∷ [];
                  },
                  refl,
                  refl,
                  refl,
                  kept,
                )
          | inr more ↦
              rw (dead, e, e₁, mem, more)
                (
                  record c {
                    task_list = set_list c.task_list p left;
                    rest = s₁;
                    freed = c.freed ++ t ∷ [];
                  },
                  refl,
                  refl,
                  refl,
                  kept,
                )
        ]
  ]

  -- The tasks that were killed are freed in their order and counted off, and the others stay.
  abbrev pub Passed : List ℕ → Cleanup S → Outcome (List ℕ × Cleanup S) → Type ℓ
  Passed ts c out =
      (c' : Cleanup S) × (out ≡ ok (select alive ts, c'))
      × (c'.freed ≡ c.freed ++ select killed_one ts)
      × (c'.task_count + length (select killed_one ts) ≡ c.task_count)

  -- Where the calls into a process succeed, each task stands once on the list, a killed task that has a
  -- process is on that process's list, and the count of tasks is that of the list at least and below 2^64,
  -- a pass of the clean-up succeeds: it frees exactly the killed tasks, in their order, keeps exactly the
  -- others, in theirs, and lowers the count by the number of tasks that it freed.
  pub cleanup_pass-Passed :
      Succeeds
      → (ts : List ℕ) (c : Cleanup S) → AreOwned c.task_list ts
      → length ts ≤ c.task_count
      → c.task_count < 2 ^ 64
      → Passed ts c (cleanup_pass k tasks ts c)
  unfolding cleanup_pass select AreOwned
  cleanup_pass-Passed good [] c o le small = (c, refl, sym (append-nil c.freed), omega arith)
  cleanup_pass-Passed good (t ∷ ts) c (owned, once, rest) le small =
      elim (Bool-cases (is_killed (tasks t).state)) [
        | inl dead ↦
            let (c₁, e₁, freed₁, count₁, keeps) = task_delete-Left good t c dead owned in
            let wrap : (c₁.task_count + 2 ^ 64 - 1) % 2 ^ 64 ≡ c.task_count - 1 = omega arith in
            let c₂ : Cleanup S = record c₁ { task_count = c.task_count - 1 } in
            let (c₃, e₃, freed₃, count₃) =
              cleanup_pass-Passed good ts c₂ (keeps ts once rest) (omega arith) (omega arith) in
            rw (dead, e₁, wrap, e₃)
              (
                c₃,
                refl,
                freed₃
                    ∙ ap (λ l. l ++ select killed_one ts) freed₁
                    ∙ append_assoc c.freed (t ∷ []) (select killed_one ts),
                omega arith,
              )
        | inr lives ↦
            let (c₁, e₁, freed₁, count₁) = cleanup_pass-Passed good ts c rest (omega arith) small in
            rw (lives, e₁) (c₁, refl, freed₁, count₁)
      ]
