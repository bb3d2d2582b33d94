-- ===== src/Sched/Dispatch/Balance.antt =====
-- What every interrupt that returns leaves behind.
use ulmeros.Common.{
  true, arith, [], ◌∷◌, ◌⊎◌, ◌∙◌, subst, ℕ, ◌-◌, ◌≡◌, refl, ap, false, ◌&&◌, List, ◌++◌, ltb, leb,
  ◌==◌, if◌then◌else◌, Bool-cases, inl, inr, get_elem?,
}
use ulmeros.Common.Outcome.{Outcome, ok, panic, fault, spinning, ◌>>=◌, assert}
use ulmeros.Sched.Dispatch.{
  Context, Machine, Calls, syscall_table, syscall_count, x86_exception, call_entry, system_call,
  run_schedule, exception, on_rest, handle, eoi, device_interrupt, x86_irq_handler,
}

-- what holds of the result, if there is one
abbrev pub Holds {ℓ κ} : {A : Type ℓ} → (A → Type κ) → Outcome A → Type κ
Holds P (ok a) = P a
Holds P panic = Unit
Holds P fault = Unit
Holds P spinning = Unit

Holds-bind {ℓ κ μ} :
    {A : Type ℓ} {B : Type κ} (P : B → Type μ) (out : Outcome A) (f : A → Outcome B)
    → ((a : A) → Holds P (f a))
    → Holds P (out >>= f)
Holds-bind P (ok a) f h = h a
Holds-bind P panic f h = tt
Holds-bind P fault f h = tt
Holds-bind P spinning f h = tt

Holds-through {ℓ κ μ ν} :
    {A : Type ℓ} {B : Type κ} (Q : A → Type μ) (P : B → Type ν) (out : Outcome A)
    (f : A → Outcome B)
    → Holds Q out
    → ((a : A) → Q a → Holds P (f a))
    → Holds P (out >>= f)
Holds-through Q P (ok a) f q h = h a q
Holds-through Q P panic f q h = tt
Holds-through Q P fault f q h = tt
Holds-through Q P spinning f q h = tt

module _ {ℓ} {S : Type ℓ} (k : Calls S) where
  -- `ports` is what was written to the interrupt controllers.
  abbrev pub IsBalanced : List (ℕ × ℕ) → Context × Machine S → Type 0
  IsBalanced ports (ctx', m') = (m'.preempt ≡ false) × (m'.irq_ongoing ≡ false) × (m'.ports ≡ ports)

  -- the flags and the ports of another state
  abbrev Keeps {κ} : {A : Type κ} → Machine S → A × Machine S → Type 0
  Keeps m (a, m') =
      (m'.preempt ≡ m.preempt) × (m'.irq_ongoing ≡ m.irq_ongoing) × (m'.ports ≡ m.ports)

  on_rest-Keeps {κ} :
      {A : Type κ} (call : S → Outcome (A × S)) (m : Machine S) → Holds (Keeps m) (on_rest call m)
  unfolding on_rest
  on_rest-Keeps call m = Holds-bind (Keeps m) (call m.rest) _ (λ r. (refl, refl, refl))

  module _ (ctx : Context) (m : Machine S) (off : m.preempt ≡ false)
      (idle : m.irq_ongoing ≡ false) where
    system_call-IsBalanced : Holds (IsBalanced m.ports) (system_call k ctx m)
    unfolding system_call
    system_call-IsBalanced = elim (Bool-cases (leb syscall_count ctx.error)) [
      | inl past ↦ rw past (off, idle, refl)
      | inr within ↦ rw within (
          let m₁ : Machine S = record m { preempt = true } in
          let call = call_entry k (get_elem? syscall_table ctx.rax) ctx in
          Holds-bind (IsBalanced m.ports) (assert (k.has_process m.rest)) _ (λ t.
            Holds-through (Keeps m₁) (IsBalanced m.ports) (on_rest call m₁) _
              (on_rest-Keeps call m₁) (λ (a, m₂) (p, q, e). (refl, q ∙ idle, e))))
    ]

    run_schedule-IsBalanced : Holds (IsBalanced m.ports) (run_schedule k ctx m)
    unfolding run_schedule on_rest
    run_schedule-IsBalanced =
        Holds-bind (IsBalanced m.ports) (k.schedule ctx m.rest) _ (λ r. (off, idle, refl))

    exception-IsBalanced : Holds (IsBalanced m.ports) (exception k ctx m)
    unfolding exception
    exception-IsBalanced = elim (Bool-cases (ctx.irq == 31)) [
      | inl yield ↦ rw yield run_schedule-IsBalanced
      | inr other ↦ rw other (
          let m₁ : Machine S = record m { preempt = true } in
          let call = x86_exception k ctx.irq ctx.error in
          Holds-through (Keeps m₁) (IsBalanced m.ports) (on_rest call m₁) _ (on_rest-Keeps call m₁)
            (λ (a, m₂) (p, q, e).
              Holds-bind (IsBalanced m.ports) (assert a) _ (λ t. (refl, q ∙ idle, e))))
    ]

  device_interrupt-IsBalanced :
      (ctx : Context) (m : Machine S)
      → m.preempt ≡ false
      → Holds (IsBalanced (m.ports ++ eoi (ctx.irq - 32))) (device_interrupt k ctx m)
  unfolding device_interrupt
  device_interrupt-IsBalanced ctx m off =
      let m₁ : Machine S = record m { irq_ongoing = true } in
      let call = handle k (ctx.irq - 32) in
      Holds-through (Keeps m₁) (IsBalanced (m.ports ++ eoi (ctx.irq - 32))) (on_rest call m₁) _
        (on_rest-Keeps call m₁)
        (λ (a, m₂) (p, q, e).
          Holds-through (IsBalanced m₂.ports) (IsBalanced (m.ports ++ eoi (ctx.irq - 32))) (ran m₂)
            _ (ran-IsBalanced m₂ (p ∙ off))
            (λ (ctx', m₄) (p', q', e'). (p', q', ap (λ l. l ++ eoi (ctx.irq - 32)) (e' ∙ e))))
    where
      ran : Machine S → Outcome (Context × Machine S)
      ran m₂ =
          if ctx.irq - 32 == 0
          then run_schedule k ctx (record m₂ { irq_ongoing = false })
          else ok (ctx, record m₂ { irq_ongoing = false })

      ran-IsBalanced : (m₂ : Machine S) → m₂.preempt ≡ false → Holds (IsBalanced m₂.ports) (ran m₂)
      ran-IsBalanced m₂ still = elim (Bool-cases (ctx.irq - 32 == 0)) [
        | inl timer ↦
            rw timer (run_schedule-IsBalanced ctx (record m₂ { irq_ongoing = false }) still refl)
        | inr other ↦ rw other (still, refl, refl)
      ]

  -- the writes that an interrupt causes: for 32 to 39 one to the first controller, for 40 to 47 one to
  -- each, and else none
  abbrev pub answered : Context → Machine S → List (ℕ × ℕ)
  answered ctx m =
      if leb 40 ctx.irq && ltb ctx.irq 48
      then m.ports ++ (0xa0, 0x20) ∷ (0x20, 0x20) ∷ []
      else if leb 32 ctx.irq && ltb ctx.irq 40
      then m.ports ++ (0x20, 0x20) ∷ []
      else m.ports

  answered-eoi :
      (ctx : Context) (m : Machine S)
      → ltb ctx.irq 32 ≡ false
      → ltb ctx.irq 48 ≡ true
      → m.ports ++ eoi (ctx.irq - 32) ≡ answered ctx m
  answered-eoi ctx m high irq = elim (Bool-cases (leb 40 ctx.irq)) [
    | inl second ↦
        let here : leb 8 (ctx.irq - 32) ≡ true = ground arith in rw (here, second, irq) refl
    | inr first ↦
        let here : leb 8 (ctx.irq - 32) ≡ false = ground arith in
        let above : leb 32 ctx.irq ≡ true = ground arith in
        let below : ltb ctx.irq 40 ≡ true = ground arith in rw (here, first, above, below) refl
  ]

  answered_none :
      (ctx : Context) (m : Machine S)
      → (ltb ctx.irq 32 ≡ true) ⊎ (ltb ctx.irq 48 ≡ false)
      → m.ports ≡ answered ctx m
  answered_none ctx m (inl low) =
      let a : leb 40 ctx.irq ≡ false = ground arith in
      let b : leb 32 ctx.irq ≡ false = ground arith in rw (a, b) refl
  answered_none ctx m (inr high) =
      let b : ltb ctx.irq 40 ≡ false = ground arith in
      let c : leb 40 ctx.irq ≡ true = ground arith in
      let d : leb 32 ctx.irq ≡ true = ground arith in rw (high, b, c, d) refl

  -- An interrupt that is taken with interrupts disabled and outside another one, and that returns, leaves
  -- interrupts disabled and no interrupt ongoing; an end of interrupt has been sent to the first interrupt
  -- controller for 32 to 39, to both for 40 to 47, and none for another number.
  pub x86_irq_handler-IsBalanced :
      (ctx : Context) (m : Machine S)
      → m.preempt ≡ false
      → m.irq_ongoing ≡ false
      → Holds (IsBalanced (answered ctx m)) (x86_irq_handler k ctx m)
  unfolding x86_irq_handler
  x86_irq_handler-IsBalanced ctx m off idle =
      let to = λ (l : List (ℕ × ℕ)). Holds (IsBalanced l) (x86_irq_handler k ctx m) in
      elim (Bool-cases (ctx.irq == 0x80)) [
        | inl call ↦
            let none_sent = answered_none ctx m (inr (ground arith)) in
            subst to none_sent (rw call (system_call-IsBalanced ctx m off idle))
        | inr other ↦ elim (Bool-cases (ltb ctx.irq 32)) [
          | inl low ↦
              subst to (answered_none ctx m (inl low))
                (rw (other, low) (exception-IsBalanced ctx m off idle))
          | inr high ↦ elim (Bool-cases (ltb ctx.irq 48)) [
            | inl irq ↦
                subst to (answered-eoi ctx m high irq)
                  (rw (other, high, irq) (device_interrupt-IsBalanced ctx m off))
            | inr unknown ↦ rw (other, high, unknown) tt
          ]
        ]
      ]
