-- ===== src/Sched/Interrupts.antt =====
-- kernel/kernel/sched/interrupt.c: the handlers of interrupts. A handler is a numbered function with a
-- driver's data. Preemption is off in each body.
mod Tests
use ulmeros.Common.{
  ℕ, ◌+◌, Bool, true, false, not, Option, none, some, List, [], ◌∷◌, ◌++◌, ltb, ◌==◌, if◌then◌else◌,
}
use ulmeros.Common.Outcome.{Outcome, ok, fault, ◌>>=◌, ◌>>◌, assert}

-- x86/irq.h
abbrev pub irq_count : ℕ
irq_count = 16

-- `irq_handler_t`
pub record Handler : Type 0 where
  pub func : ℕ
  pub drv_data : ℕ

-- `irq_handlers`, which is NULL before `irq_kernel_init`: a list for each number.
pub record Irqs : Type 0 where
  pub irq_handlers : Option (ℕ → List Handler)
  pub irq_ongoing : Bool

pub irq_kernel_init : Irqs → Irqs
irq_kernel_init q = record q { irq_handlers = some (λ irq. []) }

add_handler : Irqs → (irq : ℕ) → Handler → Option (ℕ → List Handler) → Outcome Irqs
add_handler q irq h none = fault
add_handler q irq h (some lists) =
    ok (record q { irq_handlers = some (λ i. if i == irq then lists i ++ h ∷ [] else lists i) })

pub irq_subscribe : Irqs → (irq func drv : ℕ) → Outcome Irqs
unfolding add_handler
irq_subscribe q irq func drv = do
  assert (not q.irq_ongoing)
  assert (ltb irq irq_count)
  add_handler q irq (record { func = func; drv_data = drv }) q.irq_handlers

-- `call` runs a handler's function on the state of the drivers.
run_handlers {ℓ} :
    {S : Type ℓ} → (call : (func drv : ℕ) → S → Outcome S) → List Handler → S → Outcome S
run_handlers call [] s = ok s
run_handlers call (h ∷ hs) s = call h.func h.drv_data s >>= λ s'. run_handlers call hs s'

pub irq_handler {ℓ} :
    {S : Type ℓ} → (call : (func drv : ℕ) → S → Outcome S) → Irqs → (id : ℕ) → S → Outcome S
unfolding run_handlers
irq_handler call q id s = elim q.irq_handlers [
  | none ↦ ok s
  | some lists ↦ run_handlers call (lists id) s
]
