-- ===== src/Sched/Interrupts/Tests.antt =====
-- Two handlers of one interrupt run in the order in which they were added.
use ulmeros.Common.{ℕ, ◌+◌, ◌*◌, ◌≡◌, refl, false, none}
use ulmeros.Common.Outcome.{Outcome, ok, panic, fault, ◌>>=◌}
use ulmeros.Sched.Interrupts.{Irqs, irq_kernel_init, irq_subscribe, irq_handler}

abbrev booted : Irqs
booted = record { irq_handlers = none; irq_ongoing = false }

-- The digits of the functions that have run.
abbrev trace : ℕ → ℕ → ℕ → Outcome ℕ
trace func drv s = ok (s * 10 + func)

in_order :
    (do
      q ← irq_subscribe (irq_kernel_init booted) 3 1 0
      q' ← irq_subscribe q 3 2 0
      irq_handler trace q' 3 0)
    ≡ ok 12
unfolding irq_subscribe irq_kernel_init irq_handler
in_order = refl

not_before_init : irq_subscribe booted 3 1 0 ≡ fault
unfolding irq_subscribe
not_before_init = refl

no_such_interrupt : irq_subscribe (irq_kernel_init booted) 16 1 0 ≡ panic
unfolding irq_subscribe irq_kernel_init
no_such_interrupt = refl
