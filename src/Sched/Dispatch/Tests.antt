-- ===== src/Sched/Dispatch/Tests.antt =====
-- A kernel that only counts what is called.
use ulmeros.Common.{ℕ, ◌+◌, ◌-◌, ◌^◌, ◌≡◌, refl, true, false, [], ◌∷◌}
use ulmeros.Common.Outcome.{ok, fault}
use ulmeros.Sched.Dispatch.{
  Context, Machine, Calls, x86_irq_handler, system_call, call_entry, device_interrupt, run_schedule,
  on_rest, handle,
}
use ulmeros.Sched.Dispatch.Balance.{Holds, IsBalanced, x86_irq_handler-IsBalanced}

abbrev counting : Calls ℕ
counting = record {
  has_process = λ s. true;
  cr2 = λ s. 0;
  syscall = λ entry ctx s. ok (ctx.r8, s + 1);
  page_fault = λ address present write user exec s. ok (true, s + 10);
  schedule = λ ctx s. ok (ctx, s + 100);
  irq_handler = λ id s. ok (s + 1000);
}

abbrev idle : Machine ℕ
idle = record { preempt = false; irq_ongoing = false; ports = []; rest = 0 }

abbrev interrupt : (irq number : ℕ) → Context
interrupt irq number = record {
  irq = irq;
  error = number;
  rax = number;
  r8 = 5;
  r9 = 0;
  r10 = 0;
  r11 = 0;
  r12 = 0;
  r13 = 0;
}

-- interrupt 46, the primary disk channel's
x86_irq_handler-IsBalanced_example :
    Holds
      (IsBalanced counting ((0xa0, 0x20) ∷ (0x20, 0x20) ∷ []))
      (x86_irq_handler counting (interrupt 46 0) idle)
x86_irq_handler-IsBalanced_example =
    x86_irq_handler-IsBalanced counting (interrupt 46 0) idle refl refl

timer :
    x86_irq_handler counting (interrupt 32 0) idle
    ≡ ok (interrupt 32 0, record idle { ports = (0x20, 0x20) ∷ []; rest = 1100 })
unfolding x86_irq_handler device_interrupt run_schedule on_rest handle
timer = refl

-- no such system call
too_large :
    x86_irq_handler counting (interrupt 0x80 20) idle
    ≡ ok (record (interrupt 0x80 20) { rax = 2 ^ 64 - 38 }, idle)
unfolding x86_irq_handler system_call
too_large = refl

-- a number in the table without a function
no_function : x86_irq_handler counting (interrupt 0x80 5) idle ≡ fault
unfolding x86_irq_handler system_call call_entry on_rest
no_function = refl
