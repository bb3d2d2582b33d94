-- ===== src/Sched/Dispatch.antt =====
-- kernel/arch/x86-common/x86/irq.c and kernel/kernel/sched/syscalls.c: what the processor's interrupts lead to. The
-- calls into other parts of the kernel are arguments, on a state of theirs; a system call that is not
-- there is a jump to 0xdeadbeef, a fault.
pub mod Balance
mod Tests
use ulmeros.Common.{
  ℕ, ◌+◌, ◌-◌, ◌/◌, ◌%◌, ◌^◌, Bool, true, false, not, ◌&&◌, Option, none, some, List, [], ◌∷◌, ◌++◌,
  ltb, leb, ◌==◌, if◌then◌else◌, length, get_elem?,
}
use ulmeros.Common.Outcome.{Outcome, ok, panic, fault, ◌>>=◌, ◌>>◌, assert}

-- the fields of `context_t` that are read or written here
pub record Context : Type 0 where
  pub irq : ℕ
  pub error : ℕ
  pub rax : ℕ
  pub r8 : ℕ
  pub r9 : ℕ
  pub r10 : ℕ
  pub r11 : ℕ
  pub r12 : ℕ
  pub r13 : ℕ

pub data Syscall : Type 0 where
  unim sys_exit sys_read sys_write sys_close sys_sbrk : Syscall

abbrev pub syscall_table : List Syscall
syscall_table =
    unim ∷ sys_exit ∷ sys_read ∷ sys_write ∷ sys_close ∷ unim ∷ unim ∷ unim ∷ unim ∷ unim ∷ unim
    ∷ unim ∷ unim ∷ unim ∷ sys_sbrk ∷ unim ∷ unim ∷ unim ∷ unim ∷ unim ∷ []

abbrev pub syscall_count : ℕ
syscall_count = length syscall_table

-- Whether interrupts are enabled, `irq_ongoing`, what was written to the interrupt controller's ports, and
-- the rest of the kernel.
pub record Machine {ℓ} (S : Type ℓ) : Type ℓ where
  pub preempt : Bool
  pub irq_ongoing : Bool
  pub ports : List (ℕ × ℕ)
  pub rest : S

-- `page_fault` gets the four flags of the error code; `cr2` is the register with the address.
pub record Calls {ℓ} (S : Type ℓ) : Type ℓ where
  pub has_process : S → Bool
  pub cr2 : S → ℕ
  pub syscall : Syscall → Context → S → Outcome (ℕ × S)
  pub page_fault : (address : ℕ) → (present write user exec : Bool) → S → Outcome (Bool × S)
  pub schedule : Context → S → Outcome (Context × S)
  pub irq_handler : ℕ → S → Outcome S

-- end of interrupt, to the second controller where it sent it, and to the first
abbrev pub eoi : (irq_id : ℕ) → List (ℕ × ℕ)
eoi irq_id = if leb 8 irq_id then (0xa0, 0x20) ∷ (0x20, 0x20) ∷ [] else (0x20, 0x20) ∷ []

-- a call that leaves the flags and the ports as they are
unfoldable pub on_rest {ℓ κ} :
    {S : Type ℓ} {A : Type κ} → (S → Outcome (A × S)) → Machine S → Outcome (A × Machine S)
on_rest call m = do (a, s) ← call m.rest; ok (a, record m { rest = s })

module _ {ℓ} {S : Type ℓ} (k : Calls S) where
  abbrev flag : ℕ → ℕ → Bool
  flag error b = error / 2 ^ b % 2 == 1

  unfoldable pub x86_exception : (exc error : ℕ) → S → Outcome (Bool × S)
  x86_exception exc error s =
      if exc == 14
      then k.page_fault (k.cr2 s) (flag error 0) (flag error 1) (flag error 2) (flag error 4) s
      else ok (false, s)

  -- `syscall_table[ctx->rax](…)`
  unfoldable pub call_entry : Option Syscall → Context → S → Outcome (ℕ × S)
  call_entry none ctx s = fault
  call_entry (some unim) ctx s = fault
  call_entry (some entry) ctx s = k.syscall entry ctx s

  unfoldable pub handle : ℕ → S → Outcome (Unit {0} × S)
  handle id s = do s' ← k.irq_handler id s; ok (tt, s')

  -- the branch for 0x80; ENOSYS is 38
  unfoldable pub system_call : Context → Machine S → Outcome (Context × Machine S)
  system_call ctx m =
      if leb syscall_count ctx.error then ok (record ctx { rax = 2 ^ 64 - 38 }, m) else (do
        let m₁ = record m { preempt = true }
        assert (k.has_process m₁.rest)
        (result, m₂) ← on_rest (call_entry (get_elem? syscall_table ctx.rax) ctx) m₁
        ok (record ctx { rax = result }, record m₂ { preempt = false }))

  unfoldable pub run_schedule : Context → Machine S → Outcome (Context × Machine S)
  run_schedule ctx m = on_rest (k.schedule ctx) m

  -- the branch for exceptions
  unfoldable pub exception : Context → Machine S → Outcome (Context × Machine S)
  exception ctx m = if ctx.irq == 31 then run_schedule ctx m else (do
    let m₁ = record m { preempt = true }
    (handled, m₂) ← on_rest (x86_exception ctx.irq ctx.error) m₁
    assert handled
    ok (ctx, record m₂ { preempt = false }))

  -- the branch for the interrupts of devices
  unfoldable pub device_interrupt : Context → Machine S → Outcome (Context × Machine S)
  device_interrupt ctx m = do
    let m₁ = record m { irq_ongoing = true }
    (_, m₂) ← on_rest (handle (ctx.irq - 32)) m₁
    let m₃ = record m₂ { irq_ongoing = false }
    (ctx', m₄) ← (if ctx.irq - 32 == 0 then run_schedule ctx m₃ else ok (ctx, m₃))
    ok (ctx', record m₄ { ports = m₄.ports ++ eoi (ctx.irq - 32) })

  unfoldable pub x86_irq_handler : Context → Machine S → Outcome (Context × Machine S)
  x86_irq_handler ctx m =
      if ctx.irq == 0x80
      then system_call ctx m
      else if ltb ctx.irq 32
      then exception ctx m
      else if ltb ctx.irq 48
      then device_interrupt ctx m
      else panic
