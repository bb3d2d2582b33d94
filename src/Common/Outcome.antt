-- ===== src/Common/Outcome.antt =====
-- What a run of kernel code ends in, as a value. The build with DEBUG is modelled: a failed
-- `assert` or `kpanic` (kernel/kernel/include/debug.h) stops the machine.
use ulmeros.Common.{Bool, true, false}

-- `panic`: a failed assertion or a kernel panic. `fault`: an access through NULL or a dangling
-- pointer, or what C leaves undefined. `spinning`: the loop had not ended when its fuel was used up.
pub data Outcome {ℓ} (A : Type ℓ) : Type ℓ where
  ok : A → Outcome A
  panic : Outcome A
  fault : Outcome A
  spinning : Outcome A

infixl 5 ◌>>=◌ ◌>>◌
abbrev pub ◌>>=◌ {ℓ κ} : {A : Type ℓ} {B : Type κ} → Outcome A → (A → Outcome B) → Outcome B
ok a >>= f = f a
panic >>= f = panic
fault >>= f = fault
spinning >>= f = spinning

abbrev pub ◌>>◌ {ℓ} : {B : Type ℓ} → Outcome (Unit {0}) → Outcome B → Outcome B
m >> k = m >>= λ _. k

-- `assert(x, msg)` and `kpanic(x, msg)`
abbrev pub assert : Bool → Outcome (Unit {0})
assert true = ok tt
assert false = panic
