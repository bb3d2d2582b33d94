-- ===== src/Util/Strings/Tests.antt =====
-- The string functions on a memory with "abc" at 100, and a number printed at 200.
use ulmeros.Common.{
  ℕ, ◌-◌, ◌^◌, ◌<◌, ◌≤◌, ◌≡◌, ◌⊎◌, refl, true, Option, none, some, [], ◌∷◌, ◌==◌, if◌then◌else◌,
  arith,
}
use ulmeros.Common.Outcome.{Outcome, ok}
use ulmeros.Util.Strings.{
  Memory, poke, strlen, strlen_from, strrev, strrev_from, ultoa, ltoa, itoa, print_signed,
  write_digits, nchar, swap,
}
use ulmeros.Util.Strings.Text.{CString}
use ulmeros.Util.Strings.Reverse.{strrev-reverse}
use ulmeros.Util.Strings.Numbers.{Printed, ltoa-Printed}

abbrev abc : Memory
abc q = if q == 100 then b'a' else if q == 101 then b'b' else if q == 102 then b'c' else 0

-- the byte at an address after a call
abbrev byte_at : ℕ → Outcome Memory → Option ℕ
byte_at q (ok mem) = some (mem q)
byte_at q o = none

first_of_reversed : byte_at 100 (strrev abc 100) ≡ some b'c'
unfolding strrev strrev_from strlen strlen_from swap poke
first_of_reversed = refl

last_of_printed : byte_at 202 (ultoa abc 4093 200 16) ≡ some b'd'
unfolding ultoa write_digits nchar strrev strrev_from strlen strlen_from swap poke
last_of_printed = refl

sign_of_printed : byte_at 200 (itoa abc (2 ^ 32 - 17) 200 10) ≡ some b'-'
unfolding itoa print_signed write_digits nchar strrev strrev_from strlen strlen_from swap poke
sign_of_printed = refl

word_reversed :
    (mem' : Memory) × (strrev abc 100 ≡ ok mem')
    × CString mem' 100 (b'c' ∷ b'b' ∷ b'a' ∷ [])
    × ((q : ℕ) → (q < 100) ⊎ (103 ≤ q) → mem' q ≡ abc q)
word_reversed =
    strrev-reverse abc 100 (b'a' ∷ b'b' ∷ b'c' ∷ [])
      ((refl, omega arith, (refl, omega arith, (refl, omega arith, tt))), refl) (omega arith)

ltoa-Printed_example :
    (mem' : Memory) × (ltoa abc (2 ^ 64 - 17) 200 10 ≡ ok mem') × Printed abc 200 10 true 17 mem'
ltoa-Printed_example =
    ltoa-Printed abc (2 ^ 64 - 17) 200 10 (omega arith) (omega arith) (omega arith) (omega arith)
