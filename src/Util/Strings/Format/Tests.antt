-- ===== src/Util/Strings/Format/Tests.antt =====
-- Formats at 100, with the text printed at 500.
use ulmeros.Common.{ℕ, ◌+◌, ◌^◌, ◌≡◌, refl, List, [], ◌∷◌, Option, none, some, ◌==◌, if◌then◌else◌}
use ulmeros.Common.Outcome.{Outcome, ok}
use ulmeros.Util.Strings.{
  Memory, poke, strlen, strlen_from, strcpy, memcpy, itoa, utoa, print_signed, write_digits, nchar,
  strrev, strrev_from, swap,
}
use ulmeros.Util.Strings.Format.{sprintf}

-- the characters of a list at an address, and zeros elsewhere
abbrev text_at : ℕ → List ℕ → Memory
text_at p [] q = 0
text_at p (c ∷ cs) q = if q == p then c else text_at (p + 1) cs q

abbrev byte_at : ℕ → Outcome Memory → Option ℕ
byte_at q (ok mem) = some (mem q)
byte_at q o = none

-- "%d!" of 42
decimal :
    byte_at 501 (sprintf (text_at 100 (b'%' ∷ b'd' ∷ b'!' ∷ [])) 500 100 900 (42 ∷ [])) ≡ some b'2'
unfolding sprintf poke strlen strlen_from strcpy memcpy itoa print_signed write_digits nchar strrev
    strrev_from swap
decimal = refl

-- "%lu" of 2^32 + 7 prints 7: the upper half of a long value is lost.
long_is_cut :
    byte_at 500 (sprintf (text_at 100 (b'%' ∷ b'l' ∷ b'u' ∷ [])) 500 100 900 ((2 ^ 32 + 7) ∷ []))
    ≡ some b'7'
unfolding sprintf poke strlen strlen_from strcpy memcpy utoa write_digits nchar strrev strrev_from
    swap
long_is_cut = refl
