-- ===== src/Util/Strings/Format.antt =====
-- kernel/libutil/sprintf.c: formatted text in memory. The arguments are their machine words, a text by its
-- address; taking one more than there are is a fault. `buffer` is the address of the array of that name.
mod Tests
use ulmeros.Common.{
  ℕ, zero, suc, ◌+◌, ◌-◌, ◌*◌, ◌/◌, ◌%◌, ◌^◌, Bool, true, false, ◌||◌, ◌&&◌, not, List, [], ◌∷◌,
  ltb, leb, ◌==◌, if◌then◌else◌,
}
use ulmeros.Common.Outcome.{Outcome, ok, fault, spinning, ◌>>=◌}
use ulmeros.Util.Strings.{Memory, poke, strlen, strcpy, itoa, utoa, address_space}

pub hex_char : (nibble : ℕ) → ℕ
hex_char nibble =
    if ltb 0xf nibble then b'*' else if leb 0xa nibble then b'a' + nibble - 0xa else b'0' + nibble

-- `va_arg`
next_arg : List ℕ → Outcome (ℕ × List ℕ)
next_arg [] = fault
next_arg (a ∷ args) = ok (a, args)

-- the rounds left: the nibbles of `ptr` from the top
nibbles : (left : ℕ) → Memory → (ptr dest : ℕ) → ℕ × Memory
nibbles zero mem ptr dest = (dest, mem)
nibbles (suc i) mem ptr dest =
    nibbles i (poke mem dest (hex_char (ptr / 16 ^ i % 16))) ptr (dest + 1)

-- What a directive changes: the memory, the place in `dest`, the place in `fmt`, and the arguments left.
abbrev pub Progress : Type 0
Progress = Memory × ℕ × ℕ × List ℕ

-- `strcpy` to `dest`, and the place behind the text
copy_text : Memory → (dest text fmt : ℕ) → List ℕ → Outcome Progress
copy_text mem dest text fmt args = do
  len ← strlen mem text
  mem' ← strcpy mem dest text
  ok (mem', dest + len, fmt, args)

-- The number that a conversion `c` prints into the buffer. `itoa` and `utoa` take 32 bits, also of a long
-- value. Another character prints nothing.
print_into : Memory → (c : ℕ) → (buffer : ℕ) → List ℕ → Outcome (Memory × List ℕ)
print_into mem c buffer args =
    let signed : Outcome (Memory × List ℕ) = do
      (value, args') ← next_arg args
      mem' ← itoa mem (value % 2 ^ 32) buffer 10
      ok (mem', args')
    in let unsigned : ℕ → Outcome (Memory × List ℕ) = λ base. do
      (value, args') ← next_arg args
      mem' ← utoa mem (value % 2 ^ 32) buffer base
      ok (mem', args')
      in if c == b'd'
        then signed
        else if c == b'u'
        then unsigned 10
        else if c == b'x'
        then unsigned 16
        else ok (mem, args)

-- The loop over the characters of a numeric directive. At the end of the format it stops behind it.
number_directive : (fuel : ℕ) → Memory → (dest fmt buffer : ℕ) → List ℕ → Outcome Progress
number_directive zero mem dest fmt buffer args = spinning
number_directive (suc fuel) mem dest fmt buffer args =
    let c = mem fmt in
    let more = number_directive fuel mem dest (fmt + 1) buffer args in
    let print : Outcome Progress = do
      (mem', args') ← print_into mem c buffer args
      copy_text mem' dest buffer (fmt + 1) args'
    in if c == 0
      then ok (mem, dest, fmt + 1, args)
      else if c == b'l' || c == b'z'
      then more
      else print

pointer_directive : Memory → (dest fmt : ℕ) → List ℕ → Outcome Progress
pointer_directive mem dest fmt args = do
  (ptr, args') ← next_arg args
  let (dest', mem') = nibbles 16 (poke (poke mem dest b'0') (dest + 1) b'x') ptr (dest + 2)
  ok (mem', dest', fmt, args')

abbrev is_number : ℕ → Bool
is_number c = c == b'z' || c == b'l' || c == b'0' || c == b'u' || c == b'd' || c == b'x'

-- The directive whose character is at `fmt`. For 'q' the source shifts 64 bits by up to 124, which C
-- leaves undefined.
directive : Memory → (dest fmt buffer : ℕ) → List ℕ → Outcome Progress
directive mem dest fmt buffer args =
    let c = mem fmt in
    let text : Outcome Progress = do
      (str, args') ← next_arg args
      copy_text mem dest str (fmt + 1) args'
    in let char : Outcome Progress = do
      (value, args') ← next_arg args
      ok (poke mem dest (value % 2 ^ 8), dest + 1, fmt + 1, args')
      in if c == b's'
        then text
        else if is_number c
        then number_directive address_space mem dest fmt buffer args
        else if c == b'p'
        then pointer_directive mem dest (fmt + 1) args
        else if c == b'q'
        then fault
        else if c == b'c'
        then char
        else if c == b'%'
        then ok (poke mem dest b'%', dest + 1, fmt + 1, args)
        else ok (mem, dest, fmt + 1, args)

sprintf_from : (fuel : ℕ) → Memory → (dest fmt buffer : ℕ) → List ℕ → Outcome Memory
sprintf_from zero mem dest fmt buffer args = spinning
sprintf_from (suc fuel) mem dest fmt buffer args =
    let c = mem fmt in
    let directed : Outcome Memory = do
      (mem', dest', fmt', args') ← directive mem dest (fmt + 1) buffer args
      sprintf_from fuel mem' dest' fmt' buffer args'
    in let plain = sprintf_from fuel (poke mem dest c) (dest + 1) (fmt + 1) buffer args in
      if c == 0 then ok (poke mem dest 0) else if c == b'%' then directed else plain

pub sprintf : Memory → (dest fmt buffer : ℕ) → List ℕ → Outcome Memory
unfolding next_arg nibbles copy_text print_into number_directive pointer_directive directive
    sprintf_from
sprintf mem dest fmt buffer args = sprintf_from address_space mem dest fmt buffer args
