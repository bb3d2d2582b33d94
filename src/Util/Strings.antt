-- ===== src/Util/Strings.antt =====
-- kernel/libutil/string.c: strings in memory, and numbers printed into them. A character is its code as
-- an unsigned byte. The loops that look for the end of a string have as many rounds as there are
-- addresses.
pub mod Text
pub mod Reverse
pub mod Numbers
pub mod Format
mod Tests
use ulmeros.Common.{
  ℕ, zero, suc, ◌+◌, ◌-◌, ◌*◌, ◌/◌, ◌%◌, ◌^◌, Bool, true, false, Option, none, some, ltb, leb, ◌==◌,
  if◌then◌else◌, ◌&&◌, ◌||◌,
}
use ulmeros.Common.Outcome.{Outcome, ok, fault, spinning, ◌>>=◌}

abbrev pub Memory : Type 0
Memory = ℕ → ℕ

unfoldable pub poke : Memory → (address byte : ℕ) → Memory
poke mem p c q = if q == p then c else mem q

abbrev pub address_space : ℕ
address_space = 2 ^ 64

strlen_from : (fuel : ℕ) → Memory → (str len : ℕ) → Outcome ℕ
strlen_from zero mem str len = spinning
strlen_from (suc fuel) mem str len =
    let rest = strlen_from fuel mem (str + 1) (len + 1) in if mem str == 0 then ok len else rest

pub strlen : Memory → (str : ℕ) → Outcome ℕ
strlen mem str = strlen_from address_space mem str 0

pub memcpy : Memory → (dest src length : ℕ) → Memory
memcpy mem dest src zero = mem
memcpy mem dest src (suc length) = memcpy (poke mem dest (mem src)) (dest + 1) (src + 1) length

pub memset : Memory → (block c size : ℕ) → Memory
memset mem block c zero = mem
memset mem block c (suc size) = memset (poke mem block c) (block + 1) c size

pub strcpy : Memory → (dest src : ℕ) → Outcome Memory
strcpy mem dest src = do len ← strlen mem src; ok (memcpy mem dest src (len + 1))

-- the rounds left, from `i` on
strnlen_from : (left : ℕ) → Memory → (src i : ℕ) → ℕ
strnlen_from zero mem src i = i
strnlen_from (suc left) mem src i =
    let rest = strnlen_from left mem src (i + 1) in if mem (src + i) == 0 then i + 1 else rest

pub strnlen : Memory → (src n : ℕ) → ℕ
unfolding strnlen_from
strnlen mem src n = strnlen_from n mem src 0

pub strncpy : Memory → (dest src size : ℕ) → Memory
strncpy mem dest src size = memcpy mem dest src (strnlen mem src size)

strccpy_from : (fuel : ℕ) → Memory → (dest src terminator : ℕ) → Outcome (ℕ × Memory)
strccpy_from zero mem dest src terminator = spinning
strccpy_from (suc fuel) mem dest src terminator =
    let c = mem src in
    let rest = strccpy_from fuel (poke mem dest c) (dest + 1) (src + 1) terminator in
    if c == 0
    then ok (src, poke mem dest 0)
    else if c == terminator
    then ok (src + 1, poke mem dest 0)
    else rest

-- Returns the rest of `src`, behind the terminator or at its end.
pub strccpy : Memory → (dest src terminator : ℕ) → Outcome (ℕ × Memory)
strccpy mem dest src terminator = strccpy_from address_space mem dest src terminator

pub strcat : Memory → (dest append : ℕ) → Outcome Memory
strcat mem dest append = do len ← strlen mem dest; strcpy mem (dest + len) append

-- The sign of the result: less, equal or greater.
pub data Sign : Type 0 where
  less : Sign
  same : Sign
  greater : Sign

pub memcmp : Memory → (region1 region2 size : ℕ) → Sign
memcmp mem s1 s2 zero = same
memcmp mem s1 s2 (suc size) =
    let rest = memcmp mem (s1 + 1) (s2 + 1) size in
    if mem s1 == mem s2 then rest else if ltb (mem s1) (mem s2) then less else greater

pub memchr : Memory → (block c size : ℕ) → Option ℕ
memchr mem src c zero = none
memchr mem src c (suc size) =
    let rest = memchr mem (src + 1) c size in if mem src == c then some src else rest

pub nchar : (index : ℕ) → ℕ
nchar index = if ltb index 10 then b'0' + index else (b'a' + index - 10) % 2 ^ 8

-- one round of the loop of `strrev`
unfoldable pub swap : Memory → (p q : ℕ) → Memory
swap mem p q = poke (poke mem p (mem q)) q (mem p)

strrev_from : (left : ℕ) → Memory → (buf len i : ℕ) → Memory
strrev_from zero mem buf len i = mem
strrev_from (suc left) mem buf len i =
    strrev_from left (swap mem (buf + i) (buf + (len - 1 - i))) buf len (i + 1)

pub strrev : Memory → (buf : ℕ) → Outcome Memory
unfolding strrev_from
strrev mem buf = do len ← strlen mem buf; ok (strrev_from (len / 2) mem buf len 0)

-- The loop that writes the digits, the last one first; with the place behind them. The value gets
-- smaller in each round.
write_digits : (fuel : ℕ) → Memory → (value base buf_ptr : ℕ) → Outcome (ℕ × Memory)
write_digits zero mem value base buf_ptr = spinning
write_digits (suc fuel) mem value base buf_ptr =
    let mem' = poke mem buf_ptr (nchar (value % base)) in
    let rest = write_digits fuel mem' (value / base) base (buf_ptr + 1) in
    if base == 0 then fault else if value / base == 0 then ok (buf_ptr + 1, mem') else rest

pub utoa : Memory → (value str base : ℕ) → Outcome Memory
utoa mem value str base = do
  (buf_ptr, mem') ← write_digits (suc value) mem value base str
  strrev (poke mem' buf_ptr 0) str

pub ultoa : Memory → (value str base : ℕ) → Outcome Memory
ultoa mem value str base = do
  (buf_ptr, mem') ← write_digits (suc value) mem value base str
  strrev (poke mem' buf_ptr 0) str

-- The value is given by its sign and its size; that of the least value has no place in the type, and C
-- leaves `-value` undefined there.
print_signed : Memory → (is_negative : Bool) → (size str base : ℕ) → Outcome Memory
print_signed mem is_negative size str base = do
  (buf_ptr, mem') ← write_digits (suc size) mem size base str
  if is_negative
      then strrev (poke (poke mem' buf_ptr b'-') (buf_ptr + 1) 0) str
      else strrev (poke mem' buf_ptr 0) str

-- `int value` as its 32 bits
pub itoa : Memory → (value str base : ℕ) → Outcome Memory
itoa mem value str base =
    if value == 2 ^ 31
    then fault
    else if ltb value (2 ^ 31)
    then print_signed mem false value str base
    else print_signed mem true (2 ^ 32 - value) str base

-- `long value` as its 64 bits
pub ltoa : Memory → (value str base : ℕ) → Outcome Memory
ltoa mem value str base =
    if value == 2 ^ 63
    then fault
    else if ltb value (2 ^ 63)
    then print_signed mem false value str base
    else print_signed mem true (2 ^ 64 - value) str base

-- the rounds left: the four bits of `value` from the top
write_nibbles : (left : ℕ) → Memory → (value buf_ptr : ℕ) → ℕ × Memory
write_nibbles zero mem value buf_ptr = (buf_ptr, mem)
write_nibbles (suc i) mem value buf_ptr =
    write_nibbles i (poke mem buf_ptr (nchar (value / 16 ^ i % 16))) value (buf_ptr + 1)

pub ptoa : Memory → (value str : ℕ) → Memory
unfolding write_nibbles
ptoa mem value str =
    let (buf_ptr, mem') =
      write_nibbles 16 (poke (poke mem str b'0') (str + 1) b'x') value (str + 2) in
    poke mem' buf_ptr 0
