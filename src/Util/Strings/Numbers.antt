-- ===== src/Util/Strings/Numbers.antt =====
-- The number printing of kernel/libutil/string.c: the digits that are written denote the number.
use ulmeros.Common.{
  ℕ, zero, suc, ◌+◌, ◌-◌, ◌*◌, ◌/◌, ◌%◌, ◌^◌, ◌∙◌, ◌<◌, ◌≤◌, ◌≡◌, ◌≢◌, ◌⊎◌, inl, inr, refl, sym, ap,
  Bool, true, false, ◌&&◌, ◌||◌, List, [], ◌∷◌, ◌++◌, reverse, length, length-append, leb, ltb,
  ◌==◌, if◌then◌else◌, Bool-cases, arith,
}
use mathlib.Core.List.{reverse-cons, reverse-append, append-nil}
use native.Mathlib.Nat.{div-add-mod', mul-le-mul_left, mod-lt}
use ulmeros.Common.Outcome.{ok}
use ulmeros.Util.Strings.{
  Memory, poke, nchar, write_digits, ultoa, print_signed, ltoa, strrev, address_space,
}
use ulmeros.Util.Strings.Text.{
  Codes, CString, Codes-append, Codes-frame, poke-at, poke-other, eq-false,
}
use ulmeros.Util.Strings.Reverse.{strrev-reverse}

-- the number that a digit stands for
abbrev pub digit_of : ℕ → ℕ
digit_of c = if ltb c b'a' then c - b'0' else c - b'a' + 10

-- '0' to '9' and the small letters are the digits, as far as the base goes.
abbrev pub is_digit : (base c : ℕ) → Bool
is_digit base c =
    (leb b'0' c && leb c b'9' && ltb (c - b'0') base)
    || (leb b'a' c && leb c b'z' && ltb (c - b'a' + 10) base)

abbrev pub AllDigits : (base : ℕ) → List ℕ → Type 0
AllDigits base [] = Unit
AllDigits base (c ∷ cs) = (is_digit base c ≡ true) × AllDigits base cs

AllDigits-append :
    (base : ℕ) (xs : List ℕ) (c : ℕ)
    → AllDigits base xs
    → is_digit base c ≡ true
    → AllDigits base (xs ++ c ∷ [])
AllDigits-append base [] c all d = (d, tt)
AllDigits-append base (x ∷ xs) c (e, all) d = (e, AllDigits-append base xs c all d)

AllDigits-reverse : (base : ℕ) (cs : List ℕ) → AllDigits base cs → AllDigits base (reverse cs)
AllDigits-reverse base [] all = tt
AllDigits-reverse base (c ∷ cs) (d, all) =
    rw (reverse-cons c cs) (AllDigits-append base (reverse cs) c (AllDigits-reverse base cs all) d)

-- A numeral read from the left, after what has been read.
abbrev pub number_from : (base before : ℕ) → List ℕ → ℕ
number_from base before [] = before
number_from base before (c ∷ cs) = number_from base (before * base + digit_of c) cs

abbrev pub number : (base : ℕ) → List ℕ → ℕ
number base = number_from base 0

-- A numeral with its lowest digit first.
abbrev low_first : (base : ℕ) → List ℕ → ℕ
low_first base [] = 0
low_first base (c ∷ cs) = low_first base cs * base + digit_of c

number_from-append :
    (base before : ℕ) (xs : List ℕ) (c : ℕ)
    → number_from base before (xs ++ c ∷ []) ≡ number_from base before xs * base + digit_of c
number_from-append base before [] c = refl
number_from-append base before (x ∷ xs) c =
    number_from-append base (before * base + digit_of x) xs c

number-reverse : (base : ℕ) (cs : List ℕ) → number base (reverse cs) ≡ low_first base cs
number-reverse base [] = refl
number-reverse base (c ∷ cs) =
    ap (number base) (reverse-cons c cs)
    ∙ number_from-append base 0 (reverse cs) c
    ∙ ap (λ (n : ℕ). n * base + digit_of c) (number-reverse base cs)

digit_of-nchar : (d : ℕ) → d < 36 → digit_of (nchar d) ≡ d
unfolding nchar
digit_of-nchar d h = ground arith

is_digit-nchar : (base d : ℕ) → d < base → base ≤ 36 → is_digit base (nchar d) ≡ true
unfolding nchar
is_digit-nchar base d h small = ground arith

nchar_pos : (d : ℕ) → d < 36 → nchar d ≢ 0
unfolding nchar
nchar_pos d h = ground arith

half : (v b : ℕ) → 2 ≤ b → v / b * 2 ≤ v
half v b h = omega (arith, div-add-mod' v b, mul-le-mul_left (v / b) h)

combine : (base q d v e low : ℕ) → e ≡ d → low ≡ q → q * base + d ≡ v → low * base + e ≡ v
combine base q d v e low h k whole = rw (h, k) whole

zero_of : (n : ℕ) → (n == 0) ≡ true → n ≡ 0
zero_of n h = ground arith

-- What the loop of digits has done, from `p` on.
record Written (mem : Memory) (value base p : ℕ) (fuel : ℕ) : Type 0 where
  pub mem' : Memory
  pub digits : List ℕ
  pub run : write_digits fuel mem value base p ≡ ok (p + length digits, mem')
  pub codes : Codes mem' p digits
  pub valid : AllDigits base digits
  pub reads : low_first base digits ≡ value
  pub short : length digits * 2 ≤ value + 2
  pub outside : (q : ℕ) → (q < p) ⊎ (p + length digits ≤ q) → mem' q ≡ mem q

write_digits-Written :
    (fuel : ℕ) (mem : Memory) (value base p : ℕ)
    → 2 ≤ base
    → base ≤ 36
    → value < fuel
    → Written mem value base p fuel
unfolding write_digits
write_digits-Written zero mem value base p lo hi enough = absurd (omega arith)
write_digits-Written (suc fuel) mem value base p lo hi enough =
    let d = value % base in
    let small : d < base = mod-lt value (omega arith) in
    let mem₁ = poke mem p (nchar d) in
    let digit = digit_of-nchar d (omega arith) in
    let pos = nchar_pos d (omega arith) in
    elim (Bool-cases (value / base == 0)) [
      | inl last ↦ record {
        mem' = mem₁;
        digits = nchar d ∷ [];
        run = rw (eq-false base 0 (omega arith), last);
        codes = (poke-at mem p p (nchar d) refl, pos, tt);
        valid = (is_digit-nchar base d small hi, tt);
        reads =
            combine base (value / base) d value (digit_of (nchar d)) 0 digit
              (sym (zero_of (value / base) last)) (div-add-mod' value base);
        short = omega arith;
        outside = λ q o.
            poke-other mem p q (nchar d) (elim o [ inl lt ↦ omega arith | inr ge ↦ omega arith ]);
      }
      | inr more ↦
          let below = half value base lo in
          let w = write_digits-Written fuel mem₁ (value / base) base (p + 1) lo hi (ground arith) in
          record {
            mem' = w.mem';
            digits = nchar d ∷ w.digits;
            run =
                rw (eq-false base 0 (omega arith), more)
                  (w.run ∙ ap (λ (k : ℕ). ok (k, w.mem')) (omega arith));
            codes =
                (w.outside p (inl (omega arith)) ∙ poke-at mem p p (nchar d) refl, pos, w.codes);
            valid = (is_digit-nchar base d small hi, w.valid);
            reads =
                combine base (value / base) d value (digit_of (nchar d)) (low_first base w.digits)
                  digit w.reads (div-add-mod' value base);
            short = let tail = w.short in ground arith;
            outside = λ q o. elim o [
              | inl lt ↦
                  w.outside q (inl (omega arith)) ∙ poke-other mem p q (nchar d) (omega arith)
              | inr ge ↦
                  w.outside q (inr (omega arith)) ∙ poke-other mem p q (nchar d) (omega arith)
            ];
          }
    ]

abbrev pub sign_of : Bool → List ℕ
sign_of true = b'-' ∷ []
sign_of false = []

-- The string of a number at `str`: a minus sign if it is negative, and a numeral of digits of the base
-- for its size, whose length is at most half of the size and one; no byte but those of the string and its end has changed.
pub record Printed (mem : Memory) (str base : ℕ) (is_negative : Bool) (size : ℕ) (mem' : Memory)
    : Type 0 where
  pub chars : List ℕ
  pub string : CString mem' str (sign_of is_negative ++ chars)
  pub digits : AllDigits base chars
  pub reads : number base chars ≡ size
  pub short : length chars * 2 ≤ size + 2
  pub outside :
      (q : ℕ) → (q < str) ⊎ (str + length (sign_of is_negative ++ chars) < q) → mem' q ≡ mem q

length-reverse : (xs : List ℕ) → length (reverse xs) ≡ length xs
length-reverse [] = refl
length-reverse (x ∷ xs) =
    ap length (reverse-cons x xs)
    ∙ length-append (reverse xs) (x ∷ [])
    ∙ omega (arith, length-reverse xs)

-- Behind the digits stand the sign and the end of the string, and `strrev` turns it round.
finish :
    (mem : Memory) (is_negative : Bool) (value base str : ℕ)
    (w : Written mem value base str (suc value)) (ended : Memory)
    → value < address_space
    → CString ended str (w.digits ++ sign_of is_negative)
    → ((q : ℕ)
        → (q < str) ⊎ (str + length (w.digits ++ sign_of is_negative) < q)
        → ended q ≡ w.mem' q)
    → reverse (w.digits ++ sign_of is_negative) ≡ sign_of is_negative ++ reverse w.digits
    → length (w.digits ++ sign_of is_negative) ≤ length w.digits + 1
    → length w.digits ≤ length (w.digits ++ sign_of is_negative)
    → (mem' : Memory) × (strrev ended str ≡ ok mem') × Printed mem str base is_negative value mem'
finish mem is_negative value base str w ended bound string same turned long longer =
    let short = w.short in
    let all = w.digits ++ sign_of is_negative in
    let (mem', run, string', outside) = strrev-reverse ended str all string (omega arith) in
    let front = length-reverse w.digits in
    let count : length (sign_of is_negative ++ reverse w.digits) ≡ length all =
      sym (ap length turned) ∙ length-reverse all in
    (
      mem',
      run,
      record {
        chars = reverse w.digits;
        string = rw (← turned) string';
        digits = AllDigits-reverse base w.digits w.valid;
        reads = number-reverse base w.digits ∙ w.reads;
        short = omega arith;
        outside = λ q o. elim o [
          | inl lt ↦ outside q (inl lt) ∙ same q (inl lt) ∙ w.outside q (inl lt)
          | inr gt ↦
              outside q (inr (omega arith))
              ∙ same q (inr (omega arith))
              ∙ w.outside q (inr (omega arith))
        ];
      },
    )

finish_plain :
    (mem : Memory) (value base str : ℕ) (w : Written mem value base str (suc value))
    → value < address_space
    → (mem' : Memory) × (strrev (poke w.mem' (str + length w.digits) 0) str ≡ ok mem')
      × Printed mem str base false value mem'
finish_plain mem value base str w bound =
    let end = str + length w.digits in
    let ended = poke w.mem' end 0 in
    let whole = append-nil w.digits in
    finish mem false value base str w ended bound
      (rw whole (
        Codes-frame w.mem' ended str w.digits (λ q _ lt. poke-other w.mem' end q 0 (omega arith))
            w.codes,
        poke-at w.mem' end end 0 refl,
      ))
      (rw whole
        (λ q o. poke-other w.mem' end q 0 (elim o [ inl lt ↦ omega arith | inr gt ↦ omega arith ])))
      (ap reverse whole) (omega (arith, ap length whole)) (omega (arith, ap length whole))

finish_minus :
    (mem : Memory) (value base str : ℕ) (w : Written mem value base str (suc value))
    → value < address_space
    → (mem' : Memory) × (strrev
          (poke (poke w.mem' (str + length w.digits) b'-') (str + length w.digits + 1) 0)
          str
        ≡ ok mem')
      × Printed mem str base true value mem'
finish_minus mem value base str w bound =
    let end = str + length w.digits in
    let marked = poke w.mem' end b'-' in
    let ended = poke marked (end + 1) 0 in
    let long = length-append w.digits (b'-' ∷ []) in
    finish mem true value base str w ended bound
      (
        Codes-append ended str w.digits (b'-' ∷ [])
            (Codes-frame w.mem' ended str w.digits
              (λ q _ lt.
                poke-other marked (end + 1) q 0 (omega arith)
                ∙ poke-other w.mem' end q b'-' (omega arith))
              w.codes)
            (
              poke-other marked (end + 1) end 0 (omega arith) ∙ poke-at w.mem' end end b'-' refl,
              omega arith,
              tt,
            ),
        poke-at marked (end + 1) (str + length (w.digits ++ b'-' ∷ [])) 0 (omega arith),
      )
      (λ q o.
        poke-other marked (end + 1) q 0 (elim o [ inl lt ↦ omega arith | inr gt ↦ omega arith ])
        ∙ poke-other w.mem' end q b'-' (elim o [ inl lt ↦ omega arith | inr gt ↦ omega arith ]))
      (reverse-append w.digits (b'-' ∷ [])) (omega arith) (omega arith)

-- For a value of 64 bits and a base from 2 to 36, `ultoa` returns, with a string at `str` that denotes
-- the value in that base, and no byte but those of the string and its end has changed.
pub ultoa-Printed :
    (mem : Memory) (value str base : ℕ)
    → value < 2 ^ 64
    → 2 ≤ base
    → base ≤ 36
    → (mem' : Memory) × (ultoa mem value str base ≡ ok mem') × Printed mem str base false value mem'
unfolding ultoa
ultoa-Printed mem value str base bound lo hi =
    let w = write_digits-Written (suc value) mem value base str lo hi (omega arith) in
    let (mem', run, done) = finish_plain mem value base str w bound in (mem', rw w.run run, done)

print_signed-Printed :
    (mem : Memory) (is_negative : Bool) (size str base : ℕ)
    → size < 2 ^ 64
    → 2 ≤ base
    → base ≤ 36
    → (mem' : Memory) × (print_signed mem is_negative size str base ≡ ok mem')
      × Printed mem str base is_negative size mem'
unfolding print_signed
print_signed-Printed mem true value str base bound lo hi =
    let w = write_digits-Written (suc value) mem value base str lo hi (omega arith) in
    let (mem', run, done) = finish_minus mem value base str w bound in (mem', rw w.run run, done)
print_signed-Printed mem false value str base bound lo hi =
    let w = write_digits-Written (suc value) mem value base str lo hi (omega arith) in
    let (mem', run, done) = finish_plain mem value base str w bound in (mem', rw w.run run, done)

-- For the 64 bits of a `long` that is not the least one, and a base from 2 to 36, `ltoa` returns, with a
-- string at `str` that denotes the number: a minus sign if it is negative, and a numeral of its size, in the
-- digits '0' to '9' and then 'a' to 'z' that the base has.
-- No byte but those of the string and its end has changed.
pub ltoa-Printed :
    (mem : Memory) (value str base : ℕ)
    → value < 2 ^ 64
    → value ≢ 2 ^ 63
    → 2 ≤ base
    → base ≤ 36
    → (mem' : Memory) × (ltoa mem value str base ≡ ok mem')
      × Printed mem str base
          (leb (2 ^ 63) value)
          (if leb (2 ^ 63) value then 2 ^ 64 - value else value)
          mem'
unfolding ltoa
ltoa-Printed mem value str base bound least lo hi = elim (Bool-cases (ltb value (2 ^ 63))) [
  | inl plus ↦
      let (mem', run, done) = print_signed-Printed mem false value str base bound lo hi in
      (mem', rw (eq-false value (2 ^ 63) least, plus) run, rw (lt-leb value (2 ^ 63) plus) done)
  | inr minus ↦
      let (mem', run, done) =
        print_signed-Printed mem true (2 ^ 64 - value) str base (ground arith) lo hi in
      (mem', rw (eq-false value (2 ^ 63) least, minus) run, rw (ge-leb value (2 ^ 63) minus) done)
]
  where
    lt-leb : (a b : ℕ) → ltb a b ≡ true → leb b a ≡ false
    lt-leb a b h = ground arith

    ge-leb : (a b : ℕ) → ltb a b ≡ false → leb b a ≡ true
    ge-leb a b h = ground arith
