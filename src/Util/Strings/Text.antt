-- ===== src/Util/Strings/Text.antt =====
-- Strings in memory as lists of characters, and the functions of kernel/libutil/string.c that look for
-- the end of one.
use ulmeros.Common.{
  ℕ, zero, suc, ◌+◌, ◌∙◌, ◌<◌, ◌≤◌, ◌≡◌, ◌≢◌, sym, ap, false, List, [], ◌∷◌, ◌++◌, length, ◌==◌,
  arith,
}
use ulmeros.Common.Outcome.{ok}
use ulmeros.Util.Strings.{Memory, poke, strlen, strlen_from, address_space}

-- characters other than the one that ends a string
abbrev pub Codes : Memory → ℕ → List ℕ → Type 0
Codes mem p [] = Unit {0}
Codes mem p (c ∷ cs) = (mem p ≡ c) × (c ≢ 0) × Codes mem (p + 1) cs

-- A string that ends.
abbrev pub CString : Memory → ℕ → List ℕ → Type 0
CString mem p cs = Codes mem p cs × (mem (p + length cs) ≡ 0)

pub eq-false : (a b : ℕ) → a ≢ b → (a == b) ≡ false
eq-false a b h = ground arith

pub poke-at : (mem : Memory) (p q c : ℕ) → q ≡ p → poke mem p c q ≡ c
unfolding poke
poke-at mem p q c e = ground arith

pub poke-other : (mem : Memory) (p q c : ℕ) → q ≢ p → poke mem p c q ≡ mem q
unfolding poke
poke-other mem p q c h = rw (eq-false q p h)

pub Codes-frame :
    (mem mem' : Memory) (p : ℕ) (cs : List ℕ)
    → ((q : ℕ) → p ≤ q → q < p + length cs → mem' q ≡ mem q)
    → Codes mem p cs
    → Codes mem' p cs
Codes-frame mem mem' p [] same c = tt
Codes-frame mem mem' p (x ∷ cs) same (e, h, c) = (
  same p (omega arith) (omega arith) ∙ e,
  h,
  Codes-frame mem mem' (p + 1) cs (λ q lo hi. same q (omega arith) (omega arith)) c,
)

pub Codes-append :
    (mem : Memory) (p : ℕ) (xs ys : List ℕ)
    → Codes mem p xs
    → Codes mem (p + length xs) ys
    → Codes mem p (xs ++ ys)
Codes-append mem p [] ys c d = rw (zero-back p) d
  where
    zero-back : (p : ℕ) → p ≡ p + 0
    zero-back p = omega arith
Codes-append mem p (x ∷ xs) ys (e, h, c) d =
    (e, h, Codes-append mem (p + 1) xs ys c (rw (step p (length xs)) d))
  where
    step : (p n : ℕ) → p + 1 + n ≡ p + suc n
    step p n = omega arith

plus_zero : (p : ℕ) → p ≡ p + 0
plus_zero p = omega arith

plus_suc : (p n : ℕ) → p + 1 + n ≡ p + suc n
plus_suc p n = omega arith

strlen_from-length :
    (fuel : ℕ) (mem : Memory) (p n : ℕ) (cs : List ℕ)
    → CString mem p cs
    → length cs < fuel
    → strlen_from fuel mem p n ≡ ok (n + length cs)
unfolding strlen_from
strlen_from-length zero mem p n cs s h = absurd (omega arith)
strlen_from-length (suc fuel) mem p n [] (_, e) h =
    let end : mem p ≡ 0 = ap mem (plus_zero p) ∙ e in rw end (ap ok (plus_zero n))
strlen_from-length (suc fuel) mem p n (x ∷ cs) ((e, ne, c), e') h =
    rw (eq-false (mem p) 0 (λ z. ne (sym e ∙ z))) (
      strlen_from-length fuel mem (p + 1) (n + 1) cs (c, ap mem (plus_suc p (length cs)) ∙ e')
        (omega arith)
      ∙ ap ok (plus_suc n (length cs)))

-- `strlen` gives the number of characters.
pub strlen-length :
    (mem : Memory) (p : ℕ) (cs : List ℕ)
    → CString mem p cs
    → length cs < address_space
    → strlen mem p ≡ ok (length cs)
unfolding strlen
strlen-length mem p cs s h = strlen_from-length address_space mem p 0 cs s h ∙ ap ok (omega arith)
