-- ===== src/Util/Strings/Reverse.antt =====
-- `strrev` of kernel/libutil/string.c turns a string round in its place.
use ulmeros.Common.{
  ℕ, zero, suc, ◌+◌, ◌-◌, ◌/◌, ◌∙◌, ◌<◌, ◌≤◌, ◌≡◌, ◌≢◌, ◌⊎◌, inl, inr, refl, sym, ap, List, [], ◌∷◌,
  reverse, length, length-append, arith,
}
use native.Mathlib.Decide.{ℕ_discrete}
use mathlib.Core.List.{reverse-cons}
use ulmeros.Common.Outcome.{ok}
use ulmeros.Util.Strings.{Memory, poke, swap, strrev, strrev_from, address_space}
use ulmeros.Util.Strings.Text.{Codes, CString, Codes-append, strlen-length}

swap-left : (mem : Memory) (p q : ℕ) → swap mem p q p ≡ mem q
unfolding swap poke
swap-left mem p q = ground arith

swap-right : (mem : Memory) (p q : ℕ) → swap mem p q q ≡ mem p
unfolding swap poke
swap-right mem p q = ground arith

swap-other : (mem : Memory) (p q r : ℕ) → r ≢ p → r ≢ q → swap mem p q r ≡ mem r
unfolding swap poke
swap-other mem p q r h k = ground arith

-- The rounds left leave alone what lies outside of the part that they turn round.
strrev_from-outside :
    (left : ℕ) (mem : Memory) (buf len i q : ℕ)
    → i + left ≡ len / 2
    → (q < buf + i) ⊎ (buf + (len - i) ≤ q)
    → strrev_from left mem buf len i q ≡ mem q
unfolding strrev_from
strrev_from-outside zero mem buf len i q h o = refl
strrev_from-outside (suc left) mem buf len i q h o =
    strrev_from-outside left (swap mem (buf + i) (buf + (len - 1 - i))) buf len (i + 1) q
      (omega arith) (elim o [ inl lt ↦ inl (omega arith) | inr ge ↦ inr (omega arith) ])
    ∙ swap-other mem (buf + i) (buf + (len - 1 - i)) q (omega arith) (omega arith)

strrev_from-inside :
    (left : ℕ) (mem : Memory) (buf len i j : ℕ)
    → i + left ≡ len / 2
    → i ≤ j
    → j < len - i
    → strrev_from left mem buf len i (buf + j) ≡ mem (buf + (len - 1 - j))
unfolding strrev_from
strrev_from-inside zero mem buf len i j h lo hi = ap mem (omega arith)
strrev_from-inside (suc left) mem buf len i j h lo hi =
    let p = buf + i in
    let q = buf + (len - 1 - i) in
    elim (ℕ_discrete j i) [
      | yes e ↦
          strrev_from-outside left (swap mem p q) buf len (i + 1) (buf + j) (omega arith)
            (inl (omega arith))
          ∙ ap (λ (k : ℕ). swap mem p q (buf + k)) e
          ∙ swap-left mem p q
          ∙ ap (λ (k : ℕ). mem (buf + (len - 1 - k))) (sym e)
      | no ne ↦ elim (ℕ_discrete j (len - 1 - i)) [
        | yes e ↦
            strrev_from-outside left (swap mem p q) buf len (i + 1) (buf + j) (omega arith)
              (inr (omega arith))
            ∙ ap (λ (k : ℕ). swap mem p q (buf + k)) e
            ∙ swap-right mem p q
            ∙ ap mem (omega arith)
        | no ne' ↦
            strrev_from-inside left (swap mem p q) buf len (i + 1) j (omega arith) (omega arith)
              (omega arith)
            ∙ swap-other mem p q (buf + (len - 1 - j)) (omega arith) (omega arith)
      ]
    ]

-- Characters read from the last to the first.
Codes-mirror :
    (mem mem' : Memory) (a b : ℕ) (cs : List ℕ)
    → ((j : ℕ) → j < length cs → mem' (b + j) ≡ mem (a + (length cs - 1 - j)))
    → Codes mem a cs
    → Codes mem' b (reverse cs) × (length (reverse cs) ≡ length cs)
Codes-mirror mem mem' a b [] same c = (tt, refl)
Codes-mirror mem mem' a b (x ∷ cs) same (e, ne, c) =
    let (front, long) =
      Codes-mirror mem mem' (a + 1) b cs (λ j lt. same j (omega arith) ∙ ap mem (omega arith)) c in
    let last : mem' (b + length (reverse cs)) ≡ x =
      ap (λ (n : ℕ). mem' (b + n)) long
      ∙ same (length cs) (omega arith)
      ∙ ap mem (omega arith)
      ∙ e in
    rw (reverse-cons x cs) (
      Codes-append mem' b (reverse cs) (x ∷ []) front (last, ne, tt),
      length-append (reverse cs) (x ∷ []) ∙ omega (arith, long),
    )

-- Of a string shorter than the address space, `strrev` makes the string of the same characters in
-- reverse order, at the same place, and changes no other byte.
pub strrev-reverse :
    (mem : Memory) (buf : ℕ) (cs : List ℕ)
    → CString mem buf cs
    → length cs < address_space
    → (mem' : Memory) × (strrev mem buf ≡ ok mem')
      × CString mem' buf (reverse cs)
      × ((q : ℕ) → (q < buf) ⊎ (buf + length cs ≤ q) → mem' q ≡ mem q)
unfolding strrev
strrev-reverse mem buf cs (codes, end) short =
    let len = length cs in
    let mem' = strrev_from (len / 2) mem buf len 0 in
    let outside = λ (q : ℕ) (o : (q < buf) ⊎ (buf + len ≤ q)).
      strrev_from-outside (len / 2) mem buf len 0 q (omega arith)
        (elim o [ inl lt ↦ inl (omega arith) | inr ge ↦ inr (omega arith) ]) in
    let (turned, long) =
      Codes-mirror mem mem' buf buf cs
        (λ j lt.
          strrev_from-inside (len / 2) mem buf len 0 j (omega arith) (omega arith) (omega arith))
        codes in
    (
      mem',
      rw (strlen-length mem buf cs (codes, end) short),
      (turned, ap (λ (n : ℕ). mem' (buf + n)) long ∙ outside (buf + len) (inr (omega arith)) ∙ end),
      outside,
    )
