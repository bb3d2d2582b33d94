-- ===== src/Util/Bitmap/Run.antt =====
-- `bitmap_find_n_free`: the aligned run that it finds, and that it finds one where there is one.
use native.Mathlib.Numerals.{add-one}
use native.Mathlib.Nat.{mod-add-mod, mod-eq_of_lt}
use ulmeros.Common.{
  ℕ, zero, suc, ◌+◌, ◌-◌, ◌*◌, ◌%◌, ◌≤◌, ◌<◌, ◌≡◌, inl, inr, true, false, Option, none, some, List,
  arith, leb, ◌==◌, Bool-cases, ap, ◌∙◌, sym, subst,
}
use native.Mathlib.Decide.{ℕ_discrete, dec_lt}
use ulmeros.Util.Bitmap.{
  Bitmap, byte_size, Scan, going, found, scan_bit, find_n_from, bitmap_find_n_free,
}
use ulmeros.Util.Bitmap.Access.{clear_at}

-- Two multiples of `n` less than `n` apart are one.
aligned_unique : (n b p : ℕ) → b % n ≡ 0 → p % n ≡ 0 → b ≤ p → p < b + n → p ≡ b
aligned_unique n b p hb hp le lt =
    let back : (b % n + (p - b)) % n ≡ (b + (p - b)) % n = mod-add-mod b n (p - b) in
    let same : (b + (p - b)) % n ≡ p % n = ap (λ k. k % n) (omega arith) in
    let start : (p - b) % n ≡ (b % n + (p - b)) % n = ap (λ k. k % n) (omega arith) in
    let small : (p - b) % n ≡ p - b = mod-eq_of_lt (omega arith) in omega arith

module _ (bytes : List ℕ) (n : ℕ) where
  -- All bits from `lo` up to `hi` are clear.
  abbrev pub Clear : ℕ → ℕ → Type 0
  Clear lo hi = (q : ℕ) → lo ≤ q → q < hi → clear_at bytes q ≡ true

  -- No multiple of `n` below `top` starts a run of `n` clear bits.
  abbrev pub NoRunBelow : ℕ → Type 0
  NoRunBelow top = (p : ℕ) → p % n ≡ 0 → p < top → ¬ Clear p (p + n)

  -- What a search below `hi` gives: the first aligned run of `n` clear bits, or nothing where there
  -- is none.
  abbrev pub FirstRun : ℕ → Option ℕ → Type 0
  FirstRun hi none = (p : ℕ) → p % n ≡ 0 → p + n ≤ hi → ¬ Clear p (p + n)
  FirstRun hi (some r) = (r % n ≡ 0) × (r + n ≤ hi) × Clear r (r + n) × NoRunBelow r

  -- the loop's invariant in front of bit `pos`
  abbrev Inv : ℕ → ℕ → Option ℕ → Type 0
  Inv pos zero bit = NoRunBelow pos
  Inv pos (suc f) none = ⊥
  Inv pos (suc f) (some b) =
      (b + suc f ≡ pos) × (b % n ≡ 0) × (suc f < n) × Clear b pos × NoRunBelow b

  -- what one round leaves, whether it goes on or returns
  abbrev Next : ℕ → ℕ → Scan → Type 0
  Next hi pos (going free_bits bit) = Inv (pos + 1) free_bits bit
  Next hi pos (found result) = FirstRun hi result

  extend_run : (lo pos : ℕ) → Clear lo pos → clear_at bytes pos ≡ true → Clear lo (pos + 1)
  extend_run lo pos before here q h k = elim (ℕ_discrete q pos) [
    | yes e ↦ ap (clear_at bytes) e ∙ here
    | no ne ↦ before q h (omega arith)
  ]

  single_run : (pos : ℕ) → clear_at bytes pos ≡ true → Clear pos (pos + 1)
  single_run pos here q h k = ap (clear_at bytes) {x = q} {y = pos} (omega arith) ∙ here

  extend_none :
      (pos : ℕ) → NoRunBelow pos → (pos % n ≡ 0 → ¬ Clear pos (pos + n)) → NoRunBelow (pos + 1)
  extend_none pos before here p a h = elim (ℕ_discrete p pos) [
    | yes e ↦ λ c. here (ap (λ k. k % n) (sym e) ∙ a) (subst (λ k. Clear k (k + n)) e c)
    | no ne ↦ before p a (omega arith)
  ]

  module _ (pos_n : 0 < n) (hi pos : ℕ) (room : pos < hi) where
    -- A set bit ends every run that it would lie in.
    scan_bit-set :
        (free_bits : ℕ) (bit : Option ℕ)
        → Inv pos free_bits bit
        → clear_at bytes pos ≡ false
        → Inv (pos + 1) 0 none
    scan_bit-set zero bit inv taken =
        extend_none pos inv λ a c. cc (c pos (omega arith) (omega arith))
    scan_bit-set (suc f) none inv taken = absurd inv
    scan_bit-set (suc f) (some b) (e, a, small, clear, before) taken = λ p a' h c.
        elim (dec_lt p b) [
          | yes old ↦ before p a' old c
          | no new ↦
              let same = aligned_unique n b p a a' (omega arith) (omega arith) in
              cc (c pos (omega arith) (omega arith))
        ]

    scan_bit-clear :
        (free_bits : ℕ) (bit : Option ℕ)
        → Inv pos free_bits bit
        → clear_at bytes pos ≡ true
        → Next hi pos (scan_bit n pos true free_bits bit)
    unfolding scan_bit
    scan_bit-clear zero bit inv here = elim (ℕ_discrete (pos % n) 0) [
      | yes aligned ↦ elim (dec_lt 1 n) [
        | yes long ↦
            let t : leb n 1 ≡ false = ground arith in
            let u : (pos % n == 0) ≡ true = ground arith in
            rw (u, t) (omega arith, aligned, long, single_run pos here, inv)
        | no short ↦
            let t : leb n 1 ≡ true = ground arith in
            let u : (pos % n == 0) ≡ true = ground arith in
            rw (u, t) (aligned, omega arith, λ q h k. single_run pos here q h (omega arith), inv)
      ]
      | no misaligned ↦
          let t : leb n 0 ≡ false = ground arith in
          let u : (pos % n == 0) ≡ false = ground arith in
          rw (u, t) (extend_none pos inv λ a c. misaligned a)
    ]
    scan_bit-clear (suc f) none inv here = absurd inv
    scan_bit-clear (suc f) (some b) (e, a, small, clear, before) here =
        elim (dec_lt (suc f + 1) n) [
          | yes long ↦
              let nonzero : (suc f == 0) ≡ false = ground arith in
              let t : leb n (suc f + 1) ≡ false = ground arith in
              rw (nonzero, t, add-one (suc f))
                (omega arith, a, omega arith, extend_run b pos clear here, before)
          | no full ↦
              let nonzero : (suc f == 0) ≡ false = ground arith in
              let t : leb n (suc f + 1) ≡ true = ground arith in
              rw (nonzero, t)
                (a, omega arith, λ q h k. extend_run b pos clear here q h (omega arith), before)
        ]

    round :
        (free_bits : ℕ) (bit : Option ℕ)
        → Inv pos free_bits bit
        → Next hi pos (scan_bit n pos (clear_at bytes pos) free_bits bit)
    unfolding scan_bit
    round free_bits bit inv = elim (Bool-cases (clear_at bytes pos)) [
      | inl here ↦ rw here (scan_bit-clear free_bits bit inv here)
      | inr taken ↦ rw taken (scan_bit-set free_bits bit inv taken)
    ]

  -- The invariant at the end of the buffer: no aligned run of `n` clear bits fits.
  stop : (hi free_bits : ℕ) (bit : Option ℕ) → 0 < n → Inv hi free_bits bit → FirstRun hi none
  stop hi zero bit pos_n inv = λ p a h. inv p a (omega arith)
  stop hi (suc f) none pos_n inv = absurd inv
  stop hi (suc f) (some b) pos_n (e, a, small, clear, before) = λ p a' h. before p a' (omega arith)

  find_n_from-FirstRun :
      (left hi pos free_bits : ℕ) (bit : Option ℕ)
      → 0 < n
      → pos + left ≡ hi
      → Inv pos free_bits bit
      → FirstRun hi (find_n_from bytes n left pos free_bits bit)
  unfolding find_n_from
  find_n_from-FirstRun zero hi pos free_bits bit pos_n e inv =
      stop hi free_bits bit pos_n (subst (λ k. Inv k free_bits bit) (omega arith) inv)
  find_n_from-FirstRun (suc left) hi pos free_bits bit pos_n e inv =
      after (scan_bit n pos (clear_at bytes pos) free_bits bit)
        (round pos_n hi pos (omega arith) free_bits bit inv)
        (λ f b. find_n_from-FirstRun left hi (pos + 1) f b pos_n (omega arith))
    where
      after :
          (s : Scan)
          → Next hi pos s
          → ((f : ℕ) (b : Option ℕ)
              → Inv (pos + 1) f b
              → FirstRun hi (find_n_from bytes n left (pos + 1) f b))
          → FirstRun hi (elim s [
            | going f b ↦ find_n_from bytes n left (pos + 1) f b
            | found result ↦ result
          ])
      after (going f b) inv' later = later f b inv'
      after (found result) done later = done

-- For `n` other than 0, `bitmap_find_n_free` gives the first multiple of `n` at which `n` clear bits
-- of the buffer start, and nothing exactly where the buffer has no such run.
pub find_n_free-FirstRun :
    (bmp : Bitmap) (n : ℕ)
    → 0 < n
    → FirstRun bmp.bitmap n (byte_size bmp.size * 8) (bitmap_find_n_free bmp n)
unfolding bitmap_find_n_free
find_n_free-FirstRun bmp n h =
    find_n_from-FirstRun bmp.bitmap n (byte_size bmp.size * 8) _ 0 0 none h (omega arith)
      λ p a below. absurd (omega arith)
