-- ===== src/Common/Division.antt =====
-- Positions in blocks of a given size.
use ulmeros.Common.{ℕ, ◌+◌, ◌*◌, ◌/◌, ◌%◌, ◌<◌, ◌≡◌, ap, ◌∙◌, arith}
use native.Mathlib.Nat.{
  div-add-mod', mul-add-div_right, mul-add-mod_self_right, mod-eq_of_lt, div-eq_of_lt, mod_self,
}

module _ (p n b : ℕ) (pos : 0 < b) where
  split_at : p + n ≡ p / b * b + (p % b + n)
  split_at = omega (arith, div-add-mod' p b)

  -- A position further on in the same block.
  pub same_block : p % b + n < b → ((p + n) / b ≡ p / b) × ((p + n) % b ≡ p % b + n)
  same_block h = (
    ap (λ k. k / b) split_at
        ∙ mul-add-div_right pos (p / b) (p % b + n)
        ∙ (omega (arith, div-eq_of_lt h)),
    ap (λ k. k % b) split_at ∙ mul-add-mod_self_right (p / b) b (p % b + n) ∙ mod-eq_of_lt h,
  )

  -- The position after the end of a block starts a block.
  pub next_block : p % b + n ≡ b → (p + n) % b ≡ 0
  next_block h =
      ap (λ k. k % b) (split_at ∙ ap (λ k. p / b * b + k) h)
      ∙ mul-add-mod_self_right (p / b) b b
      ∙ mod_self b
