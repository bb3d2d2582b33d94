-- ===== src/Common/Bits.antt =====
-- Single bits of a byte, read and written by the native bit operations. The laws hold by
-- evaluation at every byte and every position.
use Prim.Native.Nat.{bit_and, bit_or}
use native.Mathlib.Decide.{ℕ_discrete}
use ulmeros.Common.{
  ap, ◌∙◌, ℕ, zero, suc, ◌-◌, ◌^◌, ◌<◌, ◌≡◌, refl, Bool, true, false, ◌&&◌, ◌||◌, arith, ltb, ◌==◌,
  if◌then◌else◌, not,
}

-- `BIT(x)`, util/types.h
abbrev pub bit : ℕ → ℕ
bit x = 2 ^ x

-- `(byte & BIT(j)) == 0`
unfoldable pub is_clear : ℕ → ℕ → Bool
is_clear byte j = bit_and byte (bit j) == 0

-- `byte | BIT(j)` on an uint8_t
unfoldable pub set_bit : ℕ → ℕ → ℕ
set_bit byte j = bit_or byte (bit j)

-- `byte & ~BIT(j)` on an uint8_t
unfoldable pub clr_bit : ℕ → ℕ → ℕ
clr_bit byte j = bit_and byte (255 - bit j)

-- whether the test holds at every number under the bound
every : (ℕ → Bool) → ℕ → Bool
every test zero = true
every test (suc last) = every test last && test last

every_at : (test : ℕ → Bool) (bound i : ℕ) → i < bound → every test bound ≡ true → test i ≡ true
unfolding every
every_at test zero i under all = absurd (omega arith)
every_at test (suc last) i under all = elim (ℕ_discrete i last) [
  | yes at_end ↦ ap test at_end ∙ (ground arith)
  | no before ↦ every_at test last i (omega arith) (ground arith)
]

infix 40 ◌<=>◌
abbrev ◌<=>◌ : Bool → Bool → Bool
true <=> b = b
false <=> b = not b

eq_of_iff : (a b : Bool) → (a <=> b) ≡ true → a ≡ b
eq_of_iff a b h = ground arith

-- what `set_bit` and `clr_bit` do to one byte, seen at bit `j`
abbrev set_law : ℕ → ℕ → ℕ → Bool
set_law b i j = is_clear (set_bit b i) j <=> (if i == j then false else is_clear b j)

abbrev clr_law : ℕ → ℕ → ℕ → Bool
clr_law b i j = is_clear (clr_bit b i) j <=> (if i == j then true else is_clear b j)

abbrev everywhere : (ℕ → ℕ → ℕ → Bool) → Bool
everywhere p = every (λ b. every (λ i. every (λ j. p b i j) 8) 8) 256

everywhere_sound :
    (p : ℕ → ℕ → ℕ → Bool) (b i j : ℕ)
    → everywhere p ≡ true
    → b < 256
    → i < 8
    → j < 8
    → p b i j ≡ true
everywhere_sound p b i j h hb hi hj = every_at _ 8 j hj (every_at _ 8 i hi (every_at _ 256 b hb h))

set_table : everywhere set_law ≡ true
unfolding every is_clear set_bit
set_table = refl

clr_table : everywhere clr_law ≡ true
unfolding every is_clear clr_bit
clr_table = refl

module _ (b i j : ℕ) (hb : b < 256) (hi : i < 8) (hj : j < 8) where
  pub is_clear-set_bit : is_clear (set_bit b i) j ≡ (if i == j then false else is_clear b j)
  is_clear-set_bit = eq_of_iff _ _ (everywhere_sound set_law b i j set_table hb hi hj)

  pub is_clear-clr_bit : is_clear (clr_bit b i) j ≡ (if i == j then true else is_clear b j)
  is_clear-clr_bit = eq_of_iff _ _ (everywhere_sound clr_law b i j clr_table hb hi hj)

abbrev byte_law : ℕ → ℕ → Bool
byte_law b i = ltb (set_bit b i) 256 && ltb (clr_bit b i) 256

bytes_table : every (λ b. every (byte_law b) 8) 256 ≡ true
unfolding every set_bit clr_bit
bytes_table = refl

pub bytes_stay : (b i : ℕ) → b < 256 → i < 8 → (set_bit b i < 256) × (clr_bit b i < 256)
bytes_stay b i hb hi =
    ground (arith, every_at (byte_law b) 8 i hi (every_at _ 256 b hb bytes_table))

-- a byte other than 0xff has a clear bit
abbrev clear_law : ℕ → Bool
clear_law b = (b == 255) || not (every (λ i. not (is_clear b i)) 8)

clear_table : every clear_law 256 ≡ true
unfolding every is_clear
clear_table = refl

pub all_set→full : (b : ℕ) → b < 256 → ((i : ℕ) → i < 8 → is_clear b i ≡ false) → b ≡ 255
unfolding every
all_set→full b hb h =
    ground (arith, every_at clear_law 256 b hb clear_table, h 0, h 1, h 2, h 3, h 4, h 5, h 6, h 7)

full_table : every (λ k. not (is_clear 255 k)) 8 ≡ true
unfolding every is_clear
full_table = refl

pub is_clear-full : (i : ℕ) → i < 8 → is_clear 255 i ≡ false
is_clear-full i h = ground (arith, every_at (λ (k : ℕ). not (is_clear 255 k)) 8 i h full_table)
