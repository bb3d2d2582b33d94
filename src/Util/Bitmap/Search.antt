-- ===== src/Util/Bitmap/Search.antt =====
-- The two searches for clear bits.
use ulmeros.Common.{
  ℕ, zero, suc, ◌+◌, ◌*◌, ◌/◌, ◌%◌, ◌≤◌, ◌<◌, ◌≡◌, refl, ◌⊎◌, inl, inr, Bool, true, false, Option,
  none, some, List, arith, ◌==◌, Bool-cases, get_or, ◌∙◌, ap, ◌-◌,
}
use native.Mathlib.Decide.{ℕ_discrete, dec_lt}
use ulmeros.Common.Bits.{is_clear, all_set→full, is_clear-full}
use ulmeros.Util.Bitmap.{Bitmap, IsValid, byte_size, bitmap_find_free, first_clear, find_free_from}
use ulmeros.Util.Bitmap.Access.{clear_at}

-- one more number at the low end of a range
at_least :
    (p : ℕ → Bool) (lo hi : ℕ)
    → p lo ≡ false
    → ((i : ℕ) → lo + 1 ≤ i → i < hi → p i ≡ false)
    → (i : ℕ) → lo ≤ i
    → i < hi
    → p i ≡ false
at_least p lo hi here above i h k = elim (ℕ_discrete i lo) [
  | yes e ↦ ap p e ∙ here
  | no ne ↦ above i (omega arith) k
]

-- the first clear bit of a byte from `j` on, if one is there
first_clear_lem :
    (n byte j : ℕ)
    → ((i : ℕ) → j ≤ i → i < j + n → is_clear byte i ≡ false)
      ⊎ ((is_clear byte (first_clear n byte j) ≡ true)
          × (first_clear n byte j < j + n)
          × ((i : ℕ) → j ≤ i → i < first_clear n byte j → is_clear byte i ≡ false))
unfolding first_clear
first_clear_lem zero byte j = inl (λ i h k. absurd (omega arith))
first_clear_lem (suc n) byte j = elim (Bool-cases (is_clear byte j)) [
  | inl here ↦ inr (rw here here, rw here (omega arith), rw here (λ i h k. absurd (omega arith)))
  | inr not_here ↦ rw not_here (elim (first_clear_lem n byte (j + 1)) [
    | inl nowhere ↦
        inl (at_least (is_clear byte) j (j + suc n) not_here λ i h k. nowhere i h (omega arith))
    | inr (clear, below, least) ↦
        inr (clear, omega arith, at_least (is_clear byte) j _ not_here least)
  ])
]

-- What a search of the bit numbers from `lo` to `hi` gives: the least clear one, or nothing where
-- there is none.
abbrev pub LeastClear : List ℕ → ℕ → ℕ → Option ℕ → Type 0
LeastClear bytes lo hi none = (p : ℕ) → lo ≤ p → p < hi → clear_at bytes p ≡ false
LeastClear bytes lo hi (some r) =
    (lo ≤ r)
    × (r < hi)
    × (clear_at bytes r ≡ true)
    × ((p : ℕ) → lo ≤ p → p < r → clear_at bytes p ≡ false)

-- a bit number, read as a byte and a place in it
clear_at_place :
    (bytes : List ℕ) (i j p : ℕ)
    → p ≡ i * 8 + j
    → j < 8
    → clear_at bytes p ≡ is_clear (get_or bytes i 0) j
clear_at_place bytes i j p e h =
    let q : p / 8 ≡ i = omega arith in let r : p % 8 ≡ j = omega arith in cc

-- a full byte in front of the range searched
skip_full :
    (bytes : List ℕ) (i hi : ℕ) (o : Option ℕ)
    → get_or bytes i 0 ≡ 255
    → LeastClear bytes ((i + 1) * 8) hi o
    → LeastClear bytes (i * 8) hi o
skip_full bytes i hi o e = go o
  where
    full : (p : ℕ) → i * 8 ≤ p → p < (i + 1) * 8 → clear_at bytes p ≡ false
    full p h k =
        clear_at_place bytes i (p - i * 8) p (omega arith) (omega arith)
        ∙ rw e (is_clear-full (p - i * 8) (omega arith))

    join :
        (top : ℕ)
        → ((p : ℕ) → (i + 1) * 8 ≤ p → p < top → clear_at bytes p ≡ false)
        → (p : ℕ) → i * 8 ≤ p
        → p < top
        → clear_at bytes p ≡ false
    join top above p h k = elim (dec_lt p ((i + 1) * 8)) [
      | yes near ↦ full p h near
      | no far ↦ above p (omega arith) k
    ]

    go : (o : Option ℕ) → LeastClear bytes ((i + 1) * 8) hi o → LeastClear bytes (i * 8) hi o
    go none above = join hi above
    go (some r) (a, b, c, d) = (omega arith, b, c, join r d)

find_free_from_lem :
    (bytes : List ℕ) (n i hi : ℕ)
    → ((k : ℕ) → get_or bytes k 0 < 256)
    → hi ≡ (i + n) * 8
    → LeastClear bytes (i * 8) hi (find_free_from bytes n i)
unfolding find_free_from
find_free_from_lem bytes zero i hi small e = λ p h k. absurd (omega arith)
find_free_from_lem bytes (suc n) i hi small e = elim (Bool-cases (get_or bytes i 0 == 255)) [
  | inl full ↦ rw full (
      skip_full bytes i hi _ (ground arith)
        (find_free_from_lem bytes n (i + 1) hi small (omega arith)))
  | inr room ↦ rw room (elim (first_clear_lem 8 (get_or bytes i 0) 0) [
    | inl nowhere ↦
        let full =
          all_set→full (get_or bytes i 0) (small i) λ j h. nowhere j (omega arith) (omega arith) in
        absurd (ground arith)
    | inr (clear, below, least) ↦ (
      omega arith,
      omega arith,
      clear_at_place bytes i (first_clear 8 (get_or bytes i 0) 0) _ refl below ∙ clear,
      λ p h k.
          clear_at_place bytes i (p - i * 8) p (omega arith) (omega arith)
          ∙ least (p - i * 8) (omega arith) (omega arith),
    )
  ])
]

-- On a well-formed map `bitmap_find_free` gives the least bit number of the buffer whose bit is
-- clear, and nothing exactly where no bit of the buffer is clear.
pub find_free-LeastClear :
    {bmp : Bitmap}
    → IsValid bmp
    → LeastClear bmp.bitmap 0 (byte_size bmp.size * 8) (bitmap_find_free bmp)
unfolding bitmap_find_free
find_free-LeastClear {bmp} v =
    find_free_from_lem bmp.bitmap (byte_size bmp.size) 0 _ v.bytes (omega arith)
