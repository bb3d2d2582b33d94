-- ===== src/Util/Bitmap/Access.antt =====
-- Reading one bit of the map after writing another, and the invariant.
use ulmeros.Common.{
  ℕ, zero, suc, ◌*◌, ◌/◌, ◌%◌, ◌≤◌, ◌<◌, ◌≡◌, refl, Bool, true, false, not, List, arith, lt→ltb,
  ◌==◌, if◌then◌else◌, length, get_or, set, length-set, get_or-set_self, get_or-set_ne, ◌∙◌, ap,
  length-replicate, replicate, get_or-replicate,
}
use ulmeros.Common.Bits.{
  is_clear, set_bit, clr_bit, is_clear-set_bit, is_clear-clr_bit, bytes_stay, is_clear-full,
}
use ulmeros.Common.Outcome.{Outcome, ok, panic}
use native.Mathlib.Decide.{ℕ_discrete}
use ulmeros.Util.Bitmap.{
  Bitmap, IsValid, byte_size, update_byte, bitmap_init, bitmap_get, bitmap_set, bitmap_clr,
}

-- whether bit number `pos` of the buffer is clear
abbrev pub clear_at : List ℕ → ℕ → Bool
clear_at bytes pos = is_clear (get_or bytes (pos / 8) 0) (pos % 8)

-- The byte of an index below the size lies in the buffer.
pub byte_in_buffer : (size i : ℕ) → i < size → i / 8 < byte_size size
unfolding byte_size
byte_in_buffer size i h = ground arith

get_or-set {ℓ} :
    {A : Type ℓ} (xs : List A) (i j : ℕ) (v d : A)
    → i < length xs
    → get_or (set xs i v) j d ≡ (if i == j then v else get_or xs j d)
get_or-set xs i j v d h = elim (ℕ_discrete i j) [
  | yes e ↦ ground (arith, get_or-set_self xs i v d h, ap (λ k. get_or (set xs i v) k d) e)
  | no ne ↦ ground (arith, get_or-set_ne xs i j v d ne)
]

-- `op` changes bit `i` of a byte to `c` and keeps it a byte.
abbrev Writes : (ℕ → ℕ → ℕ) → Bool → Type 0
Writes op c =
    (b i j : ℕ)
    → b < 256
    → i < 8
    → j < 8
    → (is_clear (op b i) j ≡ (if i == j then c else is_clear b j)) × (op b i < 256)

set_bit-Writes : Writes set_bit false
set_bit-Writes b i j hb hi hj = (is_clear-set_bit b i j hb hi hj, (bytes_stay b i hb hi).0)

clr_bit-Writes : Writes clr_bit true
clr_bit-Writes b i j hb hi hj = (is_clear-clr_bit b i j hb hi hj, (bytes_stay b i hb hi).1)

module _ (op : ℕ → ℕ → ℕ) (c : Bool) (w : Writes op c) (bmp : Bitmap) (v : IsValid bmp) where
  update_byte-IsValid : (i : ℕ) → i < bmp.size → IsValid (update_byte op bmp i)
  update_byte-IsValid i h = record {
    buffer = length-set bmp.bitmap (i / 8) _ ∙ v.buffer;
    bytes = λ k. ground (
      arith,
      get_or-set bmp.bitmap (i / 8) k (op (get_or bmp.bitmap (i / 8) 0) (i % 8)) 0,
      byte_in_buffer bmp.size i h,
      v.buffer,
      v.bytes k,
      v.bytes (i / 8),
      (w (get_or bmp.bitmap (i / 8) 0) (i % 8) 0 (v.bytes (i / 8)) (omega arith) (omega arith)).1,
    );
  }

  clear_at-update_byte :
      (i j : ℕ)
      → i < bmp.size
      → clear_at (update_byte op bmp i).bitmap j ≡ (if i == j then c else clear_at bmp.bitmap j)
  clear_at-update_byte i j h =
      let byte = get_or bmp.bitmap (i / 8) 0 in
      let here = byte_in_buffer bmp.size i h in
      let there =
        get_or-set bmp.bitmap (i / 8) (j / 8) (op byte (i % 8)) 0 (omega (arith, v.buffer)) in
      elim (ℕ_discrete (i / 8) (j / 8)) [
        | yes e ↦ ground (
          arith,
          there,
          ap (λ k. get_or bmp.bitmap k 0) e,
          (w byte (i % 8) (j % 8) (v.bytes (i / 8)) (omega arith) (omega arith)).0,
        )
        | no ne ↦ ground (arith, there)
      ]

-- `out` is the map `bmp` with bit `i` turned clear (`c`) or set, and with no other change.
abbrev pub Marks : Bitmap → ℕ → Bool → Outcome Bitmap → Type 0
Marks bmp i c out =
    (bmp' : Bitmap) × (out ≡ ok bmp')
    × IsValid bmp'
    × (bmp'.size ≡ bmp.size)
    × ((j : ℕ) → clear_at bmp'.bitmap j ≡ (if i == j then c else clear_at bmp.bitmap j))

-- The same by what `bitmap_get` reads.
abbrev pub Wrote : Bitmap → ℕ → Bool → Outcome Bitmap → Type 0
Wrote bmp i value out =
    (bmp' : Bitmap) × (out ≡ ok bmp')
    × IsValid bmp'
    × (bmp'.size ≡ bmp.size)
    × ((j : ℕ) → bitmap_get bmp' j ≡ (if i == j then ok value else bitmap_get bmp j))

module _ {bmp : Bitmap} (v : IsValid bmp) (i : ℕ) (h : i < bmp.size) where
  pub set-Marks : Marks bmp i false (bitmap_set bmp i)
  unfolding bitmap_set
  set-Marks = (
    update_byte set_bit bmp i,
    rw (lt→ltb i bmp.size h),
    update_byte-IsValid set_bit false set_bit-Writes bmp v i h,
    refl,
    λ j. clear_at-update_byte set_bit false set_bit-Writes bmp v i j h,
  )

  pub clr-Marks : Marks bmp i true (bitmap_clr bmp i)
  unfolding bitmap_clr
  clr-Marks = (
    update_byte clr_bit bmp i,
    rw (lt→ltb i bmp.size h),
    update_byte-IsValid clr_bit true clr_bit-Writes bmp v i h,
    refl,
    λ j. clear_at-update_byte clr_bit true clr_bit-Writes bmp v i j h,
  )

  Marks→Wrote : (c : Bool) (out : Outcome Bitmap) → Marks bmp i c out → Wrote bmp i (not c) out
  unfolding bitmap_get
  Marks→Wrote c out (bmp', e, v', same, law) = (bmp', e, v', same, λ j. ground (arith, law j))

  -- `bitmap_set` on a well-formed map, at an index within its size, succeeds, keeps the map well
  -- formed and of the same size, makes `bitmap_get` read 1 there, and changes no other read.
  pub get-set : Wrote bmp i true (bitmap_set bmp i)
  get-set = Marks→Wrote false (bitmap_set bmp i) set-Marks

  -- `bitmap_clr` on a well-formed map, at an index within its size, succeeds, keeps the map well
  -- formed and of the same size, makes `bitmap_get` read 0 there, and changes no other read.
  pub get-clr : Wrote bmp i false (bitmap_clr bmp i)
  get-clr = Marks→Wrote true (bitmap_clr bmp i) clr-Marks

-- Every access at or past the size panics.
pub out_of_bounds :
    (bmp : Bitmap) (i : ℕ)
    → bmp.size ≤ i
    → (bitmap_get bmp i ≡ panic) × (bitmap_set bmp i ≡ panic) × (bitmap_clr bmp i ≡ panic)
unfolding bitmap_get bitmap_set bitmap_clr
out_of_bounds bmp i h = ground arith

get_or-replicate_lt : (n i a b : ℕ) → a < b → 0 < b → get_or (replicate n a) i 0 < b
get_or-replicate_lt zero i a b h z = z
get_or-replicate_lt (suc n) zero a b h z = h
get_or-replicate_lt (suc n) (suc i) a b h z = get_or-replicate_lt n i a b h z

pub bitmap_init-IsValid : (size value : ℕ) → IsValid (bitmap_init size value)
unfolding bitmap_init
bitmap_init-IsValid size value = record {
  buffer = length-replicate (byte_size size) (value % 256);
  bytes = λ i. get_or-replicate_lt (byte_size size) i (value % 256) 256 (omega arith) (omega arith);
}

-- A bitmap of bytes 0xff has no clear bit.
pub clear_at-init :
    (size i : ℕ) → i < byte_size size * 8 → clear_at (bitmap_init size 0xff).bitmap i ≡ false
unfolding bitmap_init
clear_at-init size i h =
    ap (λ b. is_clear b (i % 8)) (get_or-replicate (byte_size size) (i / 8) 255 0 (omega arith))
    ∙ is_clear-full (i % 8) (omega arith)

-- `bitmap_get` within the size reads `clear_at`.
pub get-clear_at :
    (bmp : Bitmap) (i : ℕ) → i < bmp.size → bitmap_get bmp i ≡ ok (not (clear_at bmp.bitmap i))
unfolding bitmap_get
get-clear_at bmp i h = rw (lt→ltb i bmp.size h)
