-- ===== src/Util/Bitmap.antt =====
-- kernel/libutil/bitmap.c and include/util/bitmap.h: a set of numbers below `size`, one bit each.
-- A byte is a number below 256. A read past the buffer gives 0 and a write there nothing;
-- `IsValid` says that the buffer holds every byte that `size` asks for, so neither happens.
pub mod Access
pub mod Search
pub mod Run
mod Tests
use ulmeros.Common.{
  ℕ, zero, suc, ◌+◌, ◌*◌, ◌/◌, ◌%◌, ◌≤◌, ◌<◌, ◌≡◌, Bool, not, Option, none, some, List, ltb, leb,
  ◌==◌, if◌then◌else◌, length, get_or, set, replicate,
}
use ulmeros.Common.Bits.{is_clear, set_bit, clr_bit}
use ulmeros.Common.Outcome.{Outcome, ok, ◌>>=◌, ◌>>◌, assert}

pub record Bitmap : Type 0 where
  pub size : ℕ
  pub bitmap : List ℕ

-- `BITMAP_BYTE_SIZE(b)`
unfoldable pub byte_size : ℕ → ℕ
byte_size b = if b % 8 == 0 then b / 8 else b / 8 + 1

pub record IsValid (bmp : Bitmap) : Type 0 where
  pub buffer : length bmp.bitmap ≡ byte_size bmp.size
  pub bytes : (i : ℕ) → get_or bmp.bitmap i 0 < 256

-- `kmalloc` gives a new buffer, and `memset` writes the low byte of its argument.
unfoldable pub bitmap_init : ℕ → ℕ → Bitmap
bitmap_init size value = record { size = size; bitmap = replicate (byte_size size) (value % 256) }

pub bitmap_get : Bitmap → ℕ → Outcome Bool
bitmap_get bmp index = do
  assert (ltb index bmp.size)
  ok (not (is_clear (get_or bmp.bitmap (index / 8) 0) (index % 8)))

-- the assignment `bmp->bitmap[byte] = op(bmp->bitmap[byte], bit)`
abbrev update_byte : (ℕ → ℕ → ℕ) → Bitmap → ℕ → Bitmap
update_byte op bmp index = record bmp {
  bitmap = set bmp.bitmap (index / 8) (op (get_or bmp.bitmap (index / 8) 0) (index % 8));
}

pub bitmap_set : Bitmap → ℕ → Outcome Bitmap
bitmap_set bmp index = do assert (ltb index bmp.size); ok (update_byte set_bit bmp index)

pub bitmap_clr : Bitmap → ℕ → Outcome Bitmap
bitmap_clr bmp index = do assert (ltb index bmp.size); ok (update_byte clr_bit bmp index)

-- the loop over `j`: the bits left to try and the next one; a byte with no clear bit gives 0
first_clear : ℕ → ℕ → ℕ → ℕ
first_clear zero byte j = 0
first_clear (suc n) byte j = if is_clear byte j then j else first_clear n byte (j + 1)

-- the loop over `i`: the bytes left to try and the next one
find_free_from : List ℕ → ℕ → ℕ → Option ℕ
find_free_from bytes zero i = none
find_free_from bytes (suc n) i =
    let rest = find_free_from bytes n (i + 1) in
    let byte = get_or bytes i 0 in if byte == 255 then rest else some (i * 8 + first_clear 8 byte 0)

-- `none` stands for `(size_t)-1`.
pub bitmap_find_free : Bitmap → Option ℕ
bitmap_find_free bmp = find_free_from bmp.bitmap (byte_size bmp.size) 0

-- `free_bits` and `bit` (`none` for `(size_t)-1`), or the value that the function returns
pub data Scan : Type 0 where
  going : ℕ → Option ℕ → Scan
  found : Option ℕ → Scan

-- The body of the inner loop at the bit number `pos`, with whether that bit is clear.
scan_bit : ℕ → ℕ → Bool → ℕ → Option ℕ → Scan
scan_bit n pos clear free_bits bit =
    if clear
    then (if free_bits == 0
        then (if pos % n == 0
            then (if leb n 1 then found (some pos) else going 1 (some pos))
            else (if leb n 0 then found bit else going 0 bit))
        else (if leb n (free_bits + 1) then found bit else going (free_bits + 1) bit))
    else going 0 none

-- Both loops, as one walk over the bit numbers from `pos` on.
find_n_from : List ℕ → ℕ → ℕ → ℕ → ℕ → Option ℕ → Option ℕ
find_n_from bytes n zero pos free_bits bit = none
find_n_from bytes n (suc left) pos free_bits bit =
    elim (scan_bit n pos (is_clear (get_or bytes (pos / 8) 0) (pos % 8)) free_bits bit) [
      | going free_bits' bit' ↦ find_n_from bytes n left (pos + 1) free_bits' bit'
      | found result ↦ result
    ]

-- `n` is not 0: the source divides by it.
pub bitmap_find_n_free : Bitmap → ℕ → Option ℕ
bitmap_find_n_free bmp n = find_n_from bmp.bitmap n (byte_size bmp.size * 8) 0 0 none
