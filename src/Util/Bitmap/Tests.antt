-- ===== src/Util/Bitmap/Tests.antt =====
-- Runs of the bitmap at small inputs, and its theorems at them.
use ulmeros.Common.{ℕ, zero, suc, ◌<◌, ◌≡◌, refl, true, false, some, [], ◌∷◌, arith, ◌*◌, get_or}
use ulmeros.Common.Bits.{is_clear}
use ulmeros.Common.Outcome.{ok, panic}
use ulmeros.Util.Bitmap.{
  Bitmap, IsValid, byte_size, bitmap_get, bitmap_set, bitmap_clr, bitmap_find_free,
  bitmap_find_n_free, find_free_from, first_clear, find_n_from, scan_bit,
}
use ulmeros.Util.Bitmap.Access.{Wrote, get-set, get-clr}
use ulmeros.Util.Bitmap.Search.{LeastClear, find_free-LeastClear}
use ulmeros.Util.Bitmap.Run.{FirstRun, find_n_free-FirstRun}

-- bits 0 to 8 and 11 are set, of twenty
abbrev twenty : Bitmap
twenty = record { size = 20; bitmap = 0xff ∷ 0x09 ∷ 0 ∷ [] }

twenty-IsValid : IsValid twenty
unfolding byte_size
twenty-IsValid = record { buffer = refl; bytes = bytes }
  where
    bytes : (i : ℕ) → get_or (0xff ∷ 0x09 ∷ 0 ∷ []) i 0 < 256
    bytes zero = omega arith
    bytes (suc zero) = omega arith
    bytes (suc (suc zero)) = omega arith
    bytes (suc (suc (suc i))) = omega arith

get_bits :
    (bitmap_get twenty 8 ≡ ok true)
    × (bitmap_get twenty 9 ≡ ok false)
    × (bitmap_get twenty 20 ≡ panic)
unfolding bitmap_get is_clear
get_bits = (refl, refl, refl)

find_first : bitmap_find_free twenty ≡ some 9
unfolding bitmap_find_free find_free_from first_clear is_clear byte_size
find_first = refl

find_aligned : bitmap_find_n_free twenty 4 ≡ some 12
unfolding bitmap_find_n_free find_n_from scan_bit is_clear byte_size
find_aligned = refl

ten_set : Wrote twenty 10 true (bitmap_set twenty 10)
ten_set = get-set twenty-IsValid 10 (omega arith)

eleven_cleared : Wrote twenty 11 false (bitmap_clr twenty 11)
eleven_cleared = get-clr twenty-IsValid 11 (omega arith)

twenty-LeastClear : LeastClear twenty.bitmap 0 (byte_size twenty.size * 8) (bitmap_find_free twenty)
twenty-LeastClear = find_free-LeastClear twenty-IsValid

find_n_free-FirstRun_example :
    FirstRun twenty.bitmap 4 (byte_size twenty.size * 8) (bitmap_find_n_free twenty 4)
find_n_free-FirstRun_example = find_n_free-FirstRun twenty 4 (omega arith)
