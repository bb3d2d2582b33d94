-- ===== src/Common/Words.antt =====
-- Numbers read out of bytes, the lowest byte first.
use ulmeros.Common.{ℕ, ◌+◌, ◌*◌, ◌^◌}

abbrev pub word16 : (ℕ → ℕ) → ℕ → ℕ
word16 b i = b i + 2 ^ 8 * b (i + 1)

abbrev pub word32 : (ℕ → ℕ) → ℕ → ℕ
word32 b i = word16 b i + 2 ^ 16 * word16 b (i + 2)

abbrev pub word64 : (ℕ → ℕ) → ℕ → ℕ
word64 b i = word32 b i + 2 ^ 32 * word32 b (i + 4)
