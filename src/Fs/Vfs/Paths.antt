-- ===== src/Fs/Vfs/Paths.antt =====
-- Paths as the names between their slashes, which is how kernel/kernel/fs/ffind.c takes them apart.
use ulmeros.Common.{
  ℕ, ◌≤◌, ◌≡◌, ◌≢◌, refl, true, false, List, [], ◌∷◌, ◌++◌, length, length-append, ◌==◌, arith,
}
use ulmeros.Fs.Vfs.{split_name, ended}

abbrev pub NoSlash : List ℕ → Type 0
NoSlash [] = Unit {0}
NoSlash (c ∷ cs) = (c ≢ b'/') × NoSlash cs

-- A name that a path can have between two slashes: not empty, and as long as an entry can hold.
pub record IsName (n : List ℕ) : Type 0 where
  pub no_slash : NoSlash n
  pub some_char : ended n ≡ false
  pub short : length n ≤ 255

abbrev pub AllNames : List (List ℕ) → Type 0
AllNames [] = Unit {0}
AllNames (n ∷ ns) = IsName n × AllNames ns

-- a name, and the names that follow it
abbrev pub join : List ℕ → List (List ℕ) → List ℕ
join n [] = n
join n (m ∷ ms) = n ++ b'/' ∷ join m ms

pub ne-slash : (c : ℕ) → c ≢ b'/' → (c == b'/') ≡ false
ne-slash c h = ground arith

pub split_name-last : (n : List ℕ) → NoSlash n → split_name n ≡ (n, [], false)
unfolding split_name
split_name-last [] s = refl
split_name-last (c ∷ cs) (h, s) = rw (ne-slash c h, split_name-last cs s)

pub split_name-slash :
    (n rest : List ℕ) → NoSlash n → split_name (n ++ b'/' ∷ rest) ≡ (n, rest, true)
unfolding split_name
split_name-slash [] rest s = refl
split_name-slash (c ∷ cs) rest (h, s) = rw (ne-slash c h, split_name-slash cs rest s)

pub join-ended : (n : List ℕ) (ns : List (List ℕ)) → ended n ≡ false → ended (join n ns) ≡ false
join-ended n [] h = h
join-ended [] (m ∷ ms) h = cc
join-ended (c ∷ cs) (m ∷ ms) h = refl

pub join-length : (n : List ℕ) (ns : List (List ℕ)) → length ns ≤ length (join n ns)
join-length n [] = omega arith
join-length n (m ∷ ms) = omega (arith, length-append n (b'/' ∷ join m ms), join-length m ms)
