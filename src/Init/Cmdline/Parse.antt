-- ===== src/Init/Cmdline/Parse.antt =====
-- Parsing a command line gives the parameters it was written from.
use ulmeros.Common.{
  ℕ, suc, ◌+◌, ◌<◌, ◌≡◌, refl, sym, ap, ◌∙◌, true, false, List, [], ◌∷◌, ◌++◌, ◌==◌, leb, length,
  arith,
}
use ulmeros.Common.Outcome.{ok}
use ulmeros.Init.Cmdline.{Param, c_string, equals_sign, space, parse_from, cmdline_parse}

-- Every character satisfies neither test, and no character is NUL.
abbrev pub Avoids : ℕ → List ℕ → Type 0
Avoids stop [] = Unit {0}
Avoids stop (c ∷ cs) = ((c == 0) ≡ false) × ((c == stop) ≡ false) × Avoids stop cs

-- A name without `=`, a value without a space, and both short enough for their buffers.
pub record IsWritable (p : Param) : Type 0 where
  pub name : Avoids equals_sign p.name
  pub value : Avoids space p.value
  pub name_short : length p.name < 32
  pub value_short : length p.value < 32

abbrev pub AreWritable : List Param → Type 0
AreWritable [] = Unit
AreWritable (p ∷ ps) = IsWritable p × AreWritable ps

-- the command line of a parameter and those after it, `name=value name=value`
pub write : Param → List Param → List ℕ
write p [] = p.name ++ equals_sign ∷ (p.value ++ 0 ∷ [])
write p (q ∷ ps) = p.name ++ equals_sign ∷ (p.value ++ space ∷ write q ps)

append_assoc : (xs ys zs : List ℕ) → (xs ++ ys) ++ zs ≡ xs ++ (ys ++ zs)
append_assoc [] ys zs = refl
append_assoc (x ∷ xs) ys zs = ap (λ k. x ∷ k) (append_assoc xs ys zs)

append_nil : (xs : List ℕ) → xs ++ [] ≡ xs
append_nil [] = refl
append_nil (x ∷ xs) = ap (λ k. x ∷ k) (append_nil xs)

length-snoc : (xs : List ℕ) (c : ℕ) → length (xs ++ c ∷ []) ≡ suc (length xs)
length-snoc [] c = refl
length-snoc (x ∷ xs) c = ap suc (length-snoc xs c)

c_string_lem : (xs : List ℕ) (stop : ℕ) → Avoids stop xs → c_string xs ≡ xs
unfolding c_string
c_string_lem [] stop a = refl
c_string_lem (x ∷ xs) stop (n, s, a) = rw n (ap (λ k. x ∷ k) (c_string_lem xs stop a))

-- The name is read up to the `=`.
read_name :
    (n name value rest : List ℕ) (args : List Param)
    → Avoids equals_sign n
    → length name + length n < 32
    → parse_from false name value (n ++ equals_sign ∷ rest) args
      ≡ parse_from true (name ++ n) value rest args
unfolding parse_from
read_name [] name value rest args a h =
    let room : leb 32 (length name) ≡ false = ground arith in
    rw (parse_from, room) (ap (λ k. parse_from true k value rest args) (sym (append_nil name)))
read_name (c ∷ n) name value rest args (z, s, a) h =
    let room : leb 32 (length name) ≡ false = ground arith in
    rw (parse_from, room, s)
      (read_name n (name ++ c ∷ []) value rest args a (omega (arith, length-snoc name c))
        ∙ ap (λ k. parse_from true k value rest args) (append_assoc name (c ∷ []) n))

-- The value is read up to the character after it.
read_value :
    (v name value rest : List ℕ) (args : List Param) (stop : ℕ)
    → Avoids space v
    → length value + length v < 32
    → parse_from true name value (v ++ stop ∷ rest) args
      ≡ parse_from true name (value ++ v) (stop ∷ rest) args
unfolding parse_from
read_value [] name value rest args stop a h =
    ap (λ k. parse_from true name k (stop ∷ rest) args) (sym (append_nil value))
read_value (c ∷ v) name value rest args stop (z, s, a) h =
    let room : leb 32 (length value) ≡ false = ground arith in
    rw (parse_from, room, z, s)
      (read_value v name (value ++ c ∷ []) rest args stop a (omega (arith, length-snoc value c))
        ∙ ap (λ k. parse_from true name k (stop ∷ rest) args) (append_assoc value (c ∷ []) v))

module _ (p : Param) (w : IsWritable p) (rest : List ℕ) (args : List Param) where
  whole_name : c_string p.name ≡ p.name
  whole_name = c_string_lem p.name equals_sign w.name

  room : leb 32 (length p.value) ≡ false
  room = ground (arith, w.value_short)

  read_end : parse_from true p.name p.value (0 ∷ rest) args ≡ ok (args ++ p ∷ [])
  unfolding parse_from
  read_end = rw (parse_from, room, whole_name)

  read_space :
      parse_from true p.name p.value (space ∷ rest) args
      ≡ parse_from false [] [] rest (args ++ p ∷ [])
  unfolding parse_from
  read_space = rw (parse_from, room, whole_name)

  -- one parameter, and the character after it
  read_param :
      (stop : ℕ)
      → parse_from false [] [] (p.name ++ equals_sign ∷ (p.value ++ stop ∷ rest)) args
        ≡ parse_from true p.name p.value (stop ∷ rest) args
  read_param stop =
      read_name p.name [] [] (p.value ++ stop ∷ rest) args w.name (omega (arith, w.name_short))
      ∙ read_value p.value p.name [] rest args stop w.value (omega (arith, w.value_short))

args_assoc : (xs : List Param) (p : Param) (ps : List Param) → (xs ++ p ∷ []) ++ ps ≡ xs ++ p ∷ ps
args_assoc [] p ps = refl
args_assoc (x ∷ xs) p ps = ap (λ k. x ∷ k) (args_assoc xs p ps)

parse-write :
    (p : Param) (ps args : List Param)
    → IsWritable p
    → AreWritable ps
    → parse_from false [] [] (write p ps) args ≡ ok (args ++ p ∷ ps)
unfolding write
parse-write p [] args w ws = read_param p w [] args 0 ∙ read_end p w [] args
parse-write p (q ∷ ps) args w (u, ws) =
    read_param p w (write q ps) args space
    ∙ read_space p w (write q ps) args
    ∙ parse-write q ps (args ++ p ∷ []) u ws
    ∙ ap ok (args_assoc args p (q ∷ ps))

-- A command line of one parameter or more, written `name=value` with spaces between, is parsed to
-- these parameters in their order, if no name has an `=`, no value a space, none of them a NUL, and
-- each is at most 31 characters long.
pub cmdline_parse-write :
    (p : Param) (ps : List Param)
    → IsWritable p
    → AreWritable ps
    → cmdline_parse (write p ps) ≡ ok (p ∷ ps)
unfolding cmdline_parse
cmdline_parse-write p ps w ws = parse-write p ps [] w ws
