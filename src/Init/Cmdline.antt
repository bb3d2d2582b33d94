-- ===== src/Init/Cmdline.antt =====
-- kernel/kernel/init/cmdline.c: the parameters of the kernel's command line. Strings are lists of
-- character codes, the command line with the NUL that ends it.
pub mod Parse
mod Tests
use ulmeros.Common.{
  ℕ, zero, suc, ◌+◌, ◌≡◌, Bool, true, false, Option, none, some, List, [], ◌∷◌, ◌++◌, ◌==◌, ◌||◌,
  ◌&&◌, leb, if◌then◌else◌, length,
}
use ulmeros.Common.Outcome.{Outcome, ok, fault}

-- `cmdline_param_t`, the two strings
pub record Param : Type 0 where
  pub name : List ℕ
  pub value : List ℕ

-- the string in a buffer: up to the first NUL
pub c_string : List ℕ → List ℕ
c_string [] = []
c_string (c ∷ cs) = let rest = c_string cs in if c == 0 then [] else c ∷ rest

-- The buffers of `param` are 32 bytes. A write past the end of one is a fault here.
abbrev pub is_full : List ℕ → Bool
is_full buffer = leb 32 (length buffer)

abbrev pub equals_sign : ℕ
equals_sign = 61

abbrev pub space : ℕ
space = 32

-- `while (true)`: `in_value` is the mode, and reading past the NUL a fault
parse_from : (in_value : Bool) (name value : List ℕ) → List ℕ → List Param → Outcome (List Param)
unfolding c_string
parse_from in_value name value [] args = fault
parse_from false name value (c ∷ cs) args = elim (is_full name) [
  | true ↦ fault
  | false ↦ elim (c == equals_sign) [
    | true ↦ parse_from true name value cs args
    | false ↦ parse_from false (name ++ c ∷ []) value cs args
  ]
]
parse_from true name value (c ∷ cs) args = elim (is_full value) [
  | true ↦ fault
  | false ↦ elim (c == 0) [
    | true ↦ ok (args ++ record { name = c_string name; value = value } ∷ [])
    | false ↦ elim (c == space) [
      | true ↦
          parse_from false [] [] cs (args ++ record { name = c_string name; value = value } ∷ [])
      | false ↦ parse_from true name (value ++ c ∷ []) cs args
    ]
  ]
]

pub cmdline_parse : List ℕ → Outcome (List Param)
unfolding parse_from
cmdline_parse cmdline = parse_from false [] [] cmdline []

-- `strcmp(a, b) == 0`
pub same_string : List ℕ → List ℕ → Bool
same_string [] [] = true
same_string [] (y ∷ ys) = false
same_string (x ∷ xs) [] = false
same_string (x ∷ xs) (y ∷ ys) = x == y && same_string xs ys

pub cmdline_get : List Param → List ℕ → Option (List ℕ)
unfolding same_string
cmdline_get [] param = none
cmdline_get (p ∷ args) param =
    let rest = cmdline_get args param in if same_string param p.name then some p.value else rest
