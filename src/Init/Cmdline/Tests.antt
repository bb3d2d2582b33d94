-- ===== src/Init/Cmdline/Tests.antt =====
-- The command line `a=bc d=e`.
use ulmeros.Common.{◌≡◌, refl, [], ◌∷◌, arith}
use ulmeros.Common.Outcome.{ok}
use ulmeros.Init.Cmdline.{Param, cmdline_parse}
use ulmeros.Init.Cmdline.Parse.{write, cmdline_parse-write}

abbrev first : Param
first = record { name = 97 ∷ []; value = 98 ∷ 99 ∷ [] }

abbrev second : Param
second = record { name = 100 ∷ []; value = 101 ∷ [] }

cmdline_parse-write_example : cmdline_parse (write first (second ∷ [])) ≡ ok (first ∷ second ∷ [])
cmdline_parse-write_example =
    cmdline_parse-write first (second ∷ [])
      (record {
        name = (refl, refl, tt);
        value = (refl, refl, (refl, refl, tt));
        name_short = omega arith;
        value_short = omega arith;
      })
      (
        record {
          name = (refl, refl, tt);
          value = (refl, refl, tt);
          name_short = omega arith;
          value_short = omega arith;
        },
        tt,
      )
