-- ===== src/Tests/Rows.antt =====
-- The drivers on one command line.
use cofetch.Base.{codes, ℕ, ◌≡◌, refl, [], ◌∷◌, Option, some, List, ℤ, pos}
use cofetch.Bench.{Args, parse, concurrency_of, same_text}
use cofetch.Bench.Report.{cpr_main, run_driver, over, report}
use cofetch.Response.{Bytes}

-- Every number is written "7".
abbrev decimal : ℤ → Bytes
decimal n = b'7' ∷ []

abbrev fixed : ℕ → ℕ → Bytes
fixed n d = b'7' ∷ []

abbrev per : ℤ → ℕ → ℕ
per n d = d

abbrev atoi : Bytes → ℤ
atoi t = pos 7

abbrev one_failed : Args → ℕ
one_failed a = 1

abbrev all_well : ℕ → Option ℤ
all_well n = some (pos 200)

abbrev a_second : Args → ℕ
a_second a = 1

abbrev command : List Bytes
command = codes "bench" ∷ codes "chain" ∷ codes "http://127.0.0.1" ∷ codes "7" ∷ []

prints_row :
    (cpr_main decimal fixed per atoi one_failed all_well a_second command).rows
    ≡ codes "cpr,chain,7,7,7,7,7\n" ∷ []
unfolding cpr_main run_driver parse concurrency_of same_text over report
prints_row = refl
