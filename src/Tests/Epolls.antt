-- ===== src/Tests/Epolls.antt =====
-- libcurl watches two sockets, changes its mind about one and drops the other.
use cofetch.Base.{arith, ◌≡◌, refl, [], ◌∷◌, List, ℕ, none, some}
use cofetch.Baseline.{init, socket_fn, e_table, has, erase}
use cofetch.Baseline.Watched.{interest, run, run-wanted, wanted}

abbrev tells : List (ℕ × ℕ)
tells = (5, 1) ∷ (6, 2) ∷ (5, 3) ∷ (6, 4) ∷ []

watched : (interest 5 (run tells init).calls ≡ some 5) × (interest 6 (run tells init).calls ≡ none)
unfolding run socket_fn e_table has erase init
watched = (refl, refl)

run-wanted_example : interest 5 (run tells init).calls ≡ wanted 5 tells none
run-wanted_example =
    run-wanted 5 tells (omega arith, (omega arith, (omega arith, (omega arith, tt))))
