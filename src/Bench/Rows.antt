-- ===== src/Bench/Rows.antt =====
-- What run_bench.sh gets from the drivers: rows of comma-separated values, and exit codes.
use cofetch.Base.{codes, ℕ, suc, ◌≡◌, List, [], ◌∷◌, Option, none, some, ℤ, pos, ◌≢◌, ◌⊎◌}
use cofetch.Bench.{Args, parse}
use cofetch.Bench.Cells.{read_row}
use cofetch.Bench.Report.{Result}
use cofetch.Response.{Bytes}

-- How many of the first n requests of a chain do not get the status 200.
pub data FailedAmong (answer : ℕ → Option ℤ) : ℕ → ℕ → Type 0 where
  none_asked : FailedAmong answer 0 0
  well :
      {n k : ℕ} → answer n ≡ some (pos 200) → FailedAmong answer n k → FailedAmong answer (suc n) k
  amiss :
      {n k : ℕ}
      → answer n ≢ some (pos 200)
      → FailedAmong answer n k
      → FailedAmong answer (suc n) (suc k)

module _ {Double : Type 0} (decimal : ℤ → Bytes) (fixed : ℕ → Double → Bytes)
    (per : ℤ → Double → Double) where
  -- The columns that run_bench.sh names.
  abbrev pub columns : Bytes → Args → Double → ℕ → List Bytes
  columns name a seconds failed =
      name
      ∷ a.scenario
      ∷ decimal a.total
      ∷ decimal a.concurrency
      ∷ fixed 3 seconds
      ∷ fixed 0 (per a.total seconds)
      ∷ decimal (pos failed)
      ∷ []

  -- One row with these columns, and 0 if nothing failed.
  abbrev pub Reported : Args → Double → Bytes → ℕ → Result → Type 0
  Reported a seconds name failed r =
      ((row : Bytes) × (r.rows ≡ row ∷ []) × (read_row row ≡ columns name a seconds failed))
      × (failed ≡ 0 → r.code ≡ 0)
      × (failed ≢ 0 → r.code ≡ 1)

  -- Nothing is printed, and main returns 2.
  abbrev pub Refused : Result → Type 0
  Refused r = (r.rows ≡ []) × (r.code ≡ 2)

  -- What a driver's result is, by the arguments that it was given. `failed` are the failures that it
  -- counts in the throughput scenario, and Fails says what it counts in a chain.
  abbrev pub Ends :
      (Bytes → ℤ)
      → Bytes
      → Bytes
      → (Args → ℕ)
      → (Args → ℕ → Type 0)
      → (Args → Double)
      → List Bytes
      → Result
      → Type 0
  Ends atoi name name' failed Fails seconds argv r =
      ((parse atoi argv ≡ none) × Refused r)
      ⊎ ((a : Args) × (parse atoi argv ≡ some a)
          × (((a.scenario ≡ codes "throughput") × Reported a (seconds a) name (failed a) r)
              ⊎ (((a.scenario ≡ codes "chain")
                    × ((k : ℕ) × Fails a k × Reported a (seconds a) name' k r))
                  ⊎ ((a.scenario ≢ codes "throughput")
                      × (a.scenario ≢ codes "chain")
                      × Refused r))))
