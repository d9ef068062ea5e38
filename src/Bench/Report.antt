-- ===== src/Bench/Report.antt =====
-- report of bench_util.h, and main of bench_cpr.cpp and bench_httplib.cpp.
use cofetch.Base.{
  codes, ℕ, zero, suc, ◌+◌, Bool, true, not, List, [], ◌∷◌, ◌++◌, Option, none, some, ◌==◌,
  if◌then◌else◌, ℤ, pos, pos_part,
}
use cofetch.Bench.{Args, parse, same_text, throughput_name, chain_name, failed_code}
use cofetch.Response.{Bytes}

-- What a driver prints on stdout, and what main returns.
pub record Result : Type 0 where
  pub rows : List Bytes
  pub code : ℕ

-- A status that cpr reports, or cpp-httplib if it got a response.
unfoldable pub is_bad : Option ℤ → Bool
is_bad none = true
is_bad (some (pos status)) = not (status == 200)
is_bad (some _) = true

-- The chain of bench_cpr.cpp and bench_httplib.cpp, one request behind the other: those that fail among
-- the first n.
unfoldable pub failed_in_chain : (ℕ → Bool) → ℕ → ℕ
failed_in_chain bad zero = 0
failed_in_chain bad (suc n) = failed_in_chain bad n + (if bad n then 1 else 0)

-- `decimal` is "%d", `fixed` "%.<n>f", and `per` the division of doubles.
module _ {Double : Type 0} (decimal : ℤ → Bytes) (fixed : ℕ → Double → Bytes)
    (per : ℤ → Double → Double) where
  unfoldable pub report : Bytes → Args → Double → ℕ → Bytes
  report name a seconds failed =
      name
      ++ b','
        ∷ (a.scenario
            ++ b','
              ∷ (decimal a.total
                  ++ b','
                    ∷ (decimal a.concurrency
                        ++ b','
                          ∷ (fixed 3 seconds
                              ++ b','
                                ∷ (fixed 0 (per a.total seconds)
                                    ++ b',' ∷ (decimal (pos failed) ++ b'\n' ∷ []))))))

  -- A scenario that is over: its row, and `failed != 0`.
  unfoldable pub over : Args → Double → Bytes × ℕ → Result
  unfolding report
  over a seconds (name, failed) = record {
    rows = report name a seconds failed ∷ [];
    code = failed_code failed;
  }

  -- `atoi` is the C library's.
  module _ (atoi : Bytes → ℤ) where
    -- main, where a scenario gives the row's name and the failures, and `seconds` is the timer's.
    unfoldable pub run_driver :
        (Args → Bytes × ℕ) → (Args → Bytes × ℕ) → (Args → Double) → List Bytes → Result
    unfolding parse same_text over
    run_driver throughput chain seconds argv = elim (parse atoi argv) [
      | none ↦ record { rows = []; code = 2 }
      | some a ↦
          if same_text a.scenario throughput_name
          then over a (seconds a) (throughput a)
          else if same_text a.scenario chain_name
          then over a (seconds a) (chain a)
          else record { rows = []; code = 2 }
    ]

    -- main of bench_cpr.cpp, by the failures of the pool and the statuses of the chain's session
    unfoldable pub cpr_main : (Args → ℕ) → (ℕ → Option ℤ) → (Args → Double) → List Bytes → Result
    unfolding run_driver failed_in_chain is_bad
    cpr_main throughput answer seconds argv =
        run_driver (λ a. (codes "cpr-threads", throughput a))
          (λ a. (codes "cpr", failed_in_chain (λ i. is_bad (answer i)) (pos_part a.total))) seconds
          argv

    -- main of bench_httplib.cpp, likewise
    unfoldable pub httplib_main :
        (Args → ℕ) → (ℕ → Option ℤ) → (Args → Double) → List Bytes → Result
    unfolding run_driver failed_in_chain is_bad
    httplib_main throughput answer seconds argv =
        run_driver (λ a. (codes "cpp-httplib-threads", throughput a))
          (λ a. (codes "cpp-httplib", failed_in_chain (λ i. is_bad (answer i)) (pos_part a.total)))
          seconds argv
