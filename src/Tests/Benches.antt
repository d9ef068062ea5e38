-- ===== src/Tests/Benches.antt =====
-- Runs of the benchmark drivers.
use cofetch.Base.{
  length, length-append, zero, suc, none, ◌/◌, ◌-◌, ◌∙◌, List, Bool, ℕ, some, ◌≡◌, ◌≤◌, refl, true,
  false, [], ◌∷◌, pos, negsuc, arith,
}
use cofetch.Base.Threads.{begun, moved, here, there, Still, replicate, length-replicate}
use cofetch.Bench.Pool.{Move, take, stop, answered, finished, Pools, Pools-complete}
use cofetch.Bench.Shares.{share, summed, run_loop, failures}
use cofetch.Bench.Throughput.{run, run_lem}
use cofetch.Bench.Chain
use cofetch.Bench.Polled.{run_throughput, gathered, loops_end, loops_stuck}
use cofetch.Bench.Chain.{
  Links, run_launched, coroutine, coroutine_stops, Answer, thrown, replied, replies,
}
use cofetch.Bench.{failed_code, parse, concurrency_of, chain_name}

-- 2 of 5 responses, 3 requests at a time.
run_lem_example :
    run (pos 3) (pos 5) (false ∷ true ∷ [])
    ≡ record { in_flight = 3; launched = 5; done = 2; failed = 1 }
run_lem_example = run_lem (pos 3) (pos 5) (false ∷ true ∷ []) (omega arith) (omega arith)

-- Three polls of each loop: its first response, none, and the rest.
abbrev in_threes : ℕ → ℕ → List Bool
in_threes t zero = true ∷ []
in_threes t (suc zero) = []
in_threes t (suc (suc zero)) = replicate (share 7 3 t - 1) true
in_threes t (suc (suc (suc i))) = []

length-in_threes : (t : ℕ) → length (gathered (in_threes t) 3) ≡ share 7 3 t
unfolding share
length-in_threes t =
    length-append (replicate (share 7 3 t - 1) true) (true ∷ [])
    ∙ grind (arith, length-replicate (share 7 3 t - 1) true)

loops_end_example :
    let got = λ (t : ℕ). gathered (in_threes t) 3 in
    ((t : ℕ)
      → run_throughput (pos (4 / 3)) (pos (share 7 3 t)) 4 (in_threes t)
        ≡ some (run_loop 7 4 3 t (got t)))
    × (summed (λ s. s.launched) 7 4 3 got 3 ≡ 7)
    × (summed (λ s. s.done) 7 4 3 got 3 ≡ 7)
    × (summed (λ s. s.failed) 7 4 3 got 3 ≡ failures got 3)
loops_end_example = loops_end 7 4 3 3 in_threes (omega arith) (omega arith) length-in_threes

no_answers : ℕ → List Bool
no_answers i = []

gathered-no_answers : (i : ℕ) → length (gathered no_answers i) ≡ 0
unfolding no_answers
gathered-no_answers zero = refl
gathered-no_answers (suc i) = gathered-no_answers i

-- 100 requests, 3 at a time, on 4 loops; the second loop polls a thousand times.
loops_stuck_example :
    (summed (λ s. s.launched) 100 3 4 (λ t. []) 4 ≡ 0)
    × (failed_code (summed (λ s. s.failed) 100 3 4 (λ t. []) 4) ≡ 0)
    × (run_throughput (pos (3 / 4)) (pos (share 100 4 1)) 1000 no_answers ≡ none)
unfolding share
loops_stuck_example =
    loops_stuck 100 3 4 1 1000 no_answers (omega arith) (omega arith)
      (λ i. omega (arith, gathered-no_answers i))

run_launched_example : (Chain.run (pos 3) (true ∷ false ∷ [])).launched ≡ 3
run_launched_example = run_launched (pos 3) (true ∷ false ∷ []) (omega arith)

coroutine_stops_example : coroutine 4 (replied false ∷ thrown ∷ replied true ∷ []) ≡ (2, 1)
coroutine_stops_example = coroutine_stops 4 (false ∷ []) (replied true ∷ []) (omega arith)

-- The one thread of a pool takes a request, fails, and ends.
one_thread : Pools 1 1 3 (record { next = 2; served = 1; failed = 1 }) (finished ∷ [])
one_thread =
    moved (moved (moved begun (here (take (omega arith)))) (here (answered false)))
      (here (stop (omega arith)))

one_thread-Still : Still (Move 1) (record { next = 2; served = 1; failed = 1 }) (finished ∷ [])
one_thread-Still s' ws' (here move) = elim move [ ]
one_thread-Still s' ws' (there step) = elim step [ ]

Pools-complete_example : (finished ∷ [] ≡ replicate 1 finished) × ◌≡◌ {A = ℕ} 1 1 × 1 ≤ 1
Pools-complete_example = Pools-complete 1 one_thread (omega arith) one_thread-Still

four_words :
    parse (λ w. negsuc 0) (chain_name ∷ chain_name ∷ [] ∷ [] ∷ [])
    ≡ some (record { scenario = chain_name; base_url = []; total = negsuc 0; concurrency = pos 1 })
unfolding parse concurrency_of
four_words = refl
