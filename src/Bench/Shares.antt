-- ===== src/Bench/Shares.antt =====
-- bench_cofetch.cpp with several event loops: how `main` splits the requests and the concurrency.
use cofetch.Bench.{failed_code}
use cofetch.Base.{
  ap, ◌≤◌, ◌∙◌, length, ℕ, zero, suc, ◌+◌, ◌*◌, ◌/◌, ◌%◌, ◌≡◌, ◌<◌, refl, Bool, List, [], ltb,
  if◌then◌else◌, pos, arith,
}
use cofetch.Bench.Throughput.{Load, idle, run, refill, refill_loop, run_lem, count_failed}

-- The share of the loop t, of a total that is not negative.
unfoldable pub share : ℕ → ℕ → ℕ → ℕ
share total loops t = total / loops + (if ltb t (total % loops) then 1 else 0)

-- What the first n loops have together.
abbrev pub shares : ℕ → ℕ → ℕ → ℕ
shares total loops zero = 0
shares total loops (suc n) = shares total loops n + share total loops n

-- A loop's run_throughput, behind these responses.
unfoldable pub run_loop : ℕ → ℕ → ℕ → ℕ → List Bool → Load
unfolding run share
run_loop total concurrency loops t responses =
    run (pos (concurrency / loops)) (pos (share total loops t)) responses

abbrev min : ℕ → ℕ → ℕ
min a b = if ltb a b then a else b

shares_lem :
    (total loops n : ℕ) → shares total loops n ≡ n * (total / loops) + min n (total % loops)
unfolding share
shares_lem total loops zero = ground arith
shares_lem total loops (suc n) = grind (arith, shares_lem total loops n)

-- The loops' shares together are the total.
shares_total : (total loops : ℕ) → 0 < loops → shares total loops loops ≡ total
shares_total total loops h = grind (arith, shares_lem total loops loops)

-- With fewer requests in flight than loops, each loop has a concurrency of 0 and launches no request.
run_loop_starved :
    (total concurrency loops t : ℕ)
    → concurrency < loops
    → run_loop total concurrency loops t [] ≡ idle
unfolding run_loop refill refill_loop
run_loop_starved total concurrency loops t h =
    let none_each : concurrency / loops ≡ 0 = grind arith in rw (none_each, run_loop) refl

-- A number of each of the first n loops, added up. Loop t has got the responses `got t`.
unfoldable pub summed : (Load → ℕ) → ℕ → ℕ → ℕ → (ℕ → List Bool) → ℕ → ℕ
unfolding run_loop
summed f total concurrency loops got zero = 0
summed f total concurrency loops got (suc n) =
    summed f total concurrency loops got n + f (run_loop total concurrency loops n (got n))

abbrev pub failures : (ℕ → List Bool) → ℕ → ℕ
failures got zero = 0
failures got (suc n) = failures got n + count_failed (got n)

each_has_room : (concurrency loops : ℕ) → 0 < loops → loops ≤ concurrency → 0 < concurrency / loops
each_has_room concurrency loops some_loops enough = grind arith

run_loop_in_flight :
    (total concurrency loops t : ℕ) (got : ℕ → List Bool)
    → 0 < concurrency / loops
    → length (got t) ≤ share total loops t
    → (run_loop total concurrency loops t (got t)).in_flight ≤ concurrency / loops
unfolding run_loop
run_loop_in_flight total concurrency loops t got room h =
    let e = run_lem (pos (concurrency / loops)) (pos (share total loops t)) (got t) room h in
    rw (e, run_loop) (ground arith)

summed_in_flight :
    (total concurrency loops : ℕ) (got : ℕ → List Bool) (n : ℕ)
    → 0 < concurrency / loops
    → ((t : ℕ) → length (got t) ≤ share total loops t)
    → summed (λ s. s.in_flight) total concurrency loops got n ≤ n * (concurrency / loops)
unfolding summed
summed_in_flight total concurrency loops got zero room h = omega arith
summed_in_flight total concurrency loops got (suc n) room h = grind (
  arith,
  summed_in_flight total concurrency loops got n room h,
  run_loop_in_flight total concurrency loops n got room (h n),
)

-- With no more loops than the concurrency, however many of its responses each loop has got, the loops
-- together never have more requests in flight than the concurrency.
pub loops_in_flight :
    (total concurrency loops : ℕ) (got : ℕ → List Bool)
    → 0 < loops
    → loops ≤ concurrency
    → ((t : ℕ) → length (got t) ≤ share total loops t)
    → summed (λ s. s.in_flight) total concurrency loops got loops ≤ concurrency
loops_in_flight total concurrency loops got some_loops enough h =
    let room = each_has_room concurrency loops some_loops enough in
    grind (arith, summed_in_flight total concurrency loops got loops room h)

run_loop_over :
    (total concurrency loops t : ℕ) (got : ℕ → List Bool)
    → 0 < concurrency / loops
    → length (got t) ≡ share total loops t
    → run_loop total concurrency loops t (got t) ≡ record {
      in_flight = 0;
      launched = share total loops t;
      done = share total loops t;
      failed = count_failed (got t);
    }
unfolding run_loop
run_loop_over total concurrency loops t got room h =
    run_lem (pos (concurrency / loops)) (pos (share total loops t)) (got t) room (omega arith)
    ∙ ground arith

summed_over :
    (total concurrency loops : ℕ) (got : ℕ → List Bool) (n : ℕ)
    → 0 < concurrency / loops
    → ((t : ℕ) → length (got t) ≡ share total loops t)
    → (summed (λ s. s.launched) total concurrency loops got n ≡ shares total loops n)
      × (summed (λ s. s.done) total concurrency loops got n ≡ shares total loops n)
      × (summed (λ s. s.failed) total concurrency loops got n ≡ failures got n)
unfolding summed
summed_over total concurrency loops got zero room h = (refl, refl, refl)
summed_over total concurrency loops got (suc n) room h =
    let (launched, done, failed) = summed_over total concurrency loops got n room h in
    let e = run_loop_over total concurrency loops n got room (h n) in
    (rw (e, launched) refl, rw (e, done) refl, rw (e, failed) refl)

-- With no more loops than the concurrency, once each loop has got the responses of its share, the loops
-- together have launched as many requests as the total, all are done, and `failed` counts the responses
-- that are not good.
pub loops_complete :
    (total concurrency loops : ℕ) (got : ℕ → List Bool)
    → 0 < loops
    → loops ≤ concurrency
    → ((t : ℕ) → length (got t) ≡ share total loops t)
    → (summed (λ s. s.launched) total concurrency loops got loops ≡ total)
      × (summed (λ s. s.done) total concurrency loops got loops ≡ total)
      × (summed (λ s. s.failed) total concurrency loops got loops ≡ failures got loops)
loops_complete total concurrency loops got some_loops enough h =
    let room = each_has_room concurrency loops some_loops enough in
    let (launched, done, failed) = summed_over total concurrency loops got loops room h in
    let whole = shares_total total loops some_loops in (launched ∙ whole, done ∙ whole, failed)

summed_idle :
    (f : Load → ℕ) (total concurrency loops n : ℕ)
    → concurrency < loops
    → f idle ≡ 0
    → summed f total concurrency loops (λ t. []) n ≡ 0
unfolding summed
summed_idle f total concurrency loops zero h e = refl
summed_idle f total concurrency loops (suc n) h e =
    let none_here = ap f (run_loop_starved total concurrency loops n h) ∙ e in
    omega (arith, summed_idle f total concurrency loops n h e, none_here)

-- With fewer requests in flight than loops, the loops together launch no request, whatever the total is,
-- and none fails.
pub loops_starved :
    (total concurrency loops : ℕ)
    → concurrency < loops
    → (summed (λ s. s.launched) total concurrency loops (λ t. []) loops ≡ 0)
      × (failed_code (summed (λ s. s.failed) total concurrency loops (λ t. []) loops) ≡ 0)
loops_starved total concurrency loops h =
    let no_failure = summed_idle (λ s. s.failed) total concurrency loops loops h refl in
    (summed_idle (λ s. s.launched) total concurrency loops loops h refl, rw no_failure refl)
