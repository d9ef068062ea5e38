-- ===== src/Bench/Polled.antt =====
-- The loops `while (done < total)` around io.poll() in bench_cofetch.cpp and http.poll() in
-- bench_epoll.cpp.
use cofetch.Base.{
  ℕ, zero, suc, ◌/◌, ◌≡◌, ◌≤◌, ◌<◌, refl, ap, ◌∙◌, Bool, true, false, List, [], ◌∷◌, ◌++◌, length,
  length-append, Option, none, some, if◌then◌else◌, ℤ, pos, pos_part, ltb_ℤ, arith, Bool-cases, inl,
  inr,
}
use cofetch.Bench.{failed_code}
use cofetch.Bench.Shares.{share, run_loop, summed, failures, loops_complete, loops_starved}
use cofetch.Bench.Throughput.{Load, idle, refill, respond, run, refill_loop_lem}

module _ (concurrency total : ℤ) where
  -- The callbacks that one poll runs, the last one first.
  unfoldable pub respond_each : List Bool → Load → Load
  unfolding respond
  respond_each [] s = s
  respond_each (good ∷ rest) s = respond concurrency total good (respond_each rest s)

  -- The loop on fuel, by the responses that each poll brings; `none` if it is not over.
  unfoldable pub poll_loop : ℕ → (ℕ → List Bool) → Load → Option Load
  unfolding respond_each
  poll_loop zero polls s = none
  poll_loop (suc fuel) polls s =
      let later = poll_loop fuel (λ i. polls (suc i)) (respond_each (polls 0) s) in
      if ltb_ℤ (pos s.done) total then later else some s

  -- run_throughput if it is to poll.
  unfoldable pub run_throughput : ℕ → (ℕ → List Bool) → Option Load
  unfolding poll_loop refill
  run_throughput fuel polls = poll_loop fuel polls (refill concurrency total idle)

-- The responses of the first n polls in front of these.
abbrev gather : (ℕ → List Bool) → ℕ → List Bool → List Bool
gather polls zero rs = rs
gather polls (suc n) rs = gather (λ i. polls (suc i)) n (polls 0 ++ rs)

abbrev pub gathered : (ℕ → List Bool) → ℕ → List Bool
gathered polls n = gather polls n []

length-gather :
    (polls : ℕ → List Bool) (n : ℕ) (rs : List Bool) → length rs ≤ length (gather polls n rs)
length-gather polls zero rs = omega arith
length-gather polls (suc n) rs =
    omega (arith, length-gather (λ i. polls (suc i)) n (polls 0 ++ rs), length-append (polls 0) rs)

none_left : (rs : List Bool) → length rs ≡ 0 → rs ≡ []
none_left [] h = refl
none_left (x ∷ rs) h = absurd (omega arith)

-- Polls that bring as many responses as there were bring none.
gather_none :
    (polls : ℕ → List Bool) (n : ℕ) (rs : List Bool)
    → length (gather polls n rs) ≡ length rs
    → gather polls n rs ≡ rs
gather_none polls zero rs h = refl
gather_none polls (suc n) rs h =
    let later : ℕ → List Bool = λ i. polls (suc i) in
    let none_now =
      none_left (polls 0)
        (omega (arith, length-gather later n (polls 0 ++ rs), length-append (polls 0) rs)) in
    rw none_now (gather_none later n rs (rw none_now at h))

module _ (c t : ℤ) where
  respond_each-run :
      (more rs : List Bool) → respond_each c t more (run c t rs) ≡ run c t (more ++ rs)
  unfolding respond_each run
  respond_each-run [] rs = refl
  respond_each-run (good ∷ more) rs = ap (respond c t good) (respond_each-run more rs)

  done-run : (rs : List Bool) → (run c t rs).done ≡ length rs
  unfolding run respond refill
  done-run [] = ap (λ s. s.done) (refill_loop_lem (pos_part c) c t idle (omega arith))
  done-run (good ∷ rs) =
      ap (λ s. s.done) (refill_loop_lem (pos_part c) c t _ (omega arith))
      ∙ omega (arith, done-run rs)

  launched-run : (rs : List Bool) → pos_part c ≡ 0 → (run c t rs).launched ≡ 0
  unfolding run respond refill
  launched-run [] h =
      ap (λ s. s.launched) (refill_loop_lem (pos_part c) c t idle (omega arith)) ∙ ground arith
  launched-run (good ∷ rs) h =
      ap (λ s. s.launched) (refill_loop_lem (pos_part c) c t _ (omega arith))
      ∙ ground (arith, launched-run rs h)

  -- One round, behind the responses so far.
  poll_loop-run :
      (fuel : ℕ) (polls : ℕ → List Bool) (rs : List Bool)
      → poll_loop c t (suc fuel) polls (run c t rs) ≡ (
          if ltb_ℤ (pos (length rs)) t
          then poll_loop c t fuel (λ i. polls (suc i)) (run c t (polls 0 ++ rs))
          else some (run c t rs))
  unfolding poll_loop
  poll_loop-run fuel polls rs = rw (respond_each-run (polls 0) rs, done-run rs) refl

  poll_loop_over :
      (polls : ℕ → List Bool) (n : ℕ) (rs : List Bool)
      → length (gather polls n rs) ≡ pos_part t
      → poll_loop c t (suc n) polls (run c t rs) ≡ some (run c t (gather polls n rs))
  poll_loop_over polls zero rs h =
      let over : ltb_ℤ (pos (length rs)) t ≡ false = rw h (ground arith) in
      poll_loop-run zero polls rs ∙ rw over refl
  poll_loop_over polls (suc n) rs h =
      let later : ℕ → List Bool = λ i. polls (suc i) in
      poll_loop-run (suc n) polls rs ∙ elim (Bool-cases (ltb_ℤ (pos (length rs)) t)) [
        | inl more ↦ rw more (poll_loop_over later n (polls 0 ++ rs) h)
        | inr over ↦
            let same =
              gather_none polls (suc n) rs (grind (arith, length-gather polls (suc n) rs)) in
            rw (over, same) refl
      ]

  -- Nothing is launched, so no response comes, and `done` stays below the total.
  poll_loop_spins :
      (polls : ℕ → List Bool) (fuel : ℕ) (rs : List Bool)
      → ((i : ℕ) → length (gather polls i rs) ≡ 0)
      → 0 < pos_part t
      → poll_loop c t fuel polls (run c t rs) ≡ none
  unfolding poll_loop
  poll_loop_spins polls zero rs h some_total = refl
  poll_loop_spins polls (suc fuel) rs h some_total =
      let more : ltb_ℤ (pos (length rs)) t ≡ true = rw (h 0) (ground arith) in
      poll_loop-run fuel polls rs
      ∙ rw more
          (poll_loop_spins (λ i. polls (suc i)) fuel (polls 0 ++ rs) (λ i. h (suc i)) some_total)

-- With no more loops than the concurrency, and with busy polling, when n polls of each loop bring the
-- responses of its share, each loop is over after n polls or fewer. The loops together have then launched
-- as many requests as the total, all are done, and `failed` counts the responses that are not good.
pub loops_end :
    (total concurrency loops n : ℕ) (polls : ℕ → ℕ → List Bool)
    → 0 < loops
    → loops ≤ concurrency
    → ((t : ℕ) → length (gathered (polls t) n) ≡ share total loops t)
    → let got = λ (t : ℕ). gathered (polls t) n in
      ((t : ℕ)
        → run_throughput (pos (concurrency / loops)) (pos (share total loops t)) (suc n) (polls t)
          ≡ some (run_loop total concurrency loops t (got t)))
      × (summed (λ s. s.launched) total concurrency loops got loops ≡ total)
      × (summed (λ s. s.done) total concurrency loops got loops ≡ total)
      × (summed (λ s. s.failed) total concurrency loops got loops ≡ failures got loops)
unfolding run_throughput run_loop run
loops_end total concurrency loops n polls some_loops enough h =
    let (launched, done, failed) =
      loops_complete total concurrency loops (λ t. gathered (polls t) n) some_loops enough h in
    (
      λ t.
          poll_loop_over (pos (concurrency / loops)) (pos (share total loops t)) (polls t) n []
            (h t),
      launched,
      done,
      failed,
    )

-- With fewer requests in flight than loops, the loops together launch no request, whatever the total is:
-- main returns 0, unless the loops are to poll. If they are, and no more responses come than requests
-- were launched, a loop that has a share of the total never ends, however often it polls.
pub loops_stuck :
    (total concurrency loops t fuel : ℕ) (polls : ℕ → List Bool)
    → concurrency < loops
    → 0 < share total loops t
    → ((i : ℕ)
        → length (gathered polls i)
          ≤ (run_loop total concurrency loops t (gathered polls i)).launched)
    → (summed (λ s. s.launched) total concurrency loops (λ t'. []) loops ≡ 0)
      × (failed_code (summed (λ s. s.failed) total concurrency loops (λ t'. []) loops) ≡ 0)
      × (run_throughput (pos (concurrency / loops)) (pos (share total loops t)) fuel polls ≡ none)
unfolding run_throughput run_loop run
loops_stuck total concurrency loops t fuel polls few some_share answered =
    let none_each : concurrency / loops ≡ 0 = grind arith in
    let none_launched = launched-run (pos (concurrency / loops)) (pos (share total loops t)) in
    let no_answer : (i : ℕ) → length (gathered polls i) ≡ 0 =
      λ i. omega (arith, answered i, none_launched (gathered polls i) none_each) in
    let (launched, code) = loops_starved total concurrency loops few in
    (
      launched,
      code,
      poll_loop_spins (pos (concurrency / loops)) (pos (share total loops t)) polls fuel []
          no_answer some_share,
    )
