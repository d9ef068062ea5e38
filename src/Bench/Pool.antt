-- ===== src/Bench/Pool.antt =====
-- The throughput scenario of bench_cpr.cpp and bench_httplib.cpp: a pool of threads that take numbers
-- from one counter, interleaved in any order.
use cofetch.Base.{
  ℕ, suc, ◌+◌, ◌*◌, ◌≡◌, ◌≤◌, ◌<◌, refl, ap, ◌∙◌, Bool, true, List, [], ◌∷◌, ltb, if◌then◌else◌,
  length, arith, Bool-cases, inl, inr,
}
use cofetch.Base.Threads.{
  sum_of, sum_of-replicate, replicate, length-replicate, here, there, Runs, begun, moved, Still,
  Step-Turn, Runs-length,
}

-- A thread is before `fetch_add`, in a request, or past its loop.
pub data Worker : Type 0 where
  at_test : Worker
  in_request : Worker
  finished : Worker

-- `next` and `failed` are atomic; `served` counts the requests that have come back.
pub record Shared : Type 0 where
  pub next : ℕ
  pub served : ℕ
  pub failed : ℕ

-- A thread's next step. `next.fetch_add(1)` gives the old value.
pub data Move (total : ℕ) : Shared → Worker → Shared → Worker → Type 0 where
  take :
      {s : Shared}
      → s.next < total
      → Move total s at_test (record s { next = s.next + 1 }) in_request
  stop :
      {s : Shared} → total ≤ s.next → Move total s at_test (record s { next = s.next + 1 }) finished
  answered :
      {s : Shared} (good : Bool)
      → Move total s in_request
          (record s { served = s.served + 1; failed = if good then s.failed else s.failed + 1 })
          at_test

abbrev pub at_zero : Shared
at_zero = record { next = 0; served = 0; failed = 0 }

abbrev pub spawn : ℕ → List Worker
spawn n = replicate n at_test

-- k steps of a pool of this many threads lead to `s` and `ws`.
abbrev pub Pools : ℕ → ℕ → ℕ → Shared → List Worker → Type 0
Pools total threads k s ws = Runs (Move total) at_zero (spawn threads) k s ws

abbrev busy : Worker → ℕ
busy at_test = 0
busy in_request = 1
busy finished = 0

abbrev pub ended : Worker → ℕ
ended at_test = 0
ended in_request = 0
ended finished = 1

-- Each number taken is a request that is out, one that is back, or the end of a thread; no thread ends
-- before all requests are taken.
record Inv (total k : ℕ) (s : Shared) (b e : ℕ) : Type 0 where
  taken : s.next ≡ s.served + b + e
  within : s.served + b ≤ total
  ends_last : 0 < e → s.served + b ≡ total
  fewer_failed : s.failed ≤ s.served
  steps : k ≡ s.served * 2 + b + e

-- A thread's move keeps this, where b and e count the other threads.
Move-Inv :
    {total k : ℕ} {s s' : Shared} {w w' : Worker} (b e : ℕ)
    → Move total s w s' w'
    → Inv total k s (busy w + b) (ended w + e)
    → Inv total (suc k) s' (busy w' + b) (ended w' + e)
Move-Inv b e (take h) inv = record {
  taken = omega arith;
  within = grind arith;
  ends_last = λ some. absurd (omega (arith, inv.ends_last some));
  fewer_failed = inv.fewer_failed;
  steps = omega arith;
}
Move-Inv b e (stop h) inv = record {
  taken = omega arith;
  within = inv.within;
  ends_last = λ one. grind arith;
  fewer_failed = inv.fewer_failed;
  steps = omega arith;
}
Move-Inv b e (answered good) inv = record {
  taken = omega arith;
  within = omega arith;
  ends_last = λ h. omega (arith, inv.ends_last h);
  fewer_failed = ground arith;
  steps = omega arith;
}

Pools-Inv :
    {total : ℕ} (threads : ℕ) {k : ℕ} {s : Shared} {ws : List Worker}
    → Pools total threads k s ws
    → Inv total k s (sum_of busy ws) (sum_of ended ws)
Pools-Inv n begun =
    rw (sum_of-replicate busy n at_test, sum_of-replicate ended n at_test)
      record {
        taken = omega arith;
        within = omega arith;
        ends_last = λ h. absurd (omega arith);
        fewer_failed = omega arith;
        steps = omega arith;
      }
Pools-Inv {total} n (moved runs step) =
    let t = Step-Turn (Move total) step in
    rw (t.after busy, t.after ended)
      (Move-Inv _ _ t.move (rw (t.before busy, t.before ended) at (Pools-Inv n runs)))

few_moving : (ws : List Worker) → sum_of busy ws + sum_of ended ws ≤ length ws
few_moving [] = omega arith
few_moving (at_test ∷ ws) = omega (arith, few_moving ws)
few_moving (in_request ∷ ws) = omega (arith, few_moving ws)
few_moving (finished ∷ ws) = omega (arith, few_moving ws)

Pools-length :
    {total : ℕ} (threads : ℕ) {k : ℕ} {s : Shared} {ws : List Worker}
    → Pools total threads k s ws
    → length ws ≡ threads
Pools-length {total} n runs = Runs-length (Move total) runs ∙ length-replicate n at_test

-- Whatever the order in which the threads move, k of their steps are at most two for each request and
-- one for each thread: the pool comes to its end.
pub Pools-bounded :
    {total : ℕ} (threads : ℕ) {k : ℕ} {s : Shared} {ws : List Worker}
    → Pools total threads k s ws
    → k ≤ total * 2 + threads
Pools-bounded n {ws = ws} runs =
    let inv = Pools-Inv n runs in
    let few = few_moving ws in let same = Pools-length n runs in omega arith

Still-finished :
    {total : ℕ} {s : Shared} (ws : List Worker)
    → Still (Move total) s ws
    → ws ≡ replicate (length ws) finished
Still-finished [] still = refl
Still-finished {total} {s} (at_test ∷ ws) still = elim (Bool-cases (ltb s.next total)) [
  | inl more ↦ absurd (still _ _ (here (take (ground arith))))
  | inr enough ↦ absurd (still _ _ (here (stop (ground arith))))
]
Still-finished (in_request ∷ ws) still = absurd (still _ _ (here (answered true)))
Still-finished (finished ∷ ws) still =
    ap (◌∷◌ finished) (Still-finished ws (λ s' ws' step. still _ _ (there step)))

-- When no thread of the pool can move any more, and there are some, each is past its loop and `total`
-- requests have come back, whatever the order of the steps was. At most as many are counted failed.
pub Pools-complete :
    {total : ℕ} (threads : ℕ) {k : ℕ} {s : Shared} {ws : List Worker}
    → Pools total threads k s ws
    → 0 < threads
    → Still (Move total) s ws
    → (ws ≡ replicate threads finished) × (s.served ≡ total) × (s.failed ≤ s.served)
Pools-complete n {ws = ws} runs some_thread still =
    let inv = Pools-Inv n runs in
    let over : ws ≡ replicate n finished =
      Still-finished ws still ∙ ap (λ m. replicate m finished) (Pools-length n runs) in
    let none_busy = ap (sum_of busy) over ∙ sum_of-replicate busy n finished in
    let all_ended = ap (sum_of ended) over ∙ sum_of-replicate ended n finished in
    (over, omega (arith, inv.ends_last (omega arith)), inv.fewer_failed)
