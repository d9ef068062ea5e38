-- ===== src/Bench/Throughput.antt =====
-- The throughput scenario of bench_epoll.cpp and bench_cofetch.cpp: `refill` and the requests' callback.
use cofetch.Base.{
  ℕ, zero, suc, ◌+◌, ◌-◌, ◌≡◌, ◌≤◌, ◌<◌, ap, ◌∙◌, Bool, true, false, ◌&&◌, List, [], ◌∷◌, leb,
  if◌then◌else◌, length, ℤ, pos, negsuc, pos_part, ltb_ℤ, arith, Bool-cases, inl, inr,
}

pub record Load : Type 0 where
  pub in_flight : ℕ
  pub launched : ℕ
  pub done : ℕ
  pub failed : ℕ

abbrev pub idle : Load
idle = record { in_flight = 0; launched = 0; done = 0; failed = 0 }

-- The test of `refill`.
abbrev pub wants_more : ℤ → ℤ → Load → Bool
wants_more concurrency total s = ltb_ℤ (pos s.in_flight) concurrency && ltb_ℤ (pos s.launched) total

-- A request is launched. Its callback does not run before the loop is over.
abbrev pub launch : Load → Load
launch s = record s { in_flight = s.in_flight + 1; launched = s.launched + 1 }

unfoldable pub refill_loop : ℕ → ℤ → ℤ → Load → Load
refill_loop zero concurrency total s = s
refill_loop (suc fuel) concurrency total s =
    let more = refill_loop fuel concurrency total (launch s) in
    if wants_more concurrency total s then more else s

-- refill. Each round brings `in_flight` nearer to the concurrency.
unfoldable pub refill : ℤ → ℤ → Load → Load
unfolding refill_loop
refill concurrency total s = refill_loop (pos_part concurrency) concurrency total s

-- The callback of a request in flight: `good` says that it has no error and a status of 2xx.
unfoldable pub respond : ℤ → ℤ → Bool → Load → Load
unfolding refill
respond concurrency total good s = refill concurrency total (record s {
  in_flight = s.in_flight - 1;
  done = s.done + 1;
  failed = if good then s.failed else s.failed + 1;
})

-- The start, and the responses so far, the last one first.
unfoldable pub run : ℤ → ℤ → List Bool → Load
unfolding refill respond
run concurrency total [] = refill concurrency total idle
run concurrency total (good ∷ rest) = respond concurrency total good (run concurrency total rest)

abbrev pub min : ℕ → ℕ → ℕ
min a b = if leb a b then a else b

-- How many requests `refill` launches.
abbrev room : ℤ → ℤ → Load → ℕ
room concurrency total s = min (pos_part concurrency - s.in_flight) (pos_part total - s.launched)

room-launch : (c t : ℤ) (s : Load) → wants_more c t s ≡ true → room c t s ≡ room c t (launch s) + 1
room-launch (pos c) (pos t) s h = ground arith
room-launch (pos c) (negsuc t) s h = ground arith
room-launch (negsuc c) t s h = ground arith

no_room : (c t : ℤ) (s : Load) → wants_more c t s ≡ false → room c t s ≡ 0
no_room (pos c) (pos t) s h = ground arith
no_room (pos c) (negsuc t) s h = ground arith
no_room (negsuc c) t s h = ground arith

-- The load when n requests more are in flight.
abbrev launched_more : ℕ → Load → Load
launched_more n s = record s { in_flight = s.in_flight + n; launched = s.launched + n }

launched_more_once : (n : ℕ) (s : Load) → launched_more n (launch s) ≡ launched_more (n + 1) s
launched_more_once n s = ground arith

launched_more_none : (s : Load) → s ≡ launched_more 0 s
launched_more_none s = ground arith

no_room_left : (c t : ℤ) (s : Load) → pos_part c ≤ s.in_flight → room c t s ≡ 0
no_room_left c t s h = ground arith

pub refill_loop_lem :
    (fuel : ℕ) (concurrency total : ℤ) (s : Load)
    → pos_part concurrency ≤ fuel + s.in_flight
    → refill_loop fuel concurrency total s ≡ launched_more (room concurrency total s) s
unfolding refill_loop
refill_loop_lem zero c t s h = rw (no_room_left c t s (omega arith)) (launched_more_none s)
refill_loop_lem (suc fuel) c t s h = elim (Bool-cases (wants_more c t s)) [
  | inl more ↦
      rw (more, room-launch c t s more)
        (refill_loop_lem fuel c t (launch s) (omega arith)
          ∙ launched_more_once (room c t (launch s)) s)
  | inr enough ↦ rw (enough, no_room c t s enough) (launched_more_none s)
]

abbrev pub count_failed : List Bool → ℕ
count_failed [] = 0
count_failed (good ∷ rest) = (if good then 0 else 1) + count_failed rest

-- After as many responses as there are requests or fewer, as many requests are in flight as the
-- concurrency allows and the total has left: no more, and no fewer. Each response is counted, and each
-- that is not good is counted as failed. So when all have come, nothing is in flight and `done` is the
-- total.
pub run_lem :
    (concurrency total : ℤ) (responses : List Bool)
    → 0 < pos_part concurrency
    → length responses ≤ pos_part total
    → let more = min (pos_part concurrency) (pos_part total - length responses) in
      run concurrency total responses ≡ record {
        in_flight = more;
        launched = length responses + more;
        done = length responses;
        failed = count_failed responses;
      }
unfolding run
run_lem c t [] some_room h = refill_loop_lem (pos_part c) c t idle (omega arith) ∙ ground arith
run_lem c t (good ∷ rest) some_room h =
    ap (respond c t good) (run_lem c t rest some_room (omega arith))
    ∙ refill_loop_lem (pos_part c) c t _ (omega arith)
    ∙ ground arith
