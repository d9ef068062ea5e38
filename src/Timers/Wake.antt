-- ===== src/Timers/Wake.antt =====
-- libcurl is woken by the time that it asked for.
use cofetch.Base.{
  ℕ, suc, ◌+◌, ◌-◌, ◌≡◌, ◌≤◌, ◌<◌, refl, Bool, true, false, ◌&&◌, ◌⊎◌, inl, inr, List, [], ◌∷◌, leb,
  ltb, if◌then◌else◌, ℤ, pos, negsuc, arith, length, Bool-cases,
}
use cofetch.Timers.{
  TimerCall, cancel_timer, expires_at, async_wait, post_kick, socket_action_timeout, wait_expired,
  wait_ran, kick_ran, Timers, timer_cb, run_kick, run_wait, expire, init, post_once, wait_until,
}

-- The deadline that the timer stands at.
abbrev deadline_of : List TimerCall → ℕ
deadline_of [] = 0
deadline_of (expires_at d ∷ cs) = d
deadline_of (_ ∷ cs) = deadline_of cs

-- The deadlines of the waits that are neither cancelled nor over. A new deadline cancels them too.
abbrev pub pending : List TimerCall → List ℕ
pending [] = []
pending (async_wait ∷ cs) = deadline_of cs ∷ pending cs
pending (cancel_timer ∷ cs) = []
pending (expires_at d ∷ cs) = []
pending (wait_expired ∷ cs) = []
pending (post_kick ∷ cs) = pending cs
pending (socket_action_timeout ∷ cs) = pending cs
pending (wait_ran ∷ cs) = pending cs
pending (kick_ran ∷ cs) = pending cs

-- How many waits are over with no error and have their handler still to run.
abbrev pub due : List TimerCall → ℕ
due [] = 0
due (wait_expired ∷ cs) = length (pending cs) + due cs
due (wait_ran ∷ cs) = due cs - 1
due (async_wait ∷ cs) = due cs
due (cancel_timer ∷ cs) = due cs
due (expires_at d ∷ cs) = due cs
due (post_kick ∷ cs) = due cs
due (socket_action_timeout ∷ cs) = due cs
due (kick_ran ∷ cs) = due cs

-- How many kicks are posted and have still to run.
abbrev pub kicks : List TimerCall → ℕ
kicks [] = 0
kicks (post_kick ∷ cs) = suc (kicks cs)
kicks (kick_ran ∷ cs) = kicks cs - 1
kicks (wait_expired ∷ cs) = kicks cs
kicks (wait_ran ∷ cs) = kicks cs
kicks (async_wait ∷ cs) = kicks cs
kicks (cancel_timer ∷ cs) = kicks cs
kicks (expires_at d ∷ cs) = kicks cs
kicks (socket_action_timeout ∷ cs) = kicks cs

-- An armed timer has a wait at its deadline, or one that is over. At most one kick is posted, and it
-- is posted exactly while `kick_pending_` says so.
pub record Inv (c : Timers) : Type 0 where
  pub armed : c.timer_armed ≡ true → (pending c.calls ≡ c.expiry ∷ []) ⊎ (0 < due c.calls)
  pub one_kick : kicks c.calls ≡ (if c.kick_pending then 1 else 0)

pub init-Inv : Inv init
unfolding init
init-Inv = record { armed = λ e. cc; one_kick = refl }

pub timer_cb-Inv : {c : Timers} (now : ℕ) (t : ℤ) → Inv c → Inv (timer_cb now t c)
unfolding timer_cb
timer_cb-Inv now (negsuc n) v = record { armed = λ e. cc; one_kick = v.one_kick }
timer_cb-Inv {c} now (pos t) v = record {
  armed = ground (arith, v.armed);
  one_kick = ground (arith, v.one_kick);
}

pub run_kick-Inv : {c : Timers} (alive : Bool) → 0 < kicks c.calls → Inv c → Inv (run_kick alive c)
unfolding run_kick
run_kick-Inv false some_kick v = v
run_kick-Inv true some_kick v = record { armed = v.armed; one_kick = ground (arith, v.one_kick) }

pub run_wait-Inv : {c : Timers} (failed alive : Bool) → Inv c → Inv (run_wait failed alive c)
unfolding run_wait
run_wait-Inv true alive v = v
run_wait-Inv false false v = v
run_wait-Inv false true v = record { armed = λ e. cc; one_kick = v.one_kick }

pub expire-Inv : {c : Timers} → Inv c → Inv (expire c)
expire-Inv {c} v = record { armed = λ e. ground (arith, v.armed e); one_kick = v.one_kick }

-- A wake-up is on its way: a kick that is posted, a wait that is over, or one that ends by then.
abbrev pub WakesBy : ℕ → Timers → Type 0
WakesBy time c =
    (0 < kicks c.calls) ⊎ (0 < due c.calls) ⊎ ((w : ℕ) × (pending c.calls ≡ w ∷ []) × (w ≤ time))

post_once-kicks : {c : Timers} → Inv c → 0 < kicks (post_once c).calls
unfolding post_once
post_once-kicks v = ground (arith, v.one_kick)

wait_until-WakesBy : {c : Timers} (d : ℕ) → Inv c → WakesBy d (wait_until d c)
unfolding wait_until
wait_until-WakesBy {c} d v = elim (Bool-cases (c.timer_armed && leb c.expiry d)) [
  | inr again ↦ rw again (inr (inr (d, refl, omega arith)))
  | inl enough ↦ elim (v.armed (ground arith)) [
    | inl waits ↦ rw enough (inr (inr (c.expiry, waits, ground arith)))
    | inr over ↦ rw enough (inr (inl over))
  ]
]

-- When libcurl asks at the time `now` to be woken after t milliseconds, in a state that keeps the
-- invariant, then behind timer_cb a kick is posted, or a wait is over with its handler still to
-- run, or one is pending that ends by now + t.
pub timer_cb-WakesBy : {c : Timers} (now t : ℕ) → Inv c → WakesBy (now + t) (timer_cb now (pos t) c)
unfolding timer_cb
timer_cb-WakesBy {c} now t v = elim (Bool-cases (ltb 0 t)) [
  | inl later ↦ rw later (wait_until-WakesBy (now + t) v)
  | inr at_once ↦ rw at_once (inl (post_once-kicks v))
]

-- The sequences of calls and wake-ups, with at most the kicks that are posted.
pub data Wakes : Timers → Type 0 where
  initial : Wakes init
  asked : {c : Timers} (now : ℕ) (t : ℤ) → Wakes c → Wakes (timer_cb now t c)
  kicked : {c : Timers} (alive : Bool) → 0 < kicks c.calls → Wakes c → Wakes (run_kick alive c)
  waited : {c : Timers} (failed alive : Bool) → Wakes c → Wakes (run_wait failed alive c)
  expired : {c : Timers} → Wakes c → Wakes (expire c)

-- Whatever libcurl asks and in whatever order the wake-ups run, an armed timer has a wait at its
-- deadline or one that is over, and a kick is posted exactly while one is pending, never two.
pub Wakes-Inv : {c : Timers} → Wakes c → Inv c
Wakes-Inv initial = init-Inv
Wakes-Inv (asked now t r) = timer_cb-Inv now t (Wakes-Inv r)
Wakes-Inv (kicked alive some_kick r) = run_kick-Inv alive some_kick (Wakes-Inv r)
Wakes-Inv (waited failed alive r) = run_wait-Inv failed alive (Wakes-Inv r)
Wakes-Inv (expired r) = expire-Inv (Wakes-Inv r)

-- When the client is gone, a posted kick and a wait's handler change nothing and call nothing.
pub gone_does_nothing :
    (c : Timers) (failed : Bool) → (run_kick false c ≡ c) × (run_wait failed false c ≡ c)
unfolding run_kick run_wait
gone_does_nothing c failed = ground arith
