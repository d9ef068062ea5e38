-- ===== src/Timers.antt =====
-- timer_cb, kick and the two wake-ups of class Client in include/cofetch.h.
pub mod Wake
use cofetch.Base.{
  ℕ, ◌+◌, Bool, true, false, not, ◌&&◌, ◌||◌, List, [], ◌∷◌, leb, ltb, if◌then◌else◌, ℤ, pos,
  negsuc,
}

-- What is asked of the timer, the io_context and libcurl: `timer_.cancel()`, `expires_at`,
-- `async_wait`, the post of a kick, and `curl_multi_socket_action` for the timeout. `wait_expired`,
-- `wait_ran` and `kick_ran` record what the io_context does: the deadline of the pending waits
-- passes, a wait's handler runs with no error, a posted kick runs.
pub data TimerCall : Type 0 where
  cancel_timer : TimerCall
  expires_at : ℕ → TimerCall
  async_wait : TimerCall
  post_kick : TimerCall
  socket_action_timeout : TimerCall
  wait_expired : TimerCall
  wait_ran : TimerCall
  kick_ran : TimerCall

-- `expiry` is `timer_.expiry()`; times are milliseconds of the steady clock. Calls are newest first.
pub record Timers : Type 0 where
  pub kick_pending : Bool
  pub timer_armed : Bool
  pub expiry : ℕ
  pub calls : List TimerCall

-- The timeout 0: a kick is posted, unless one is pending.
unfoldable pub post_once : Timers → Timers
post_once c =
    if not c.kick_pending then record c { kick_pending = true; calls = post_kick ∷ c.calls } else c

-- A timeout above 0, as a deadline.
unfoldable pub wait_until : ℕ → Timers → Timers
wait_until deadline c = if c.timer_armed && leb c.expiry deadline then c else record c {
  expiry = deadline;
  timer_armed = true;
  calls = async_wait ∷ expires_at deadline ∷ c.calls;
}

-- timer_cb, at the time `now`
unfoldable pub timer_cb : ℕ → ℤ → Timers → Timers
unfolding post_once wait_until
timer_cb now (negsuc n) c = record c { timer_armed = false; calls = cancel_timer ∷ c.calls }
timer_cb now (pos t) c = if ltb 0 t then wait_until (now + t) c else post_once c

-- kick, up to libcurl's own work
unfoldable pub kick : Timers → Timers
kick c = record c { calls = socket_action_timeout ∷ c.calls }

-- The posted kick, with `*alive`
unfoldable pub run_kick : Bool → Timers → Timers
unfolding kick
run_kick alive c =
    if not alive then c else kick (record c { kick_pending = false; calls = kick_ran ∷ c.calls })

-- The timer's handler: `failed` says that it gets an error, as a cancelled wait does.
unfoldable pub run_wait : Bool → Bool → Timers → Timers
unfolding kick
run_wait failed alive c =
    if failed || not alive
    then c
    else kick (record c { timer_armed = false; calls = wait_ran ∷ c.calls })

-- The deadline of the pending waits has come.
abbrev pub expire : Timers → Timers
expire c = record c { calls = wait_expired ∷ c.calls }

-- The members as the constructor leaves them.
unfoldable pub init : Timers
init = record { kick_pending = false; timer_armed = false; expiry = 0; calls = [] }
