-- ===== src/Client/Calls.antt =====
-- How the parts of Client work together: what libcurl calls back while the client calls it, what a
-- handler does, and the handlers of kicks, timer and sockets as a whole.
use cofetch.Base.{ℕ, Bool, true, false, List, [], ◌∷◌, Option, if◌then◌else◌, ℤ}
use cofetch.Client.{Client, Message, done, another}
use cofetch.Request.{Request}
use cofetch.Response.{Bytes}
use cofetch.Sockets.Events.{Callback, callback}
use cofetch.Sockets.Given.{given_after}
use cofetch.Sockets.Waits.{
  WaitResult, ready, aborted, failed, disarm, rearm, action_flag, has_state,
}
use cofetch.Sockets.{socket_action, call}
use cofetch.Timers.{timer_cb, run_kick, run_wait}
use cofetch.Transfers.Operations.{start, cancel, complete}
use cofetch.Transfers.Callbacks.{header_cb, body_write_cb}
use cofetch.Transfers.{Handler}

-- What libcurl calls while it is called: a socket callback, timer_cb at a time, header_cb or
-- body_write_cb on a node.
pub data CurlCall : Type 0 where
  socket : Callback → CurlCall
  timer : ℕ → ℤ → CurlCall
  header : ℕ → Bytes → ℕ → ℕ → CurlCall
  body : ℕ → Bytes → ℕ → ℕ → CurlCall

unfoldable pub curl_call : CurlCall → Client → Client
curl_call (socket k) c = record c {
  sockets = callback k c.sockets;
  given = given_after k c.sockets c.given;
}
curl_call (timer now t) c = record c { timers = timer_cb now t c.timers }
curl_call (header e chunk n l) c = record c { flights = (header_cb e chunk n l c.flights).1 }
curl_call (body e chunk n l) c = record c { flights = (body_write_cb e chunk n l c.flights).1 }

unfoldable pub curl_calls : List CurlCall → Client → Client
unfolding curl_call
curl_calls [] c = c
curl_calls (k ∷ ks) c = curl_calls ks (curl_call k c)

-- What the program calls: async_perform with the answers that `start` meets, or the emission of a
-- cancellation, each with what libcurl calls meanwhile.
pub data UserCall : Type 0 where
  starts : Option ℕ → ℕ → Request → Handler → List CurlCall → UserCall
  cancels : ℕ → List CurlCall → UserCall

unfoldable pub user_call : UserCall → Client → Client
unfolding curl_calls
user_call (starts init rc r h ks) c =
    curl_calls ks (record c { flights = start init rc r h c.flights })
user_call (cancels id ks) c = curl_calls ks (record c { flights = cancel id c.flights })

unfoldable pub user_calls : List UserCall → Client → Client
unfolding user_call
user_calls [] c = c
user_calls (u ∷ us) c = user_calls us (user_call u c)

-- A round of check_completions: the message, what libcurl calls while the handle is removed, and what
-- the handler does.
pub record Round : Type 0 where
  pub message : Message
  pub removal : List CurlCall
  pub reaction : List UserCall

unfoldable pub round : Message → List CurlCall → List UserCall → Client → Client
unfolding curl_calls user_calls
round another ks us c = c
round (done e code status) ks us c =
    user_calls us (curl_calls ks (record c { flights = complete e code status c.flights }))

unfoldable pub rounds : List Round → Client → Client
unfolding round
rounds [] c = c
rounds (r ∷ rs) c = rounds rs (round r.message r.removal r.reaction c)

-- A call of `curl_multi_socket_action`: what libcurl calls meanwhile, the number of running
-- transfers that it writes, and the rounds of the check_completions behind it.
pub record Action : Type 0 where
  pub calls : List CurlCall
  pub running : ℕ
  pub completions : List Round

unfoldable pub counted : ℕ → Client → Client
counted n c = record c { flights = record (c.flights) { running = n } }

unfoldable pub act : Action → Client → Client
unfolding curl_calls counted rounds
act a c = rounds a.completions (counted a.running (curl_calls a.calls c))

-- The posted kick. A client that is gone is not touched.
unfoldable pub posted_kick : Action → Client → Client
unfolding act run_kick
posted_kick a c =
    let kicked = record c { timers = run_kick c.alive c.timers } in
    if c.alive then act a kicked else kicked

-- The handler of the timer's wait.
unfoldable pub timer_handler : Bool → Action → Client → Client
unfolding act run_wait
timer_handler true a c = record c { timers = run_wait true c.alive c.timers }
timer_handler false a c =
    let waited = record c { timers = run_wait false c.alive c.timers } in
    if c.alive then act a waited else waited

-- on_event, past its early return
unfoldable pub event : Action → ℕ → Bool → WaitResult → Client → Client
unfolding disarm rearm act
event a p reading r c =
    let idle = disarm reading p c.sockets in
    let asked = call (socket_action (idle.states p).fd (action_flag reading r)) idle in
    let acted = act a (record c { sockets = asked }) in
    record acted { sockets = rearm p acted.sockets }

unfoldable pub on_event : Action → ℕ → Bool → WaitResult → Client → Client
unfolding event
on_event a p reading aborted c = record c { sockets = disarm reading p c.sockets }
on_event a p reading ready c = event a p reading ready c
on_event a p reading failed c = event a p reading failed c

-- The handler of a socket's wait.
unfoldable pub socket_handler : Action → ℕ → Bool → WaitResult → Client → Client
unfolding on_event has_state
socket_handler a p reading r c =
    if has_state p c.sockets.sockets
    then on_event a p reading r c
    else record c { sockets = disarm reading p c.sockets }
