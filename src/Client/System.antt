-- ===== src/Client/System.antt =====
-- A client with the io_context that runs it, from its constructor on.
use cofetch.Base.{
  ℤ, ℕ, suc, ◌-◌, ◌≡◌, ◌<◌, Bool, true, none, List, [], ◌++◌, Option, take, drop, length,
}
use cofetch.Client.Calls.{UserCall, user_call, Action, posted_kick, timer_handler, socket_handler}
use cofetch.Client.Promises.{
  UserPromised, user_started, acted_started, KickPromised, TimerPromised, acts_on_timer,
  EventPromised, Outstanding, acts_on_socket,
}
use cofetch.Client.{Client, finish}
use cofetch.Sockets.Runs
use cofetch.Sockets.Events.{Callback}
use cofetch.Sockets.Waits.{WaitResult}
use cofetch.Sockets.{SocketState}
use cofetch.Timers
use cofetch.Timers.Wake.{kicks}
use cofetch.Timers.{expire}
use cofetch.Transfers.Completions.{held, called}
use cofetch.Transfers.Reach.{Reach, Reach-handlers}
use cofetch.Transfers.Reach
use cofetch.Transfers.{Handler, Completion}

-- `ran` posted completions have run, the oldest first, as an io_context on one thread has it. `dropped`
-- are the handlers that went down with the client.
pub record System : Type 0 where
  pub client : Client
  pub ran : ℕ
  pub dropped : List (Option Handler)

-- Client(io, max_pooled_connections)
unfoldable pub new_client : ℕ → SocketState → Client
unfolding Reach.init Timers.init Runs.init
new_client cap blank = record {
  flights = Reach.init cap;
  timers = Timers.init;
  sockets = Runs.init blank;
  alive = true;
  given = λ fd. none;
}

abbrev pub new_system : ℕ → SocketState → System
new_system cap blank = record { client = new_client cap blank; ran = 0; dropped = [] }

-- The posted completions that have not run, and those that have.
abbrev pub pending : System → List Completion
pending s = take (length s.client.flights.posted - s.ran) s.client.flights.posted

abbrev pub ran_posts : System → List Completion
ran_posts s = drop (length s.client.flights.posted - s.ran) s.client.flights.posted

-- The handlers that have been called: inside check_completions, or by a post that ran.
abbrev pub invoked : System → List (Option Handler)
invoked s = called (ran_posts s) ++ called s.client.flights.delivered

-- `Lives cap blank hs s`: from a new client with this cap to `s`, with these handlers started. The
-- program calls while the client is there. The io_context runs a posted kick, the timer's handler, a
-- socket's handler or a posted completion, in any order between them, also when the client is gone.
pub data Lives (cap : ℕ) (blank : SocketState) : List Handler → System → Type 0 where
  made : Lives cap blank [] (new_system cap blank)
  used :
      {hs : List Handler} {s : System} (u : UserCall)
      → Lives cap blank hs s
      → s.client.alive ≡ true
      → UserPromised u s.client
      → Lives cap blank (user_started u hs) (record s { client = user_call u s.client })
  kicked :
      {hs : List Handler} {s : System} (a : Action)
      → Lives cap blank hs s
      → 0 < kicks s.client.timers.calls
      → KickPromised a s.client
      → Lives cap blank
          (acted_started s.client.alive a hs)
          (record s { client = posted_kick a s.client })
  expired :
      {hs : List Handler} {s : System}
      → Lives cap blank hs s
      → Lives cap blank hs
          (record s { client = record (s.client) { timers = expire s.client.timers } })
  timed :
      {hs : List Handler} {s : System} (failed : Bool) (a : Action)
      → Lives cap blank hs s
      → TimerPromised a s.client
      → Lives cap blank
          (acted_started (acts_on_timer failed s.client.alive) a hs)
          (record s { client = timer_handler failed a s.client })
  woken :
      {hs : List Handler} {s : System} (a : Action) (p : ℕ) (reading : Bool) (r : WaitResult)
      → Lives cap blank hs s
      → Outstanding p reading s.client
      → EventPromised a p reading r s.client
      → Lives cap blank
          (acted_started (acts_on_socket p r s.client) a hs)
          (record s { client = socket_handler a p reading r s.client })
  post_ran :
      {hs : List Handler} {s : System}
      → Lives cap blank hs s
      → s.ran < length s.client.flights.posted
      → Lives cap blank hs (record s { ran = suc s.ran })
  destroyed :
      {hs : List Handler} {s : System} (ks : List Callback) (ts : List (ℕ × ℤ))
      → Lives cap blank hs s
      → s.client.alive ≡ true
      → Lives cap blank hs
          (record s { client = finish ks ts s.client; dropped = held s.client.flights.transfers })
