-- ===== src/Examples/Sync.antt =====
-- example_sync.cpp: class SyncClient, which runs the io_context until a request is over.
use cofetch.Base.{
  ℕ, Bool, true, false, List, [], ◌∷◌, ◌++◌, Option, none, some, ◌==◌, if◌then◌else◌,
}
use cofetch.Client.Calls.{UserCall, starts, user_call, CurlCall}
use cofetch.Client.System.{System, ran_posts}
use cofetch.Request.{Request}
use cofetch.Request.Builder.{async_get, async_post}
use cofetch.Response.{Bytes, Response}
use cofetch.Transfers.Errors.{truthy}
use cofetch.Transfers.{Handler, Completion, ErrorCode}

-- The io_context with its client, and whether it is stopped, as `run` leaves it.
pub record SyncClient : Type 0 where
  pub io : System
  pub stopped : Bool

-- What `future::get` does: it returns, throws, or waits for ever.
pub data Outcome : Type 0 where
  returned : Response → Outcome
  thrown : ErrorCode → Outcome
  blocked : Outcome

-- The handler of the request n, such as the one that `use_future` makes. Its slot is not connected.
abbrev pub handler_of : ℕ → Handler
handler_of n = record { name = n; slot_connected = false }

-- The handlers' calls so far, the posted ones first.
abbrev pub calls_made : System → List Completion
calls_made s = ran_posts s ++ s.client.flights.delivered

unfoldable pub find_answer : ℕ → List Completion → Option Completion
find_answer n [] = none
find_answer n (p ∷ ps) = elim p.handler [
  | none ↦ find_answer n ps
  | some h ↦ if h.name == n then some p else find_answer n ps
]

-- `pending.get()`, with the error code of the call as an exception.
unfoldable pub outcome_of : Completion → Outcome
unfolding truthy
outcome_of p = if truthy p.error then thrown p.error else returned p.response

unfoldable pub get_future : ℕ → System → Outcome
unfolding find_answer outcome_of
get_future n s = elim (find_answer n (calls_made s)) [ none ↦ blocked | some p ↦ outcome_of p ]

unfoldable pub restart : SyncClient → SyncClient
restart s = record s { stopped = false }

-- What libcurl answers to a request: its handle, its code, and its calls of the callbacks.
pub record Answers : Type 0 where
  pub handle : Option ℕ
  pub code : ℕ
  pub calls : List CurlCall

abbrev pub call_of : Answers → Request → ℕ → UserCall
call_of a r n = starts a.handle a.code r (handler_of n) a.calls

abbrev pub asked : Answers → Request → ℕ → SyncClient → SyncClient
asked a r n s = record s { io = record (s.io) { client = user_call (call_of a r n) s.io.client } }

-- `drain` is what `io_context::run` does unless it is stopped.
module _ (drain : System → System) where
  unfoldable pub run_io : SyncClient → SyncClient
  run_io s = if s.stopped then s else record { io = drain s.io; stopped = true }

  -- SyncClient::run, with the future of the request n
  unfoldable pub run : ℕ → SyncClient → Outcome × SyncClient
  unfolding restart run_io get_future
  run n s = let over = run_io (restart s) in (get_future n over.io, over)

  -- SyncClient::get
  unfoldable pub get : Answers → ℕ → Bytes → SyncClient → Outcome × SyncClient
  unfolding run async_get
  get a n url s = run n (asked a (async_get url) n s)

  -- SyncClient::post
  unfoldable pub post : Answers → ℕ → Bytes → Bytes → SyncClient → Outcome × SyncClient
  unfolding run async_post
  post a n url body s = run n (asked a (async_post url body) n s)
