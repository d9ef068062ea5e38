-- ===== src/Examples/Settled.antt =====
-- example_sync.cpp: every call of SyncClient settles.

use mathlib.Core.List.{mem-cons_self, map-id}
use mathlib.Core.Path.{subst}
use cofetch.Base.{
  ℕ, ◌≡◌, refl, ◌∙◌, true, List, [], ◌∷◌, some, ◌==◌, if◌then◌else◌, arith, Mem, count_where,
}
use cofetch.Client.{Client}
use cofetch.Client.Calls.{
  CurlCall, socket, timer, header, body, curl_call, curl_calls, UserCall, starts, cancels,
  user_call,
}
use cofetch.Client.Promises.{UserPromised}
use cofetch.Client.System.{System, Lives, used}
use cofetch.Examples.Answered.{Quiet, Drains, IsAnswer, Good, found_when-Quiet, found-Mem}
use cofetch.Examples.Unique.{is_for, IsFresh, one_answer}
use cofetch.Examples.Sync.{
  SyncClient, Outcome, returned, thrown, handler_of, calls_made, find_answer, outcome_of,
  get_future, restart, run_io, run, call_of, asked, get, Answers,
}
use cofetch.Request.{Request}
use cofetch.Request.Builder.{async_get}
use cofetch.Response.{Bytes, curle_ok}
use cofetch.Sockets.{SocketState}
use cofetch.Transfers.{Handler, Completion}

-- The response of a completion if its CURLcode is CURLE_OK, and an exception with its error code if not.
abbrev pub answer_of : Completion → Outcome
answer_of p = if p.response.curl_code == curle_ok then returned p.response else thrown p.error

outcome_of-Good : (p : Completion) → Good p → outcome_of p ≡ answer_of p
unfolding outcome_of
outcome_of-Good p good = rw good (ground arith)

get_future-some :
    (n : ℕ) (s : System) (p : Completion)
    → find_answer n (calls_made s) ≡ some p
    → get_future n s ≡ outcome_of p
unfolding get_future
get_future-some n s p e = rw (e, get_future) refl

-- The completion was called, it is that of the request n, and no other one is.
abbrev pub IsOnly : ℕ → Completion → System → Type 0
IsOnly n p s = IsAnswer n p × Mem p (calls_made s) × (count_where (is_for n) (calls_made s) ≡ 1)

-- When everything is over, the future of a request that was started is ready.
get_future-ready :
    {cap : ℕ} {blank : SocketState} {hs : List Handler} {s : System} (n : ℕ)
    → Lives cap blank (handler_of n ∷ hs) s
    → s.client.alive ≡ true
    → Quiet s
    → IsFresh n hs
    → (p : Completion) × IsOnly n p s × (get_future n s ≡ answer_of p)
get_future-ready {s} n r here quiet fresh =
    let (p, found, good, mine) = found_when-Quiet n r here quiet mem-cons_self in
    (
      p,
      (
        mine,
        subst (Mem p) (map-id (calls_made s)) (found-Mem (λ c. c) n (calls_made s) p found),
        one_answer n r here quiet fresh,
      ),
      get_future-some n s p found ∙ outcome_of-Good p good,
    )

alive-curl_calls : (ks : List CurlCall) (c : Client) → (curl_calls ks c).alive ≡ c.alive
unfolding curl_calls curl_call
alive-curl_calls [] c = refl
alive-curl_calls (socket k ∷ ks) c = alive-curl_calls ks _
alive-curl_calls (timer now t ∷ ks) c = alive-curl_calls ks _
alive-curl_calls (header e chunk n l ∷ ks) c = alive-curl_calls ks _
alive-curl_calls (body e chunk n l ∷ ks) c = alive-curl_calls ks _

alive-user_call : (u : UserCall) (c : Client) → (user_call u c).alive ≡ c.alive
unfolding user_call
alive-user_call (starts init rc r h ks) c = alive-curl_calls ks _
alive-user_call (cancels id ks) c = alive-curl_calls ks _

-- A call of `run` behind the start of a request, however the io_context was left before.
run_settles :
    {cap : ℕ} {blank : SocketState} {hs : List Handler} (drain : System → System) (a : Answers)
    (n : ℕ) (r : Request) (s : SyncClient)
    → Lives cap blank hs s.io
    → s.io.client.alive ≡ true
    → IsFresh n hs
    → UserPromised (call_of a r n) s.io.client
    → Drains cap blank (handler_of n ∷ hs) drain (asked a r n s).io
    → let last = drain (asked a r n s).io in
      Lives cap blank (handler_of n ∷ hs) last
      × (last.client.alive ≡ true)
      × ((p : Completion) × IsOnly n p last
          × (run drain n (asked a r n s) ≡ (answer_of p, record { io = last; stopped = true })))
unfolding run restart run_io
run_settles drain a n r s lives here fresh promised drains =
    let (last, still, quiet) =
      drains (used (call_of a r n) lives here promised)
        (alive-user_call (call_of a r n) s.io.client ∙ here) in
    let (p, mine, ready) = get_future-ready n last still quiet fresh in
    (last, still, (p, mine, rw ready refl))

-- When a client that is there gets a new handle, no request before has this one's handler, and the
-- io_context runs until nothing is left, then SyncClient::get does not wait for ever: the handler of
-- just this request has been called, once, and get returns the response that it got if its CURLcode is
-- CURLE_OK, and throws its error code if not. The client is left as it is to be for the next call,
-- although the io_context is stopped.
pub get_settles :
    {cap : ℕ} {blank : SocketState} {hs : List Handler} (drain : System → System) (a : Answers)
    (n : ℕ) (url : Bytes) (s : SyncClient)
    → Lives cap blank hs s.io
    → s.io.client.alive ≡ true
    → IsFresh n hs
    → UserPromised (call_of a (async_get url) n) s.io.client
    → Drains cap blank (handler_of n ∷ hs) drain (asked a (async_get url) n s).io
    → let last = drain (asked a (async_get url) n s).io in
      Lives cap blank (handler_of n ∷ hs) last
      × (last.client.alive ≡ true)
      × ((p : Completion) × IsOnly n p last
          × (get drain a n url s ≡ (answer_of p, record { io = last; stopped = true })))
unfolding get
get_settles drain a n url s = run_settles drain a n (async_get url) s
