-- ===== src/Client/Sane.antt =====
-- What every call of Client keeps, whatever libcurl calls back meanwhile and whatever handlers do.
pub mod Handlers
use cofetch.Base.{ℕ, ◌≡◌, ◌≤◌, true, List, [], ◌∷◌, arith}
use cofetch.Client.Calls.{
  CurlCall, socket, timer, header, body, curl_call, curl_calls, UserCall, starts, cancels,
  user_call, user_calls, Round, round, rounds, Action, counted, act,
}
use cofetch.Client.{Client, Message, done, another}
use cofetch.Sockets.Armed
use cofetch.Sockets.Events.{callback-Grows}
use cofetch.Sockets.Given.{callback-Owned}
use cofetch.Sockets.Kept.{Honest-Allowed}
use cofetch.Sockets.Owned.{Owned}
use cofetch.Sockets.{Sockets}
use cofetch.Timers.{Timers}
use cofetch.Timers.Wake
use cofetch.Timers.Wake.{timer_cb-Inv}
use cofetch.Transfers.Reach.{Reach}
use cofetch.Transfers.{Handler, Transfers}
use cofetch.Client.Promises.{
  Promised, AllPromised, UserPromised, AllUserPromised, RoundPromised, RoundsPromised, ActPromised,
  user_started, all_started, round_started, rounds_started,
}

-- The transfers are in a state that their operations lead to, with these handlers started; timers and
-- sockets keep their invariants; asio holds the descriptors of the map; at least n sockets have been
-- made; and the client is there.
pub record Sane (cap n : ℕ) (hs : List Handler) (c : Client) : Type 0 where
  pub flights : Reach cap hs c.flights
  pub timers : Wake.Inv c.timers
  pub sockets : Armed.Inv c.sockets
  pub owned : Owned c.given c.sockets
  pub more : n ≤ c.sockets.next
  pub living : c.alive ≡ true

curl_call-Sane :
    {cap n : ℕ} {hs : List Handler} {c : Client} (k : CurlCall)
    → Promised k c
    → Sane cap n hs c
    → Sane cap n hs (curl_call k c)
unfolding curl_call
curl_call-Sane (socket k) p s =
    let g = callback-Grows k (Honest-Allowed k p s.owned) s.sockets in
    record {
      flights = s.flights;
      timers = s.timers;
      sockets = g.inv;
      owned = callback-Owned k p s.owned;
      more = omega (arith, g.more, s.more);
      living = s.living;
    }
curl_call-Sane (timer now t) p s = record {
  flights = s.flights;
  timers = timer_cb-Inv now t s.timers;
  sockets = s.sockets;
  owned = s.owned;
  more = s.more;
  living = s.living;
}
curl_call-Sane (header e chunk k l) p s = record {
  flights = Reach.header_came e chunk k l s.flights;
  timers = s.timers;
  sockets = s.sockets;
  owned = s.owned;
  more = s.more;
  living = s.living;
}
curl_call-Sane (body e chunk k l) p s = record {
  flights = Reach.body_came e chunk k l s.flights;
  timers = s.timers;
  sockets = s.sockets;
  owned = s.owned;
  more = s.more;
  living = s.living;
}

curl_calls-Sane :
    {cap n : ℕ} {hs : List Handler} (ks : List CurlCall) {c : Client}
    → AllPromised ks c
    → Sane cap n hs c
    → Sane cap n hs (curl_calls ks c)
unfolding curl_calls
curl_calls-Sane [] p s = s
curl_calls-Sane (k ∷ ks) {c} p s =
    curl_calls-Sane ks {c = curl_call k c} p.1 (curl_call-Sane k p.0 s)

-- Only the transfers change, to a state that an operation leads to.
flights-Sane :
    {cap n : ℕ} {hs hs' : List Handler} {c : Client} {f : Transfers}
    → Reach cap hs' f
    → Sane cap n hs c
    → Sane cap n hs' (record c { flights = f })
flights-Sane r s = record {
  flights = r;
  timers = s.timers;
  sockets = s.sockets;
  owned = s.owned;
  more = s.more;
  living = s.living;
}

pub user_call-Sane :
    {cap n : ℕ} {hs : List Handler} {c : Client} (u : UserCall)
    → UserPromised u c
    → Sane cap n hs c
    → Sane cap n (user_started u hs) (user_call u c)
unfolding user_call
user_call-Sane (starts init rc r h ks) (new, small, p) s =
    curl_calls-Sane ks p (flights-Sane (Reach.started init rc r h s.flights new small) s)
user_call-Sane (cancels id ks) p s =
    curl_calls-Sane ks p (flights-Sane (Reach.cancelled id s.flights) s)

user_calls-Sane :
    {cap n : ℕ} (us : List UserCall) {hs : List Handler} {c : Client}
    → AllUserPromised us c
    → Sane cap n hs c
    → Sane cap n (all_started us hs) (user_calls us c)
unfolding user_calls
user_calls-Sane [] p s = s
user_calls-Sane (u ∷ us) {hs} {c} p s =
    user_calls-Sane us {hs = user_started u hs} {c = user_call u c} p.1 (user_call-Sane u p.0 s)

round-Sane :
    {cap n : ℕ} {hs : List Handler} {c : Client} (m : Message) (ks : List CurlCall)
    (us : List UserCall)
    → RoundPromised m ks us c
    → Sane cap n hs c
    → Sane cap n (round_started m us hs) (round m ks us c)
unfolding round
round-Sane another ks us p s = s
round-Sane (done e code status) ks us p s =
    user_calls-Sane us p.1
      (curl_calls-Sane ks p.0 (flights-Sane (Reach.completed e code status s.flights) s))

rounds-Sane :
    {cap n : ℕ} (rs : List Round) {hs : List Handler} {c : Client}
    → RoundsPromised rs c
    → Sane cap n hs c
    → Sane cap n (rounds_started rs hs) (rounds rs c)
unfolding rounds
rounds-Sane [] p s = s
rounds-Sane (r ∷ rs) {hs} {c} p s =
    rounds-Sane rs {hs = round_started r.message r.reaction hs}
      {c = round r.message r.removal r.reaction c} p.1
      (round-Sane r.message r.removal r.reaction p.0 s)

pub act-Sane :
    {cap n : ℕ} {hs : List Handler} {c : Client} (a : Action)
    → ActPromised a c
    → Sane cap n hs c
    → Sane cap n (rounds_started a.completions hs) (act a c)
unfolding act counted
act-Sane a p s =
    let called = curl_calls-Sane a.calls p.0 s in
    rounds-Sane a.completions p.1 (flights-Sane (Reach.counted a.running called.flights) called)

pub timers-Sane :
    {cap n : ℕ} {hs : List Handler} {c : Client} {t : Timers}
    → Wake.Inv t
    → Sane cap n hs c
    → Sane cap n hs (record c { timers = t })
timers-Sane i s = record {
  flights = s.flights;
  timers = i;
  sockets = s.sockets;
  owned = s.owned;
  more = s.more;
  living = s.living;
}

pub sockets-Sane :
    {cap n : ℕ} {hs : List Handler} {c : Client} {d : Sockets}
    → Armed.Inv d
    → Owned c.given d
    → n ≤ d.next
    → Sane cap n hs c
    → Sane cap n hs (record c { sockets = d })
sockets-Sane i o m s = record {
  flights = s.flights;
  timers = s.timers;
  sockets = i;
  owned = o;
  more = m;
  living = s.living;
}
