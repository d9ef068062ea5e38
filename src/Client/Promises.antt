-- ===== src/Client/Promises.antt =====
-- What is promised of the calls that meet a client, and which handlers they start.
use cofetch.Base.{ℕ, ◌+◌, ◌<◌, Bool, true, false, List, [], ◌∷◌, if◌then◌else◌}
use cofetch.Client.Calls.{
  CurlCall, socket, timer, header, body, curl_call, curl_calls, UserCall, starts, cancels,
  user_call, Round, round, Action, counted,
}
use cofetch.Client.{Client, Message, done, another}
use cofetch.Sockets.Armed.{reads, writes}
use cofetch.Sockets.Given.{Honest}
use cofetch.Sockets.Runs.{acting}
use cofetch.Sockets.Waits.{WaitResult, ready, aborted, failed, has_state}
use cofetch.Timers
use cofetch.Timers.{Timers}
use cofetch.Transfers.Invariant.Started.{IsNew}
use cofetch.Transfers.Operations.{id_mod}
use cofetch.Transfers
use cofetch.Transfers.{Handler, Transfers}

-- What libcurl and the system promise of a callback: it hands back the address that it was given, and
-- descriptors that are opened or dups are new.
abbrev pub Promised : CurlCall → Client → Type 0
Promised (socket k) c = Honest k c.given c.sockets
Promised (timer now t) c = Unit {0}
Promised (header e chunk n l) c = Unit {0}
Promised (body e chunk n l) c = Unit {0}

abbrev pub AllPromised : List CurlCall → Client → Type 0
AllPromised [] c = Unit {0}
AllPromised (k ∷ ks) c = Promised k c × AllPromised ks (curl_call k c)

-- What is promised of a program's call: a new handle from `curl_easy_init`, and ids left.
abbrev pub UserPromised : UserCall → Client → Type 0
UserPromised (starts init rc r h ks) c =
    IsNew init c.flights.calls
    × (c.flights.next_transfer_id + 1 < id_mod)
    × AllPromised ks (record c { flights = Transfers.Operations.start init rc r h c.flights })
UserPromised (cancels id ks) c =
    AllPromised ks (record c { flights = Transfers.Operations.cancel id c.flights })

abbrev pub AllUserPromised : List UserCall → Client → Type 0
AllUserPromised [] c = Unit {0}
AllUserPromised (u ∷ us) c = UserPromised u c × AllUserPromised us (user_call u c)

abbrev pub RoundPromised : Message → List CurlCall → List UserCall → Client → Type 0
RoundPromised another ks us c = Unit {0}
RoundPromised (done e code status) ks us c =
    let completed = record c { flights = Transfers.Operations.complete e code status c.flights } in
    AllPromised ks completed × AllUserPromised us (curl_calls ks completed)

abbrev pub RoundsPromised : List Round → Client → Type 0
RoundsPromised [] c = Unit {0}
RoundsPromised (r ∷ rs) c =
    RoundPromised r.message r.removal r.reaction c
    × RoundsPromised rs (round r.message r.removal r.reaction c)

abbrev pub ActPromised : Action → Client → Type 0
ActPromised a c =
    AllPromised a.calls c × RoundsPromised a.completions (counted a.running (curl_calls a.calls c))

-- The handlers started by a call, in front of those started before.
abbrev pub user_started : UserCall → List Handler → List Handler
user_started (starts init rc r h ks) hs = h ∷ hs
user_started (cancels id ks) hs = hs

abbrev pub all_started : List UserCall → List Handler → List Handler
all_started [] hs = hs
all_started (u ∷ us) hs = all_started us (user_started u hs)

abbrev pub round_started : Message → List UserCall → List Handler → List Handler
round_started another us hs = hs
round_started (done e code status) us hs = all_started us hs

abbrev pub rounds_started : List Round → List Handler → List Handler
rounds_started [] hs = hs
rounds_started (r ∷ rs) hs = rounds_started rs (round_started r.message r.reaction hs)

-- The handlers that an action starts, if it is made.
abbrev pub acted_started : Bool → Action → List Handler → List Handler
acted_started true a hs = rounds_started a.completions hs
acted_started false a hs = hs

abbrev pub KickPromised : Action → Client → Type 0
KickPromised a c = ActPromised a (record c { timers = Timers.run_kick c.alive c.timers })

abbrev pub TimerPromised : Action → Client → Type 0
TimerPromised a c = ActPromised a (record c { timers = Timers.run_wait false c.alive c.timers })

-- The timer's handler acts if it gets no error and the client is there.
abbrev pub acts_on_timer : Bool → Bool → Bool
acts_on_timer true alive = false
acts_on_timer false alive = alive

-- A wait for this state is outstanding.
abbrev pub Outstanding : ℕ → Bool → Client → Type 0
Outstanding p reading c =
    (p < c.sockets.next)
    × (0 < (if reading then reads p c.sockets.calls else writes p c.sockets.calls))

-- `on_event` acts unless its wait was aborted, and the wait's handler calls it if the map has the
-- state.
abbrev pub acts_on : WaitResult → Bool
acts_on aborted = false
acts_on ready = true
acts_on failed = true

abbrev pub acts_on_socket : ℕ → WaitResult → Client → Bool
acts_on_socket p r c = if has_state p c.sockets.sockets then acts_on r else false

abbrev pub EventPromised : Action → ℕ → Bool → WaitResult → Client → Type 0
EventPromised a p reading r c = ActPromised a (record c { sockets = acting p reading r c.sockets })
