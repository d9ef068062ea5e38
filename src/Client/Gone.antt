-- ===== src/Client/Gone.antt =====
-- A client that is gone: what still runs behind it calls nothing.
use mathlib.Core.Path.{subst}
use cofetch.Base.{
  ℤ, ℕ, ◌≡◌, false, refl, sym, ap, ◌∙◌, Bool, true, List, [], ◌++◌, Option, some, map, Perm, arith,
  ◌⊎◌, if◌then◌else◌,
}
use cofetch.Client.Calls.{Action, act, posted_kick, timer_handler, on_event, socket_handler}
use cofetch.Client.Promises.{acted_started, acts_on, acts_on_timer, acts_on_socket}
use cofetch.Client.Destroyed.{destroy-balanced, destroy-lists}
use cofetch.Client.Sane.{Sane}
use cofetch.Client.System.{System, new_client}
use cofetch.Client.{Client, finish, destroy}
use cofetch.Sockets.Runs
use cofetch.Sockets.Events.{Callback}
use cofetch.Sockets.Kept.{init-Owned}
use cofetch.Sockets.Waits.{WaitResult, disarm, has_state}
use cofetch.Sockets.{SocketState}
use cofetch.Timers
use cofetch.Timers.Wake
use cofetch.Timers.{run_kick, run_wait}
use cofetch.Timers.Wake.{expire-Inv}
use cofetch.Transfers.Completions.{held, handlers}
use cofetch.Transfers.Reach.{Reach, Reach-handlers, Reach-Inv}
use cofetch.Response.{Bytes}
use cofetch.Transfers.Errors.{AllTold, Reach-AllTold}
use cofetch.Transfers.Lists.{built, freed, Reach-Accounted}
use cofetch.Transfers.Invariant.{made, cleaned}
use cofetch.Transfers.{Handler}

pub true_is_false : true ≡ false → ⊥
true_is_false e = cc

-- The client is gone: it has no transfer, no socket is in its map, each
-- easy handle has been freed as often as it was made, and so has each header list, completions have the
-- error codes of their responses, and each handler started is dropped, posted or called.
pub record Gone (hs : List Handler) (dropped : List (Option Handler)) (c : Client) : Type 0 where
  pub dead : c.alive ≡ false
  pub no_transfers : c.flights.transfers ≡ []
  pub no_sockets : c.sockets.sockets ≡ []
  pub cleaned_up : (e : ℕ) → made e c.flights.calls ≡ cleaned e c.flights.calls
  pub lists : Perm (freed c.flights.calls) (built c.flights.calls)
  pub told : (strerror : ℕ → Bytes) → AllTold strerror c.flights
  pub kept : Perm (dropped ++ handlers c.flights) (map some hs)

abbrev pub Whole : ℕ → List Handler → System → Type 0
Whole cap hs s = (Sane cap 0 hs s.client × (s.dropped ≡ [])) ⊎ Gone hs s.dropped s.client

pub new_client-Sane : (cap : ℕ) (blank : SocketState) → Sane cap 0 [] (new_client cap blank)
unfolding new_client
new_client-Sane cap blank = record {
  flights = Reach.initial;
  timers = Timers.Wake.init-Inv;
  sockets = Runs.init-Inv blank;
  owned = init-Owned blank;
  more = omega arith;
  living = refl;
}

pub finish-Gone :
    {cap : ℕ} {hs : List Handler} {c : Client} (ks : List Callback) (ts : List (ℕ × ℤ))
    → Sane cap 0 hs c
    → Gone hs (held c.flights.transfers) (finish ks ts c)
unfolding finish destroy
finish-Gone {c} ks ts w = record {
  dead = refl;
  no_transfers = refl;
  no_sockets = refl;
  cleaned_up = λ e. destroy-balanced e c (Reach-Inv w.flights);
  lists = destroy-lists c (Reach-Accounted w.flights);
  told = λ strerror. Reach-AllTold strerror w.flights;
  kept = Reach-handlers w.flights;
}

-- What leaves transfers, map and life alone leaves the client gone.
pub same-Gone :
    {hs : List Handler} {dropped : List (Option Handler)} {c d : Client}
    → d.flights ≡ c.flights
    → d.sockets.sockets ≡ c.sockets.sockets
    → d.alive ≡ c.alive
    → Gone hs dropped c
    → Gone hs dropped d
same-Gone {hs} {dropped} f m a g = record {
  dead = a ∙ g.dead;
  no_transfers = ap (λ x. x.transfers) f ∙ g.no_transfers;
  no_sockets = m ∙ g.no_sockets;
  cleaned_up =
      λ e. ap (λ x. made e x.calls) f ∙ g.cleaned_up e ∙ sym (ap (λ x. cleaned e x.calls) f);
  lists = subst (λ x. Perm (freed x.calls) (built x.calls)) (sym f) g.lists;
  told = λ strerror. subst (AllTold strerror) (sym f) (g.told strerror);
  kept = subst (λ x. Perm (dropped ++ handlers x) (map some hs)) (sym f) g.kept;
}

-- A handler of a client that is gone starts nothing.
idle-Gone :
    {hs : List Handler} {dropped : List (Option Handler)} {c : Client} (b : Bool) (a : Action)
    → b ≡ false
    → Gone hs dropped c
    → Gone (acted_started b a hs) dropped c
idle-Gone true a e g = cc
idle-Gone false a e g = g

if_act-Gone :
    {hs : List Handler} {dropped : List (Option Handler)} {c : Client} (b : Bool) (a : Action)
    → b ≡ false
    → Gone hs dropped c
    → Gone (acted_started b a hs) dropped (if b then act a c else c)
if_act-Gone true a e g = cc
if_act-Gone false a e g = g

pub posted_kick-Gone :
    {hs : List Handler} {dropped : List (Option Handler)} {c : Client} (a : Action)
    → Gone hs dropped c
    → Gone (acted_started c.alive a hs) dropped (posted_kick a c)
unfolding posted_kick
posted_kick-Gone {c} a g = if_act-Gone c.alive a g.dead (same-Gone refl refl refl g)

pub timer_handler-Gone :
    {hs : List Handler} {dropped : List (Option Handler)} {c : Client} (failed : Bool) (a : Action)
    → Gone hs dropped c
    → Gone (acted_started (acts_on_timer failed c.alive) a hs) dropped (timer_handler failed a c)
unfolding timer_handler
timer_handler-Gone true a g = same-Gone refl refl refl g
timer_handler-Gone {c} false a g = if_act-Gone c.alive a g.dead (same-Gone refl refl refl g)

if_handled-Gone :
    {hs : List Handler} {dropped : List (Option Handler)} (x : Client) {y : Client} (b d : Bool)
    (a : Action)
    → b ≡ false
    → Gone hs dropped y
    → Gone (acted_started (if b then d else false) a hs) dropped (if b then x else y)
if_handled-Gone x true d a e g = cc
if_handled-Gone x false d a e g = g

disarm_sockets :
    (reading : Bool) (p : ℕ) (c : Client) → (disarm reading p c.sockets).sockets ≡ c.sockets.sockets
unfolding disarm
disarm_sockets true p c = refl
disarm_sockets false p c = refl

pub socket_handler-Gone :
    {hs : List Handler} {dropped : List (Option Handler)} {c : Client} (a : Action) (p : ℕ)
    (reading : Bool) (r : WaitResult)
    → Gone hs dropped c
    → Gone (acted_started (acts_on_socket p r c) a hs) dropped (socket_handler a p reading r c)
unfolding socket_handler
socket_handler-Gone {c} a p reading r g =
    if_handled-Gone (on_event a p reading r c) (has_state p c.sockets.sockets) (acts_on r) a
      (ap (has_state p) g.no_sockets) (same-Gone refl (disarm_sockets reading p c) refl g)
