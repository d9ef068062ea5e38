-- ===== src/Client/Sane/Handlers.antt =====
-- What the handlers of kicks, of the timer and of sockets keep.
use cofetch.Base.{ℕ, ◌≤◌, ◌<◌, Bool, true, false, List, if◌then◌else◌, arith}
use cofetch.Client.Calls.{Action, act, posted_kick, timer_handler, event, on_event, socket_handler}
use cofetch.Client.{Client}
use cofetch.Sockets.Armed
use cofetch.Sockets.Armed.{reads, writes}
use cofetch.Sockets.Events.{call_action-Inv}
use cofetch.Sockets.Runs.{disarm-Inv, rearm-Inv, next-disarm, next-rearm, acting}
use cofetch.Sockets.Waits.{WaitResult, ready, aborted, failed, disarm, action_flag, has_state}
use cofetch.Sockets.Kept.{disarm-Owned, rearm-Owned, acting-Owned}
use cofetch.Timers.Wake.{run_kick-Inv, run_wait-Inv, kicks}
use cofetch.Transfers.{Handler}
use cofetch.Client.Promises.{
  ActPromised, rounds_started, KickPromised, TimerPromised, acts_on_timer, Outstanding, acts_on,
  acts_on_socket, EventPromised, acted_started,
}
use cofetch.Client.Sane.{Sane, act-Sane, timers-Sane, sockets-Sane}

if_act-Sane :
    {cap n : ℕ} {hs : List Handler} {c : Client} (b : Bool) (a : Action)
    → ActPromised a c
    → Sane cap n hs c
    → Sane cap n (acted_started b a hs) (if b then act a c else c)
if_act-Sane true a p s = act-Sane a p s
if_act-Sane false a p s = s

pub posted_kick-Sane :
    {cap n : ℕ} {hs : List Handler} {c : Client} (a : Action)
    → 0 < kicks c.timers.calls
    → KickPromised a c
    → Sane cap n hs c
    → Sane cap n (acted_started c.alive a hs) (posted_kick a c)
unfolding posted_kick
posted_kick-Sane {c} a out p s =
    if_act-Sane c.alive a p (timers-Sane (run_kick-Inv c.alive out s.timers) s)

pub timer_handler-Sane :
    {cap n : ℕ} {hs : List Handler} {c : Client} (failed : Bool) (a : Action)
    → TimerPromised a c
    → Sane cap n hs c
    → Sane cap n (acted_started (acts_on_timer failed c.alive) a hs) (timer_handler failed a c)
unfolding timer_handler
timer_handler-Sane {c} true a p s = timers-Sane (run_wait-Inv true c.alive s.timers) s
timer_handler-Sane {c} false a p s =
    if_act-Sane c.alive a p (timers-Sane (run_wait-Inv false c.alive s.timers) s)

disarm-Sane :
    {cap n : ℕ} {hs : List Handler} {c : Client} (p : ℕ) (reading : Bool)
    → 0 < (if reading then reads p c.sockets.calls else writes p c.sockets.calls)
    → Sane cap n hs c
    → Sane cap n hs (record c { sockets = disarm reading p c.sockets })
disarm-Sane p reading out s =
    sockets-Sane (disarm-Inv reading p out s.sockets) (disarm-Owned reading p s.owned)
      (rw next-disarm s.more) s

all_of :
    {cap n : ℕ} {hs : List Handler} {c : Client} → Sane cap n hs c → Sane cap c.sockets.next hs c
all_of s = record {
  flights = s.flights;
  timers = s.timers;
  sockets = s.sockets;
  owned = s.owned;
  more = omega arith;
  living = s.living;
}

more-Sane :
    {cap n m : ℕ} {hs : List Handler} {d : Client} → n ≤ m → Sane cap m hs d → Sane cap n hs d
more-Sane le s = record {
  flights = s.flights;
  timers = s.timers;
  sockets = s.sockets;
  owned = s.owned;
  more = omega (arith, s.more);
  living = s.living;
}

if_handled-Sane :
    {cap n : ℕ} {hs : List Handler} {x y : Client} (b d : Bool) (a : Action)
    → Sane cap n (acted_started d a hs) x
    → Sane cap n hs y
    → Sane cap n (acted_started (if b then d else false) a hs) (if b then x else y)
if_handled-Sane true d a s t = s
if_handled-Sane false d a s t = t

event-Sane :
    {cap n : ℕ} {hs : List Handler} {c : Client} (a : Action) (p : ℕ) (reading : Bool)
    (r : WaitResult)
    → Outstanding p reading c
    → EventPromised a p reading r c
    → Sane cap n hs c
    → Sane cap n (rounds_started a.completions hs) (event a p reading r c)
unfolding event
event-Sane {c} a p reading r (known, out) e s =
    let idle : Armed.Inv (acting p reading r c.sockets) =
      call_action-Inv _ (action_flag reading r) (disarm-Inv reading p out s.sockets) in
    let at_least : c.sockets.next ≤ (disarm reading p c.sockets).next =
      omega (arith, next-disarm reading p c.sockets) in
    let acted =
      act-Sane {n = c.sockets.next} a e
        (sockets-Sane idle (acting-Owned p reading r s.owned) at_least (all_of s)) in
    sockets-Sane (rearm-Inv p (omega (arith, acted.more)) acted.sockets) (rearm-Owned p acted.owned)
      (rw next-rearm (omega (arith, acted.more, s.more))) (more-Sane s.more acted)

on_event-Sane :
    {cap n : ℕ} {hs : List Handler} {c : Client} (a : Action) (p : ℕ) (reading : Bool)
    (r : WaitResult)
    → Outstanding p reading c
    → EventPromised a p reading r c
    → Sane cap n hs c
    → Sane cap n (acted_started (acts_on r) a hs) (on_event a p reading r c)
unfolding on_event
on_event-Sane a p reading ready o e s = event-Sane a p reading ready o e s
on_event-Sane a p reading failed o e s = event-Sane a p reading failed o e s
on_event-Sane {c} a p reading aborted o e s = disarm-Sane p reading o.1 s

pub socket_handler-Sane :
    {cap n : ℕ} {hs : List Handler} {c : Client} (a : Action) (p : ℕ) (reading : Bool)
    (r : WaitResult)
    → Outstanding p reading c
    → EventPromised a p reading r c
    → Sane cap n hs c
    → Sane cap n (acted_started (acts_on_socket p r c) a hs) (socket_handler a p reading r c)
unfolding socket_handler
socket_handler-Sane {c} a p reading r o e s =
    if_handled-Sane (has_state p c.sockets.sockets) (acts_on r) a
      (on_event-Sane a p reading r o e s) (disarm-Sane p reading o.1 s)
