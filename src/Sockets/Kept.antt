-- ===== src/Sockets/Kept.antt =====
-- Runs in which the system and libcurl do as documented: no descriptor is lost, and each is closed
-- once.
use cofetch.Base.{
  ℕ, suc, ◌≡◌, ◌<◌, refl, Bool, true, false, not, List, [], ◌∷◌, Option, none, some, ◌==◌,
  if◌then◌else◌, arith, Bool-cases, inl, inr,
}
use cofetch.Sockets.Closing.{closed, close_socket_cb-closed}
use cofetch.Sockets.Events.{
  Callback, opens, closes, tells, callback, callbacks, Allowed, AllAllowed,
}
use cofetch.Sockets.Given.{given_after, Honest, callback-Owned, arm-Owned}
use cofetch.Sockets.Owned.{Owned, native_fixed, Backs-Sound}
use cofetch.Sockets.Armed.{reads, writes}
use cofetch.Sockets.Runs.{init, acting, Runs}
use cofetch.Sockets.Waits.{
  WaitResult, ready, aborted, failed, disarm, rearm, on_event, wait_handler, has_state,
}
use cofetch.Sockets.{Sockets, SocketState, close_socket_cb, find}

abbrev pub given_all : List Callback → Sockets → (ℕ → Option ℕ) → ℕ → Option ℕ
given_all [] c given = given
given_all (k ∷ ks) c given = given_all ks (callback k c) (given_after k c given)

abbrev pub AllHonest : List Callback → (ℕ → Option ℕ) → Sockets → Type 0
AllHonest [] given c = Unit {0}
AllHonest (k ∷ ks) given c = Honest k given c × AllHonest ks (given_after k c given) (callback k c)

-- What libcurl has behind a wait's handler, in which it makes these callbacks.
abbrev pub given_event :
    List Callback → ℕ → Bool → WaitResult → Sockets → (ℕ → Option ℕ) → ℕ → Option ℕ
given_event ks p reading aborted c given = given
given_event ks p reading r c given = given_all ks (acting p reading r c) given

abbrev pub given_wait :
    List Callback → ℕ → Bool → WaitResult → Sockets → (ℕ → Option ℕ) → ℕ → Option ℕ
given_wait ks p reading r c given =
    if has_state p c.sockets then given_event ks p reading r c given else given

-- `Keeps blank given c`: from no socket to `c`, with what curl_multi_assign has given libcurl.
pub data Keeps (blank : SocketState) : (ℕ → Option ℕ) → Sockets → Type 0 where
  initial : Keeps blank (λ fd. none) (init blank)
  called :
      {given : ℕ → Option ℕ} {c : Sockets} (k : Callback)
      → Keeps blank given c
      → Honest k given c
      → Keeps blank (given_after k c given) (callback k c)
  woken :
      {given : ℕ → Option ℕ} {c : Sockets} (p : ℕ) (reading : Bool) (r : WaitResult)
      (ks : List Callback)
      → Keeps blank given c
      → p < c.next
      → 0 < (if reading then reads p c.calls else writes p c.calls)
      → AllHonest ks given (acting p reading r c)
      → Keeps blank (given_wait ks p reading r c given) (wait_handler (callbacks ks) p reading r c)

pub init-Owned : (blank : SocketState) → Owned (λ fd. none) (init blank)
unfolding init find
init-Owned blank = record {
  backed = λ fd p e. cc;
  kept = λ p h e. elim h [ ];
  assigned = λ fd p e. cc;
  distinct = tt;
  dupped = λ p h e k. elim h [ ];
}

callbacks-Owned :
    (ks : List Callback) {given : ℕ → Option ℕ} {c : Sockets}
    → AllHonest ks given c
    → Owned given c
    → Owned (given_all ks c given) (callbacks ks c)
unfolding callbacks
callbacks-Owned [] h o = o
callbacks-Owned (k ∷ ks) {given} {c} h o =
    callbacks-Owned ks {given = given_after k c given} {c = callback k c} h.1
      (callback-Owned k h.0 o)

pub disarm-Owned :
    {given : ℕ → Option ℕ} {c : Sockets} (reading : Bool) (p : ℕ)
    → Owned given c
    → Owned given (disarm reading p c)
unfolding disarm
disarm-Owned true p o = native_fixed (λ q. ground arith) refl refl (λ g d e. e) o
disarm-Owned false p o = native_fixed (λ q. ground arith) refl refl (λ g d e. e) o

pub rearm-Owned :
    {given : ℕ → Option ℕ} {c : Sockets} (p : ℕ) → Owned given c → Owned given (rearm p c)
unfolding rearm
rearm-Owned {c} p o = elim (Bool-cases (not ((c.states p).watch == 0))) [
  | inl watched ↦ rw watched (arm-Owned p o)
  | inr idle ↦ rw idle o
]

pub acting-Owned :
    {given : ℕ → Option ℕ} {c : Sockets} (p : ℕ) (reading : Bool) (r : WaitResult)
    → Owned given c
    → Owned given (acting p reading r c)
acting-Owned p reading r o =
    native_fixed (λ q. record { fds = refl; natives = refl; borroweds = refl; opens = refl }) refl
      refl (λ g d e. e) (disarm-Owned reading p o)

on_event-Owned :
    {given : ℕ → Option ℕ} {c : Sockets} (p : ℕ) (reading : Bool) (r : WaitResult)
    (ks : List Callback)
    → AllHonest ks given (acting p reading r c)
    → Owned given c
    → Owned (given_event ks p reading r c given) (on_event (callbacks ks) p reading r c)
unfolding on_event
on_event-Owned p reading ready ks h o =
    rearm-Owned p (callbacks-Owned ks h (acting-Owned p reading ready o))
on_event-Owned p reading failed ks h o =
    rearm-Owned p (callbacks-Owned ks h (acting-Owned p reading failed o))
on_event-Owned p reading aborted ks h o = disarm-Owned reading p o

if_wait-Owned :
    {given given' : ℕ → Option ℕ} (b : Bool) {x y : Sockets}
    → Owned given x
    → Owned given' y
    → Owned (if b then given else given') (if b then x else y)
if_wait-Owned true o w = o
if_wait-Owned false o w = w

-- Whatever sockets libcurl opens, watches and closes and in whatever order waits end, what the map has
-- for a descriptor is open and holds it, or a dup of it if it is borrowed; libcurl has been given no
-- other state for it; and every state that is open is in the map.
pub Keeps-Owned :
    {blank : SocketState} {given : ℕ → Option ℕ} {c : Sockets} → Keeps blank given c → Owned given c
unfolding wait_handler
Keeps-Owned {blank} initial = init-Owned blank
Keeps-Owned (called k r h) = callback-Owned k h (Keeps-Owned r)
Keeps-Owned (woken {c} p reading r ks k known out h) =
    if_wait-Owned (has_state p c.sockets) (on_event-Owned p reading r ks h (Keeps-Owned k))
      (disarm-Owned reading p (Keeps-Owned k))

-- In each such run close_socket_cb closes the descriptor that libcurl names once, be it unknown, one
-- that asio opened, or a borrowed one.
pub closed-Keeps :
    {blank : SocketState} {given : ℕ → Option ℕ} {c : Sockets} (fd : ℕ)
    → Keeps blank given c
    → closed fd (close_socket_cb fd c).calls ≡ suc (closed fd c.calls)
closed-Keeps {c} fd r =
    close_socket_cb-closed fd c (λ p e. Backs-Sound ((Keeps-Owned r).backed fd p e))

pub Honest-Allowed :
    {given : ℕ → Option ℕ} {c : Sockets} (k : Callback)
    → Honest k given c
    → Owned given c
    → Allowed k c
Honest-Allowed (opens purpose family opened) h o = tt
Honest-Allowed (closes fd) h o = tt
Honest-Allowed (tells fd what (some p) dup assigned) (e, _) o =
    (o.backed fd p (o.assigned fd p e)).known
Honest-Allowed (tells fd what none dup assigned) h o = tt

AllHonest-AllAllowed :
    (ks : List Callback) {given : ℕ → Option ℕ} {c : Sockets}
    → AllHonest ks given c
    → Owned given c
    → AllAllowed ks c
AllHonest-AllAllowed [] h o = tt
AllHonest-AllAllowed (k ∷ ks) {given} {c} h o = (
  Honest-Allowed k h.0 o,
  AllHonest-AllAllowed ks {given = given_after k c given} {c = callback k c} h.1
      (callback-Owned k h.0 o),
)

-- Such a run is a run of callbacks and waits' handlers, in which the armed flags are right too.
pub Keeps-Runs :
    {blank : SocketState} {given : ℕ → Option ℕ} {c : Sockets} → Keeps blank given c → Runs blank c
Keeps-Runs initial = Runs.initial
Keeps-Runs (called k r h) = Runs.called k (Honest-Allowed k h (Keeps-Owned r)) (Keeps-Runs r)
Keeps-Runs (woken p reading r ks k known out h) =
    Runs.woken p reading r ks known out
      (AllHonest-AllAllowed ks h (acting-Owned p reading r (Keeps-Owned k))) (Keeps-Runs k)
