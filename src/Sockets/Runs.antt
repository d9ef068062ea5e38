-- ===== src/Sockets/Runs.antt =====
-- on_event, and the states that sequences of callbacks and of waits' handlers lead to.
use cofetch.Base.{
  ℕ, ◌≡◌, ◌≢◌, ◌<◌, refl, ap, ◌∙◌, Bool, true, false, not, List, [], ◌==◌, if◌then◌else◌, arith,
  ==_refl,
}
use cofetch.Sockets.Armed.{
  reads, writes, Inv, arm-Inv, if-Inv, one_if, next-arm_read, next-arm_write, watch-Inv,
}
use cofetch.Sockets.Events.{
  Callback, callback, callbacks, Allowed, AllAllowed, callback-Grows, callbacks-Grows, same-Grows,
  call_action-Inv,
}
use cofetch.Sockets.{
  Sockets, SocketState, socket_action, call, update, wants_read, wants_write, arm_read, arm, notify,
  curl_poll_remove,
}
use cofetch.Sockets.Waits.{
  WaitResult, ready, aborted, failed, disarm, rearm, on_event, action_flag, has_state, wait_handler,
}

pub disarm-Inv :
    {c : Sockets} (reading : Bool) (p : ℕ)
    → 0 < (if reading then reads p c.calls else writes p c.calls)
    → Inv c
    → Inv (disarm reading p c)
unfolding disarm
disarm-Inv {c} true p out v = record {
  reading = λ q h. ground (arith, v.reading q);
  writing = λ q h. ground (arith, v.writing q);
  no_reads = λ q h. ground (arith, v.no_reads q);
  no_writes = v.no_writes;
  known = v.known;
}
disarm-Inv {c} false p out v = record {
  reading = λ q h. ground (arith, v.reading q);
  writing = λ q h. ground (arith, v.writing q);
  no_reads = v.no_reads;
  no_writes = λ q h. ground (arith, v.no_writes q);
  known = v.known;
}

pub rearm-Inv : {c : Sockets} (p : ℕ) → p < c.next → Inv c → Inv (rearm p c)
unfolding rearm
rearm-Inv {c} p known v = if-Inv (not ((c.states p).watch == 0)) (arm-Inv p known v) v

-- The state in which on_event calls `curl_multi_socket_action`.
abbrev pub acting : ℕ → Bool → WaitResult → Sockets → Sockets
acting p reading r c =
    let idle = disarm reading p c in
    call (socket_action (idle.states p).fd (action_flag reading r)) idle

pub next-disarm : (reading : Bool) (p : ℕ) (c : Sockets) → (disarm reading p c).next ≡ c.next
unfolding disarm
next-disarm true p c = refl
next-disarm false p c = refl

after_action-Inv :
    {c : Sockets} (p : ℕ) (reading : Bool) (r : WaitResult) (ks : List Callback)
    → p < c.next
    → 0 < (if reading then reads p c.calls else writes p c.calls)
    → AllAllowed ks (acting p reading r c)
    → Inv c
    → Inv (rearm p (callbacks ks (acting p reading r c)))
after_action-Inv {c} p reading r ks known out a v =
    let acts = call_action-Inv _ (action_flag reading r) (disarm-Inv reading p out v) in
    let done = callbacks-Grows ks a (same-Grows acts) in
    rearm-Inv p (omega (arith, done.more, next-disarm reading p c)) done.inv

on_event-Inv :
    {c : Sockets} (p : ℕ) (reading : Bool) (r : WaitResult) (ks : List Callback)
    → p < c.next
    → 0 < (if reading then reads p c.calls else writes p c.calls)
    → AllAllowed ks (acting p reading r c)
    → Inv c
    → Inv (on_event (callbacks ks) p reading r c)
unfolding on_event
on_event-Inv p reading ready ks known out a v = after_action-Inv p reading ready ks known out a v
on_event-Inv p reading failed ks known out a v = after_action-Inv p reading failed ks known out a v
on_event-Inv p reading aborted ks known out a v = disarm-Inv reading p out v

wait_handler-Inv :
    {c : Sockets} (p : ℕ) (reading : Bool) (r : WaitResult) (ks : List Callback)
    → p < c.next
    → 0 < (if reading then reads p c.calls else writes p c.calls)
    → AllAllowed ks (acting p reading r c)
    → Inv c
    → Inv (wait_handler (callbacks ks) p reading r c)
unfolding wait_handler
wait_handler-Inv {c} p reading r ks known out a v =
    if-Inv (has_state p c.sockets) (on_event-Inv p reading r ks known out a v)
      (disarm-Inv reading p out v)

-- No socket yet; `blank` stands at the addresses that are not in use.
unfoldable pub init : SocketState → Sockets
init blank = record { states = λ p. blank; next = 0; sockets = []; calls = [] }

pub init-Inv : (blank : SocketState) → Inv (init blank)
unfolding init
init-Inv blank = record {
  reading = λ p h. elim h [ ];
  writing = λ p h. elim h [ ];
  no_reads = λ p h. refl;
  no_writes = λ p h. refl;
  known = tt;
}

-- libcurl makes a callback, or the handler of an outstanding wait runs, with the callbacks that
-- libcurl makes meanwhile.
pub data Runs (blank : SocketState) : Sockets → Type 0 where
  initial : Runs blank (init blank)
  called : {c : Sockets} (k : Callback) → Allowed k c → Runs blank c → Runs blank (callback k c)
  woken :
      {c : Sockets} (p : ℕ) (reading : Bool) (r : WaitResult) (ks : List Callback)
      → p < c.next
      → 0 < (if reading then reads p c.calls else writes p c.calls)
      → AllAllowed ks (acting p reading r c)
      → Runs blank c
      → Runs blank (wait_handler (callbacks ks) p reading r c)

-- Whatever callbacks libcurl makes and in whatever order waits end, each socket has one wait for
-- reading outstanding if `read_armed` is set and none if not, and so for writing: a wait is never
-- started twice, and a flag never promises a wait that is over.
pub Runs-Inv : {blank : SocketState} {c : Sockets} → Runs blank c → Inv c
Runs-Inv {blank} initial = init-Inv blank
Runs-Inv (called k a r) = (callback-Grows k a (Runs-Inv r)).inv
Runs-Inv (woken p reading r ks known out a s) =
    wait_handler-Inv p reading r ks known out a (Runs-Inv s)

armed-arm :
    (p : ℕ) (c : Sockets)
    → (c.states p).is_open ≡ true
    → (wants_read (c.states p).watch ≡ true → ((arm p c).states p).read_armed ≡ true)
      × (wants_write (c.states p).watch ≡ true → ((arm p c).states p).write_armed ≡ true)
unfolding arm
armed-arm p c open_now = (λ e. ground (arith, ==_refl p), λ e. ground (arith, ==_refl p))

next-arm : (p : ℕ) (c : Sockets) → (arm p c).next ≡ c.next
unfolding arm
next-arm p c = ground (arith, next-arm_read p c, next-arm_write p (arm_read p c))

pub next-rearm : (p : ℕ) (c : Sockets) → (rearm p c).next ≡ c.next
unfolding rearm
next-rearm p c = ground (arith, next-arm p c)

-- A wait is outstanding behind notify for each direction that libcurl wants.
pub notify_watches :
    {c : Sockets} (fd what p : ℕ)
    → Inv c
    → p < c.next
    → (c.states p).is_open ≡ true
    → what ≢ curl_poll_remove
    → (wants_read what ≡ true → reads p (notify fd what p c).calls ≡ 1)
      × (wants_write what ≡ true → writes p (notify fd what p c).calls ≡ 1)
unfolding notify
notify_watches {c} fd what p v known open_now interest =
    let told = update p (λ s. record s { watch = what }) c in
    let armed = armed-arm p told (ground (arith, ==_refl p)) in
    let w = arm-Inv p known (watch-Inv p what v) in
    let n : p < (arm p told).next = rw next-arm known in
    let asked : (what == curl_poll_remove) ≡ false = ground arith in
    rw asked (
      λ e. w.reading p n ∙ ap one_if (armed.0 (ground (arith, ==_refl p))),
      λ e. w.writing p n ∙ ap one_if (armed.1 (ground (arith, ==_refl p))),
    )
