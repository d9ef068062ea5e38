-- ===== src/Sockets/Events.antt =====
-- Sequences of socket events: what libcurl calls, and the waits whose handlers run.
use cofetch.Base.{
  ℕ, ◌≡◌, ◌≤◌, ◌<◌, refl, ◌∙◌, Bool, true, false, not, List, [], ◌∷◌, Option, none, some, ◌==◌,
  if◌then◌else◌, arith, Option-cases, inl, inr,
}
use cofetch.Sockets.Armed.{
  reads, writes, Inv, register-Inv, close_socket-Inv, erase-Inv, watch-Inv, notify-Inv, if-Inv,
  find-Known,
}
use cofetch.Sockets.{
  SocketCall, multi_assign, socket_action, close_fd, dup_fd, Sockets, call, register, Family, inet,
  inet6, other_family, open_socket_cb, close_known, close_socket_cb, borrow, notify, attach,
  attached, socket_cb, find, curl_poll_remove,
}

-- A callback that libcurl makes, with the answers of the system that it meets.
pub data Callback : Type 0 where
  opens : ℕ → Family → Option ℕ → Callback
  closes : ℕ → Callback
  tells : ℕ → ℕ → Option ℕ → Option ℕ → Bool → Callback

unfoldable pub callback : Callback → Sockets → Sockets
callback (opens purpose family opened) c = (open_socket_cb purpose family opened c).1
callback (closes fd) c = close_socket_cb fd c
callback (tells fd what socketp dup assigned) c = socket_cb fd what socketp dup assigned c

unfoldable pub callbacks : List Callback → Sockets → Sockets
unfolding callback
callbacks [] c = c
callbacks (k ∷ ks) c = callbacks ks (callback k c)

-- libcurl hands back only addresses that it was given.
abbrev pub Allowed : Callback → Sockets → Type 0
Allowed (tells fd what (some p) dup assigned) c = p < c.next
Allowed _ c = Unit {0}

abbrev pub AllAllowed : List Callback → Sockets → Type 0
AllAllowed [] c = Unit {0}
AllAllowed (k ∷ ks) c = Allowed k c × AllAllowed ks (callback k c)

-- The state keeps the invariant and has at least n addresses.
pub record Grows (n : ℕ) (d : Sockets) : Type 0 where
  pub inv : Inv d
  pub more : n ≤ d.next

-- A call that is no wait and no end of a wait.
record IsSilent (x : SocketCall) : Type 0 where
  no_read : (p : ℕ) (cs : List SocketCall) → reads p (x ∷ cs) ≡ reads p cs
  no_write : (p : ℕ) (cs : List SocketCall) → writes p (x ∷ cs) ≡ writes p cs

call-Inv : {c : Sockets} (x : SocketCall) → IsSilent x → Inv c → Inv (call x c)
call-Inv {c} x s v = record {
  reading = λ p h. s.no_read p c.calls ∙ v.reading p h;
  writing = λ p h. s.no_write p c.calls ∙ v.writing p h;
  no_reads = λ p h. s.no_read p c.calls ∙ v.no_reads p h;
  no_writes = λ p h. s.no_write p c.calls ∙ v.no_writes p h;
  known = v.known;
}

call_close-Inv : {c : Sockets} (fd : ℕ) → Inv c → Inv (call (close_fd fd) c)
call_close-Inv fd =
    call-Inv (close_fd fd) (record { no_read = λ p cs. refl; no_write = λ p cs. refl })

call_dup-Inv : {c : Sockets} (fd d : ℕ) → Inv c → Inv (call (dup_fd fd d) c)
call_dup-Inv fd d =
    call-Inv (dup_fd fd d) (record { no_read = λ p cs. refl; no_write = λ p cs. refl })

pub call_assign-Inv : {c : Sockets} (fd p : ℕ) → Inv c → Inv (call (multi_assign fd p) c)
call_assign-Inv fd p =
    call-Inv (multi_assign fd p) (record { no_read = λ q cs. refl; no_write = λ q cs. refl })

pub call_action-Inv : {c : Sockets} (fd a : ℕ) → Inv c → Inv (call (socket_action fd a) c)
call_action-Inv fd a =
    call-Inv (socket_action fd a) (record { no_read = λ q cs. refl; no_write = λ q cs. refl })

register-Grows :
    {c : Sockets} (fd native : ℕ) (borrowed : Bool)
    → Inv c
    → Grows c.next (register fd native borrowed c)
unfolding register
register-Grows fd native borrowed v = record {
  inv = register-Inv fd native borrowed v;
  more = omega arith;
}

pub same-Grows : {c : Sockets} → Inv c → Grows c.next c
same-Grows v = record { inv = v; more = omega arith }

-- Both branches of a test that gives an answer too.
if-Grows :
    {A : Type 0} {n : ℕ} (b : Bool) (x y : A × Sockets)
    → Grows n x.1
    → Grows n y.1
    → Grows n (if b then x else y).1
if-Grows true x y v w = v
if-Grows false x y v w = w

open_socket_cb-Grows :
    {c : Sockets} (purpose : ℕ) (family : Family) (opened : Option ℕ)
    → Inv c
    → Grows c.next (open_socket_cb purpose family opened c).1
unfolding open_socket_cb
open_socket_cb-Grows purpose inet none v =
    if-Grows (not (purpose == 0)) _ _ (same-Grows v) (same-Grows v)
open_socket_cb-Grows purpose inet (some fd) v =
    if-Grows (not (purpose == 0)) _ _ (same-Grows v) (register-Grows fd fd false v)
open_socket_cb-Grows purpose inet6 none v =
    if-Grows (not (purpose == 0)) _ _ (same-Grows v) (same-Grows v)
open_socket_cb-Grows purpose inet6 (some fd) v =
    if-Grows (not (purpose == 0)) _ _ (same-Grows v) (register-Grows fd fd false v)
open_socket_cb-Grows purpose other_family opened v =
    if-Grows (not (purpose == 0)) _ _ (same-Grows v) (same-Grows v)

close_known-Inv : {c : Sockets} (fd p : ℕ) → Inv c → Inv (close_known fd p c)
unfolding close_known
close_known-Inv {c} fd p v =
    let shut = close_socket-Inv p (watch-Inv p 0 v) in
    erase-Inv fd (if-Inv (c.states p).borrowed (call_close-Inv fd shut) shut)

close_socket_cb-Inv : {c : Sockets} (fd : ℕ) → Inv c → Inv (close_socket_cb fd c)
unfolding close_socket_cb
close_socket_cb-Inv {c} fd v = elim (Option-cases (find fd c.sockets)) [
  | inl e ↦ rw (e, close_socket_cb) (call_close-Inv fd v)
  | inr (p, e) ↦ rw (e, close_socket_cb) (close_known-Inv fd p v)
]

pub next-close_socket_cb : (fd : ℕ) (c : Sockets) → (close_socket_cb fd c).next ≡ c.next
unfolding close_socket_cb
next-close_socket_cb fd c = ground arith

borrow-Grows :
    {c : Sockets} (fd : ℕ) (dup : Option ℕ) (assigned : Bool)
    → Inv c
    → Grows c.next (borrow fd dup assigned c).1
unfolding borrow
borrow-Grows fd none assigned v = same-Grows v
borrow-Grows fd (some d) assigned v =
    let copied = call_dup-Inv fd d v in
    if-Grows (not assigned) _ _ (same-Grows (call_close-Inv d copied))
      (register-Grows fd d true copied)

next-notify : (fd what p : ℕ) (c : Sockets) → (notify fd what p c).next ≡ c.next
unfolding notify
next-notify fd what p c = ground arith

-- A state that is found or made has an address in use.
abbrev pub Attaches : ℕ → Option ℕ × Sockets → Type 0
Attaches n (none, d) = Grows n d
Attaches n (some p, d) = Grows n d × (p < d.next)

if-Attaches :
    (n : ℕ) (b : Bool) (x y : Option ℕ × Sockets)
    → Attaches n x
    → Attaches n y
    → Attaches n (if b then x else y)
if-Attaches n true x y v w = v
if-Attaches n false x y v w = w

borrow-Attaches :
    {c : Sockets} (fd : ℕ) (dup : Option ℕ) (assigned : Bool)
    → Inv c
    → Attaches c.next (borrow fd dup assigned c)
unfolding borrow register
borrow-Attaches fd none assigned v = same-Grows v
borrow-Attaches {c} fd (some d) assigned v =
    let copied = call_dup-Inv fd d v in
    if-Attaches c.next (not assigned) _ _ (same-Grows (call_close-Inv d copied))
      (register-Grows fd d true copied, omega arith)

pub attach-Attaches :
    {c : Sockets} (fd : ℕ) (dup : Option ℕ) (assigned : Bool)
    → Inv c
    → Attaches c.next (attach fd dup assigned c)
unfolding attach
attach-Attaches {c} fd dup assigned v = elim (Option-cases (find fd c.sockets)) [
  | inl e ↦ rw (e, attach) (borrow-Attaches fd dup assigned v)
  | inr (p, e) ↦ rw (e, attach) (same-Grows v, find-Known fd c.next p c.sockets v.known e)
]

notify-Grows :
    {n : ℕ} {c : Sockets} (fd what p : ℕ) → p < c.next → Grows n c → Grows n (notify fd what p c)
notify-Grows {n} {c} fd what p known g = record {
  inv = notify-Inv fd what p known g.inv;
  more = rw next-notify g.more;
}

attached-Grows :
    {n : ℕ} (fd what : ℕ) (r : Option ℕ × Sockets) → Attaches n r → Grows n (attached fd what r)
unfolding attached
attached-Grows fd what (none, c) g = g
attached-Grows fd what (some p, c) (g, known) =
    notify-Grows fd what p known (record { inv = call_assign-Inv fd p g.inv; more = g.more })

if_state-Grows :
    {n : ℕ} (b : Bool) {x y : Sockets} → Grows n x → Grows n y → Grows n (if b then x else y)
if_state-Grows true v w = v
if_state-Grows false v w = w

pub callback-Grows :
    {c : Sockets} (k : Callback) → Allowed k c → Inv c → Grows c.next (callback k c)
unfolding callback socket_cb
callback-Grows (opens purpose family opened) a v = open_socket_cb-Grows purpose family opened v
callback-Grows {c} (closes fd) a v = record {
  inv = close_socket_cb-Inv fd v;
  more = rw next-close_socket_cb (omega arith);
}
callback-Grows (tells fd what (some p) dup assigned) a v = notify-Grows fd what p a (same-Grows v)
callback-Grows {c} (tells fd what none dup assigned) a v =
    if_state-Grows (what == curl_poll_remove) (same-Grows v)
      (attached-Grows fd what (attach fd dup assigned c) (attach-Attaches fd dup assigned v))

pub callbacks-Grows :
    {n : ℕ} (ks : List Callback) {c : Sockets}
    → AllAllowed ks c
    → Grows n c
    → Grows n (callbacks ks c)
unfolding callbacks
callbacks-Grows [] a g = g
callbacks-Grows (k ∷ ks) a g =
    let next = callback-Grows k a.0 g.inv in
    callbacks-Grows ks a.1 (record { inv = next.inv; more = omega (arith, g.more, next.more) })
