-- ===== src/Client/Severed.antt =====
-- The destructor closes the client's sockets, and nothing that libcurl calls in it opens one of them.
use cofetch.Base.{
  ◌⊎◌, ℕ, ◌≡◌, ◌<◌, Bool, true, false, not, if◌then◌else◌, ℤ, List, [], ◌∷◌, Option, none, some,
  ◌==◌, arith, Bool-cases, Option-cases, refl, ◌∙◌, inl, inr, ==_refl,
}
use cofetch.Client.{Client, sever, drop_map, finish, destroy}
use cofetch.Sockets.Events.{Callback, opens, closes, tells, callback, callbacks}
use cofetch.Sockets.Owned.{Owned}
use cofetch.Sockets.Waits.{has_state}
use cofetch.Sockets.{
  Sockets, SocketCall, multi_assign, close_fd, dup_fd, close_socket, close_known, close_socket_cb,
  update, find, call, register, Family, inet, inet6, other_family, open_socket_cb, borrow, notify,
  attach, attached, socket_cb, curl_poll_remove,
}

-- One round of the loop over the sockets.
abbrev severed : ℕ → Sockets → Sockets
severed p c = close_socket p (update p (λ s. record s { watch = 0 }) c)

severed_closed : (p : ℕ) (c : Sockets) → ((severed p c).states p).is_open ≡ false
unfolding close_socket
severed_closed p c = ground (arith, ==_refl p)

severed_keeps :
    (p q : ℕ) (c : Sockets)
    → (c.states q).is_open ≡ false
    → ((severed p c).states q).is_open ≡ false
unfolding close_socket
severed_keeps p q c e = ground arith

sever_keeps :
    (q : ℕ) (m : List (ℕ × ℕ)) (c : Sockets)
    → (c.states q).is_open ≡ false
    → ((sever m c).states q).is_open ≡ false
unfolding sever
sever_keeps q [] c e = e
sever_keeps q ((fd, p) ∷ m) c e = sever_keeps q m (severed p c) (severed_keeps p q c e)

sever_closed :
    (q : ℕ) (m : List (ℕ × ℕ)) (c : Sockets)
    → has_state q m ≡ true
    → ((sever m c).states q).is_open ≡ false
unfolding sever has_state
sever_closed q [] c h = cc
sever_closed q ((fd, p) ∷ m) c h = elim (Bool-cases (p == q)) [
  | inl hit ↦ sever_keeps q m (severed p c) (ground (arith, severed_closed p c))
  | inr miss ↦ sever_closed q m (severed p c) (ground arith)
]

has_state-find : (fd p : ℕ) (m : List (ℕ × ℕ)) → find fd m ≡ some p → has_state p m ≡ true
unfolding find has_state
has_state-find fd p [] e = cc
has_state-find fd p ((k, q) ∷ m) e = ground (arith, has_state-find fd p m, ==_refl p)

-- The loop of the destructor over the sockets leaves no socket of the client open.
sever-Owned :
    {given : ℕ → Option ℕ} {c : Sockets} (p : ℕ)
    → Owned given c
    → p < c.next
    → ((sever c.sockets c).states p).is_open ≡ false
sever-Owned {c} p o known = elim (Bool-cases (c.states p).is_open) [
  | inl still ↦
      sever_closed p c.sockets c (has_state-find (c.states p).fd p c.sockets (o.kept p known still))
  | inr shut ↦ sever_keeps p c.sockets c shut
]

next-severed : (p : ℕ) (c : Sockets) → (severed p c).next ≡ c.next
unfolding close_socket
next-severed p c = ground arith

next-sever : (m : List (ℕ × ℕ)) (c : Sockets) → (sever m c).next ≡ c.next
unfolding sever
next-sever [] c = refl
next-sever ((fd, p) ∷ m) c = next-sever m (severed p c) ∙ next-severed p c

-- The state at this address is in use and closed.
record IsShut (q : ℕ) (c : Sockets) : Type 0 where
  known : q < c.next
  shut : (c.states q).is_open ≡ false

if-IsShut :
    {q : ℕ} (b : Bool) {x y : Sockets} → IsShut q x → IsShut q y → IsShut q (if b then x else y)
if-IsShut true v w = v
if-IsShut false v w = w

if_answer-IsShut :
    {A : Type 0} {q : ℕ} (b : Bool) (x y : A × Sockets)
    → IsShut q x.1
    → IsShut q y.1
    → IsShut q (if b then x else y).1
if_answer-IsShut true x y v w = v
if_answer-IsShut false x y v w = w

logged-IsShut : {q : ℕ} {c : Sockets} (x : SocketCall) → IsShut q c → IsShut q (call x c)
logged-IsShut x h = record { known = h.known; shut = h.shut }

register-IsShut :
    {q : ℕ} {c : Sockets} (fd native : ℕ) (borrowed : Bool)
    → IsShut q c
    → IsShut q (register fd native borrowed c)
unfolding register
register-IsShut fd native borrowed h = record {
  known = omega (arith, h.known);
  shut = ground (arith, h.known, h.shut);
}

close_socket-IsShut : {q : ℕ} {c : Sockets} (p : ℕ) → IsShut q c → IsShut q (close_socket p c)
unfolding close_socket
close_socket-IsShut p h = record { known = ground (arith, h.known); shut = ground (arith, h.shut) }

close_known-IsShut : {q : ℕ} {c : Sockets} (fd p : ℕ) → IsShut q c → IsShut q (close_known fd p c)
unfolding close_known close_socket
close_known-IsShut fd p h = record {
  known = ground (arith, h.known);
  shut = ground (arith, h.shut);
}

notify-IsShut : {q : ℕ} {c : Sockets} (fd what p : ℕ) → IsShut q c → IsShut q (notify fd what p c)
unfolding notify
notify-IsShut fd what p h = record {
  known = ground (arith, h.known);
  shut = ground (arith, h.shut);
}

open_socket_cb-IsShut :
    {q : ℕ} {c : Sockets} (purpose : ℕ) (family : Family) (opened : Option ℕ)
    → IsShut q c
    → IsShut q (open_socket_cb purpose family opened c).1
unfolding open_socket_cb
open_socket_cb-IsShut purpose inet none h = if_answer-IsShut (not (purpose == 0)) _ _ h h
open_socket_cb-IsShut purpose inet (some fd) h =
    if_answer-IsShut (not (purpose == 0)) _ _ h (register-IsShut fd fd false h)
open_socket_cb-IsShut purpose inet6 none h = if_answer-IsShut (not (purpose == 0)) _ _ h h
open_socket_cb-IsShut purpose inet6 (some fd) h =
    if_answer-IsShut (not (purpose == 0)) _ _ h (register-IsShut fd fd false h)
open_socket_cb-IsShut purpose other_family opened h = if_answer-IsShut (not (purpose == 0)) _ _ h h

close_socket_cb-IsShut :
    {q : ℕ} {c : Sockets} (fd : ℕ) → IsShut q c → IsShut q (close_socket_cb fd c)
unfolding close_socket_cb
close_socket_cb-IsShut {q} {c} fd h = elim (Option-cases (find fd c.sockets)) [
  | inl e ↦ rw (e, close_socket_cb) (logged-IsShut (close_fd fd) h)
  | inr (p, e) ↦ rw (e, close_socket_cb) (close_known-IsShut fd p h)
]

borrow-IsShut :
    {q : ℕ} {c : Sockets} (fd : ℕ) (dup : Option ℕ) (assigned : Bool)
    → IsShut q c
    → IsShut q (borrow fd dup assigned c).1
unfolding borrow
borrow-IsShut fd none assigned h = h
borrow-IsShut fd (some d) assigned h =
    let copied = logged-IsShut (dup_fd fd d) h in
    if_answer-IsShut (not assigned) _ _ (logged-IsShut (close_fd d) copied)
      (register-IsShut fd d true copied)

attach-IsShut :
    {q : ℕ} {c : Sockets} (fd : ℕ) (dup : Option ℕ) (assigned : Bool)
    → IsShut q c
    → IsShut q (attach fd dup assigned c).1
unfolding attach
attach-IsShut {q} {c} fd dup assigned h = elim (Option-cases (find fd c.sockets)) [
  | inl e ↦ rw (e, attach) (borrow-IsShut fd dup assigned h)
  | inr (p, e) ↦ rw (e, attach) h
]

attached-IsShut :
    {q : ℕ} (fd what : ℕ) (r : Option ℕ × Sockets) → IsShut q r.1 → IsShut q (attached fd what r)
unfolding attached
attached-IsShut fd what (none, c) h = h
attached-IsShut fd what (some p, c) h =
    notify-IsShut fd what p (logged-IsShut (multi_assign fd p) h)

-- No callback opens a socket that is closed.
callback-IsShut : {q : ℕ} {c : Sockets} (k : Callback) → IsShut q c → IsShut q (callback k c)
unfolding callback socket_cb
callback-IsShut (opens purpose family opened) h = open_socket_cb-IsShut purpose family opened h
callback-IsShut (closes fd) h = close_socket_cb-IsShut fd h
callback-IsShut (tells fd what (some p) dup assigned) h = notify-IsShut fd what p h
callback-IsShut {q} {c} (tells fd what none dup assigned) h =
    if-IsShut (what == curl_poll_remove) h
      (attached-IsShut fd what (attach fd dup assigned c) (attach-IsShut fd dup assigned h))

callbacks-IsShut :
    {q : ℕ} (ks : List Callback) {c : Sockets} → IsShut q c → IsShut q (callbacks ks c)
unfolding callbacks
callbacks-IsShut [] h = h
callbacks-IsShut (k ∷ ks) h = callbacks-IsShut ks (callback-IsShut k h)

drop_map-IsShut : {q : ℕ} (m : List (ℕ × ℕ)) {c : Sockets} → IsShut q c → IsShut q (drop_map m c)
unfolding drop_map
drop_map-IsShut [] h = h
drop_map-IsShut ((fd, p) ∷ m) {c} h = drop_map-IsShut m (close_socket-IsShut p h)

drop_map_keeps :
    (q : ℕ) (m : List (ℕ × ℕ)) (c : Sockets)
    → (c.states q).is_open ≡ false
    → ((drop_map m c).states q).is_open ≡ false
unfolding drop_map close_socket
drop_map_keeps q [] c e = e
drop_map_keeps q ((fd, p) ∷ m) c e = drop_map_keeps q m (close_socket p c) (ground (arith, e))

drop_map_closed :
    (q : ℕ) (m : List (ℕ × ℕ)) (c : Sockets)
    → has_state q m ≡ true
    → ((drop_map m c).states q).is_open ≡ false
unfolding drop_map has_state close_socket
drop_map_closed q [] c h = cc
drop_map_closed q ((fd, p) ∷ m) c h = elim (Bool-cases (p == q)) [
  | inl hit ↦ drop_map_keeps q m (close_socket p c) (ground arith)
  | inr miss ↦ drop_map_closed q m (close_socket p c) (ground arith)
]

-- The destructor closes each socket that the client has made, and each that is in its map at the end.
pub finish-shut :
    {given : ℕ → Option ℕ} (c : Client) (p : ℕ) (ks : List Callback) (ts : List (ℕ × ℤ))
    → Owned given c.sockets
    → (p < c.sockets.next) ⊎ (has_state p (callbacks ks (destroy c).sockets).sockets ≡ true)
    → ((finish ks ts c).sockets.states p).is_open ≡ false
unfolding finish destroy
finish-shut c p ks ts o (inl known) =
    let cut = sever c.sockets.sockets c.sockets in
    let severed_here : IsShut p cut = record {
      known = rw next-sever known;
      shut = sever-Owned p o known;
    } in
    (drop_map-IsShut (callbacks ks cut).sockets (callbacks-IsShut ks severed_here)).shut
finish-shut c p ks ts o (inr there) =
    let called = callbacks ks (sever c.sockets.sockets c.sockets) in
    drop_map_closed p called.sockets called there
