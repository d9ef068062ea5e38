-- ===== src/Sockets.antt =====
-- The sockets of class Client in include/cofetch.h: SocketState, the callbacks for sockets, arm and
-- on_event.
pub mod Waits
pub mod Armed
pub mod Events
pub mod Runs
pub mod Closing
pub mod Keys
pub mod Owned
pub mod Given
pub mod Kept
pub mod Interest
use cofetch.Base.{
  ℕ, suc, ◌/◌, ◌%◌, Bool, true, false, not, ◌&&◌, List, [], ◌∷◌, Option, none, some, ◌==◌,
  if◌then◌else◌,
}

-- `native` is the descriptor that asio holds: `fd` itself, or the dup of a borrowed one. `watch` is
-- the CURL_POLL_ interest: 1 is IN, 2 is OUT, 3 is both.
pub record SocketState : Type 0 where
  pub fd : ℕ
  pub native : ℕ
  pub borrowed : Bool
  pub is_open : Bool
  pub watch : ℕ
  pub read_armed : Bool
  pub write_armed : Bool

-- Calls to asio, libcurl and the operating system; a state is named by its address.
pub data SocketCall : Type 0 where
  wait_read : ℕ → SocketCall
  wait_write : ℕ → SocketCall
  multi_assign : ℕ → ℕ → SocketCall
  socket_action : ℕ → ℕ → SocketCall
  close_fd : ℕ → SocketCall
  dup_fd : ℕ → ℕ → SocketCall
  read_done : ℕ → SocketCall
  write_done : ℕ → SocketCall

-- `states` are the objects that shared pointers keep alive, `next` the next free address, `sockets`
-- the map from descriptors. Calls are newest first; `read_done` and `write_done` record that a wait's
-- handler runs.
pub record Sockets : Type 0 where
  pub states : ℕ → SocketState
  pub next : ℕ
  pub sockets : List (ℕ × ℕ)
  pub calls : List SocketCall

abbrev pub curl_poll_remove : ℕ
curl_poll_remove = 4

abbrev pub curl_cselect_in : ℕ
curl_cselect_in = 1

abbrev pub curl_cselect_out : ℕ
curl_cselect_out = 2

abbrev pub curl_cselect_err : ℕ
curl_cselect_err = 4

unfoldable pub find : ℕ → List (ℕ × ℕ) → Option ℕ
find fd [] = none
find fd ((k, p) ∷ m) = if k == fd then some p else find fd m

unfoldable pub erase : ℕ → List (ℕ × ℕ) → List (ℕ × ℕ)
erase fd [] = []
erase fd ((k, p) ∷ m) = if k == fd then m else (k, p) ∷ erase fd m

-- `sockets_[fd] = state`
unfoldable pub put : ℕ → ℕ → List (ℕ × ℕ) → List (ℕ × ℕ)
put fd p [] = (fd, p) ∷ []
put fd p ((k, q) ∷ m) = if k == fd then (fd, p) ∷ m else (k, q) ∷ put fd p m

abbrev pub write_state : ℕ → SocketState → (ℕ → SocketState) → ℕ → SocketState
write_state p s f q = if p == q then s else f q

abbrev pub update : ℕ → (SocketState → SocketState) → Sockets → Sockets
update p f c = record c { states = write_state p (f (c.states p)) c.states }

abbrev pub call : SocketCall → Sockets → Sockets
call x c = record c { calls = x ∷ c.calls }

-- A new state in the map, under the descriptor that curl knows.
unfoldable pub register : ℕ → ℕ → Bool → Sockets → Sockets
unfolding put
register fd native borrowed c = record c {
  states =
      write_state c.next
        (record {
          fd = fd;
          native = native;
          borrowed = borrowed;
          is_open = true;
          watch = 0;
          read_armed = false;
          write_armed = false;
        })
        c.states;
  next = suc c.next;
  sockets = put fd c.next c.sockets;
}

-- The address families that open_socket_cb tells apart.
pub data Family : Type 0 where
  inet inet6 other_family : Family

abbrev is_inet : Family → Bool
is_inet inet = true
is_inet inet6 = true
is_inet other_family = false

-- open_socket_cb. `opened` is the descriptor of the socket that asio opens, or `none` if it does not;
-- purpose 0 is CURLSOCKTYPE_IPCXN; `none` is CURL_SOCKET_BAD.
unfoldable pub open_socket_cb : ℕ → Family → Option ℕ → Sockets → Option ℕ × Sockets
unfolding register
open_socket_cb purpose family opened c =
    if not (purpose == 0)
    then (none, c)
    else if not (is_inet family)
    then (none, c)
    else elim opened [ none ↦ (none, c) | some fd ↦ (some fd, register fd fd false c) ]

-- `socket.close(ignored)`: closes what asio holds, unless it is closed already.
unfoldable pub close_socket : ℕ → Sockets → Sockets
close_socket p c =
    if (c.states p).is_open
    then record c {
      states = write_state p (record (c.states p) { is_open = false }) c.states;
      calls = close_fd (c.states p).native ∷ c.calls;
    }
    else c

-- close_socket_cb on a state that is in the map
unfoldable pub close_known : ℕ → ℕ → Sockets → Sockets
unfolding close_socket erase
close_known fd p c =
    let closed = close_socket p (update p (λ s. record s { watch = 0 }) c) in
    let own = if (c.states p).borrowed then call (close_fd fd) closed else closed in
    record own { sockets = erase fd own.sockets }

-- close_socket_cb
unfoldable pub close_socket_cb : ℕ → Sockets → Sockets
unfolding find close_known
close_socket_cb fd c = elim (find fd c.sockets) [
  | none ↦ call (close_fd fd) c
  | some p ↦ close_known fd p c
]

-- borrow, not on Windows. `dup` is the answer of `fcntl`, `none` if it fails; `assigned` says whether
-- asio takes the dup.
unfoldable pub borrow : ℕ → Option ℕ → Bool → Sockets → Option ℕ × Sockets
unfolding register
borrow fd none assigned c = (none, c)
borrow fd (some d) assigned c =
    if not assigned
    then (none, call (close_fd d) (call (dup_fd fd d) c))
    else (some c.next, register fd d true (call (dup_fd fd d) c))

-- `watch & CURL_POLL_IN` and `watch & CURL_POLL_OUT`
abbrev pub wants_read : ℕ → Bool
wants_read watch = watch % 2 == 1

abbrev pub wants_write : ℕ → Bool
wants_write watch = watch / 2 % 2 == 1

unfoldable pub arm_read : ℕ → Sockets → Sockets
arm_read p c =
    if wants_read (c.states p).watch && not (c.states p).read_armed
    then call (wait_read p) (update p (λ s. record s { read_armed = true }) c)
    else c

unfoldable pub arm_write : ℕ → Sockets → Sockets
arm_write p c =
    if wants_write (c.states p).watch && not (c.states p).write_armed
    then call (wait_write p) (update p (λ s. record s { write_armed = true }) c)
    else c

-- arm
unfoldable pub arm : ℕ → Sockets → Sockets
unfolding arm_read arm_write
arm p c = if not (c.states p).is_open then c else arm_write p (arm_read p c)

-- CURL_POLL_REMOVE: a borrowed descriptor's dup is dropped.
unfoldable pub unwatch : ℕ → ℕ → Sockets → Sockets
unfolding close_socket erase
unwatch fd p c =
    let quiet = update p (λ s. record s { watch = 0 }) c in
    let dropped = close_socket p quiet in
    if (c.states p).borrowed then record dropped { sockets = erase fd dropped.sockets } else quiet

-- socket_cb once the state is known
unfoldable pub notify : ℕ → ℕ → ℕ → Sockets → Sockets
unfolding unwatch arm
notify fd what p c =
    if what == curl_poll_remove
    then unwatch fd p c
    else arm p (update p (λ s. record s { watch = what }) c)

-- The state of a descriptor that curl has none for: the one in the map, or a borrowed one.
unfoldable pub attach : ℕ → Option ℕ → Bool → Sockets → Option ℕ × Sockets
unfolding find borrow
attach fd dup assigned c = elim (find fd c.sockets) [
  | none ↦ borrow fd dup assigned c
  | some p ↦ (some p, c)
]

unfoldable pub attached : ℕ → ℕ → Option ℕ × Sockets → Sockets
unfolding notify
attached fd what (none, c) = c
attached fd what (some p, c) = notify fd what p (call (multi_assign fd p) c)

-- socket_cb. `socketp` is the state that curl hands back, if it has one.
unfoldable pub socket_cb : ℕ → ℕ → Option ℕ → Option ℕ → Bool → Sockets → Sockets
unfolding attach attached notify
socket_cb fd what (some p) dup assigned c = notify fd what p c
socket_cb fd what none dup assigned c =
    if what == curl_poll_remove then c else attached fd what (attach fd dup assigned c)
