-- ===== src/Sockets/Closing.antt =====
-- Which descriptors are closed, and when.
use cofetch.Base.{
  ℕ, suc, ◌+◌, ◌≡◌, ◌≢◌, true, false, not, List, [], ◌∷◌, some, ◌==◌, if◌then◌else◌, arith,
  Option-cases, inl, inr, ==_refl,
}
use cofetch.Sockets.{
  Sockets, SocketState, SocketCall, wait_read, wait_write, multi_assign, socket_action, close_fd,
  dup_fd, read_done, write_done, close_known, close_socket_cb, notify, find, erase,
  curl_poll_remove,
}

-- How often this descriptor is closed.
abbrev pub closed : ℕ → List SocketCall → ℕ
closed fd [] = 0
closed fd (close_fd f ∷ cs) = (if f == fd then 1 else 0) + closed fd cs
closed fd (wait_read p ∷ cs) = closed fd cs
closed fd (wait_write p ∷ cs) = closed fd cs
closed fd (multi_assign f p ∷ cs) = closed fd cs
closed fd (socket_action f a ∷ cs) = closed fd cs
closed fd (dup_fd f d ∷ cs) = closed fd cs
closed fd (read_done p ∷ cs) = closed fd cs
closed fd (write_done p ∷ cs) = closed fd cs

-- The socket that is in the map for this descriptor holds it, or an open dup of it.
pub record Sound (fd : ℕ) (s : SocketState) : Type 0 where
  pub own : s.borrowed ≡ false → s.native ≡ fd
  pub lent : s.borrowed ≡ true → s.native ≢ fd
  pub still_open : s.is_open ≡ true

close_known-closed :
    (fd p : ℕ) (c : Sockets)
    → Sound fd (c.states p)
    → closed fd (close_known fd p c).calls ≡ suc (closed fd c.calls)
unfolding close_known
close_known-closed fd p c s = ground (arith, s.own, s.lent, s.still_open, ==_refl p, ==_refl fd)

-- close_socket_cb closes the descriptor that libcurl names once, whether it is not in the map, or
-- is there with a socket that holds it, or is there as a borrowed one with an open dup.
pub close_socket_cb-closed :
    (fd : ℕ) (c : Sockets)
    → ((p : ℕ) → find fd c.sockets ≡ some p → Sound fd (c.states p))
    → closed fd (close_socket_cb fd c).calls ≡ suc (closed fd c.calls)
unfolding close_socket_cb
close_socket_cb-closed fd c sound = elim (Option-cases (find fd c.sockets)) [
  | inl e ↦ rw (e, close_socket_cb) (ground (arith, ==_refl fd))
  | inr (p, e) ↦ rw (e, close_socket_cb) (close_known-closed fd p c (sound p e))
]

-- For an open socket that holds libcurl's descriptor or a dup of it, CURL_POLL_REMOVE leaves no
-- interest, and libcurl's descriptor open. A borrowed descriptor's dup is closed and its state
-- leaves the map; an own socket stays open and in the map.
pub notify_remove :
    (fd p : ℕ) (c : Sockets)
    → Sound fd (c.states p)
    → let d = notify fd curl_poll_remove p c in
      (closed fd d.calls ≡ closed fd c.calls)
      × ((d.states p).watch ≡ 0)
      × ((d.states p).is_open ≡ not (c.states p).borrowed)
      × (d.sockets ≡ (if (c.states p).borrowed then erase fd c.sockets else c.sockets))
      × (closed (c.states p).native d.calls
          ≡ (if (c.states p).borrowed then 1 else 0) + closed (c.states p).native c.calls)
unfolding notify
notify_remove fd p c s =
    ground (arith, s.own, s.lent, s.still_open, ==_refl p, ==_refl (c.states p).native)
