-- ===== src/Tests/Watches.antt =====
-- libcurl opens two sockets and tells its interest in them.
use cofetch.Base.{◌≡◌, refl, true, false, some, none, arith}
use cofetch.Sockets.{Sockets, SocketState, inet, socket_cb, open_socket_cb}
use cofetch.Sockets.Closing.{Sound}
use cofetch.Sockets.Events.{callback, opens, tells}
use cofetch.Sockets.Runs.{Runs, initial, called, init}

abbrev pub blank : SocketState
blank = record {
  fd = 0;
  native = 0;
  borrowed = false;
  is_open = false;
  watch = 0;
  read_armed = false;
  write_armed = false;
}

abbrev pub one_open : Sockets
one_open = callback (opens 0 inet (some 5)) (init blank)

one_open-Runs : Runs blank one_open
one_open-Runs = called (opens 0 inet (some 5)) tt initial

abbrev pub lent_too : Sockets
lent_too = callback (tells 9 1 none (some 6) true) one_open

lent_too-Runs : Runs blank lent_too
lent_too-Runs = called (tells 9 1 none (some 6) true) tt one_open-Runs

pub one_open_next : one_open.next ≡ 1
unfolding init callback open_socket_cb
one_open_next = refl

one_open_open : (one_open.states 0).is_open ≡ true
unfolding init callback open_socket_cb
one_open_open = refl

lent_socket_native : (lent_too.states 1).native ≡ 6
unfolding init callback socket_cb open_socket_cb
lent_socket_native = refl

lent_socket_borrowed : (lent_too.states 1).borrowed ≡ true
unfolding init callback socket_cb open_socket_cb
lent_socket_borrowed = refl

lent_socket_open : (lent_too.states 1).is_open ≡ true
unfolding init callback socket_cb open_socket_cb
lent_socket_open = refl

lent-Sound : Sound 9 (lent_too.states 1)
lent-Sound = record {
  own = λ e. cc (e, lent_socket_borrowed);
  lent = λ e f. absurd (omega (arith, f, lent_socket_native));
  still_open = lent_socket_open;
}
