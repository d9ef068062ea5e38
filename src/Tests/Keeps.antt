-- ===== src/Tests/Keeps.antt =====
-- A socket of asio and a borrowed one, with what libcurl has been given.
use cofetch.Base.{ℕ, ◌≡◌, ◌<◌, refl, true, suc, Option, none, some, arith, ◌≢◌}
use cofetch.Sockets.Closing.{closed}
use cofetch.Sockets.Events.{opens, tells, callback}
use cofetch.Sockets.Given.{given_after}
use cofetch.Sockets.Kept.{Keeps, initial, called, closed-Keeps}
use cofetch.Sockets.Runs.{init}
use cofetch.Sockets.{inet, find, socket_cb, open_socket_cb, close_socket_cb}
use cofetch.Tests.Watches.{blank, one_open, lent_too}

abbrev given : ℕ → Option ℕ
given = given_after (tells 9 1 none (some 6) true) one_open (λ fd. none)

new_key : find 5 (init blank).sockets ≡ none
unfolding init find
new_key = refl

other_dup : (d : ℕ) → ◌≡◌ {A = Option ℕ} (some 6) (some d) → d ≢ 9
other_dup d e = ground arith

lent-Keeps : Keeps blank given lent_too
lent-Keeps =
    called (tells 9 1 none (some 6) true) (called (opens 0 inet (some 5)) initial new_key)
      (refl, other_dup)

lent_next : 0 < lent_too.next
unfolding init callback socket_cb open_socket_cb
lent_next = omega arith

closed-Keeps_example : closed 9 (close_socket_cb 9 lent_too).calls ≡ suc (closed 9 lent_too.calls)
closed-Keeps_example = closed-Keeps 9 lent-Keeps
