-- ===== src/Sockets/Interest.antt =====
-- socket_cb: the waits behind an interest of libcurl.
use cofetch.Base.{ℕ, ◌≡◌, true}
use cofetch.Sockets.Armed.{reads, writes}
use cofetch.Sockets.Owned.{Owned}
use cofetch.Sockets.{Sockets, wants_read, wants_write}

-- One wait is outstanding for each direction that is wanted.
abbrev pub Watches : ℕ → ℕ → Sockets → Type 0
Watches what p c =
    (wants_read what ≡ true → reads p c.calls ≡ 1)
    × (wants_write what ≡ true → writes p c.calls ≡ 1)
