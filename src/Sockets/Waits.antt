-- ===== src/Sockets/Waits.antt =====
-- What runs when a wait of asio for a socket is over: the handler that Client::arm gives it, and
-- Client::on_event.
use cofetch.Base.{ℕ, Bool, false, not, ◌||◌, List, [], ◌∷◌, ◌==◌, if◌then◌else◌}
use cofetch.Sockets.{
  read_done, write_done, socket_action, Sockets, update, call, arm, curl_cselect_in,
  curl_cselect_out, curl_cselect_err,
}

-- The error code of a wait's handler.
pub data WaitResult : Type 0 where
  ready aborted failed : WaitResult

abbrev pub action_flag : Bool → WaitResult → ℕ
action_flag reading ready = if reading then curl_cselect_in else curl_cselect_out
action_flag reading _ = curl_cselect_err

-- The wait's handler runs: its flag is cleared.
unfoldable pub disarm : Bool → ℕ → Sockets → Sockets
disarm reading p c =
    if reading
    then call (read_done p) (update p (λ s. record s { read_armed = false }) c)
    else call (write_done p) (update p (λ s. record s { write_armed = false }) c)

-- The end of on_event.
unfoldable pub rearm : ℕ → Sockets → Sockets
unfolding arm
rearm p c = if not ((c.states p).watch == 0) then arm p c else c

-- on_event. `action` is all that `curl_multi_socket_action` and `check_completions` do to the
-- sockets, by the callbacks above.
unfoldable pub on_event : (Sockets → Sockets) → ℕ → Bool → WaitResult → Sockets → Sockets
unfolding disarm rearm
on_event action p reading aborted c = disarm reading p c
on_event action p reading ready c =
    let idle = disarm reading p c in
    rearm p (action (call (socket_action (idle.states p).fd (action_flag reading ready)) idle))
on_event action p reading failed c =
    let idle = disarm reading p c in
    rearm p (action (call (socket_action (idle.states p).fd (action_flag reading failed)) idle))

-- The map has the state, and keeps it alive.
unfoldable pub has_state : ℕ → List (ℕ × ℕ) → Bool
has_state p [] = false
has_state p ((fd, q) ∷ m) = q == p || has_state p m

-- The handler that `arm` gives a wait. When its lock fails, the state and its flags are gone, and
-- nothing is done: the model only notes that the wait is over.
unfoldable pub wait_handler : (Sockets → Sockets) → ℕ → Bool → WaitResult → Sockets → Sockets
unfolding has_state on_event disarm
wait_handler action p reading r c =
    if has_state p c.sockets then on_event action p reading r c else disarm reading p c
