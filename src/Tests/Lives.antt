-- ===== src/Tests/Lives.antt =====
-- A client fetches and is answered; a second request is cancelled, and the client destroyed.
use cofetch.Base.{
  ℕ, Option, ◌≢◌, ◌≡◌, ◌<◌, refl, true, none, false, [], ◌∷◌, ◌++◌, some, pos, Perm, length, arith,
}
use cofetch.Client.Calls.{
  UserCall, starts, cancels, socket, timer, body, Action, user_call, posted_kick,
}
use cofetch.Client.Once.{
  Lives-handlers, Lives-complete, Lives-parts, Lives-shut, Lives-freed, Lives-lists, Lives-AllTold,
}
use cofetch.Client.System.{
  System, new_system, new_client, Lives, made, used, kicked, destroyed, pending, invoked,
}
use cofetch.Client.{done, finish}
use cofetch.Sockets.Armed
use cofetch.Base.{List, inl}
use cofetch.Sockets.Events.{Callback, opens, tells, closes, callback}
use cofetch.Sockets.Owned.{Owned}
use cofetch.Sockets.{inet, find, open_socket_cb, socket_cb, close_socket_cb}
use cofetch.Tests.Flights.{upload, caller}
use cofetch.Tests.Watches.{blank}
use cofetch.Timers.Wake
use cofetch.Timers.Wake.{kicks}
use cofetch.Timers.{timer_cb}
use cofetch.Transfers.Completions.{held, called}
use cofetch.Transfers.Errors.{AllTold}
use cofetch.Transfers.Lists.{built, freed}
use cofetch.Transfers.Invariant
use cofetch.Transfers.Operations.{start, complete}
use cofetch.Transfers.Callbacks.{body_write_cb}
use cofetch.Transfers.{Handler}

abbrev fetch : UserCall
fetch = starts (some 7) 0 upload caller (timer 100 (pos 0) ∷ [])

abbrev asked : System
asked = record (new_system 1 blank) { client = user_call fetch (new_system 1 blank).client }

asked-Lives : Lives 1 blank (caller ∷ []) asked
unfolding new_client
asked-Lives = used fetch made refl (refl, omega arith, (tt, tt))

-- libcurl opens a socket, watches it, gets a byte and is done.
abbrev answer : Action
answer = record {
  calls =
      socket (opens 0 inet (some 5))
      ∷ socket (tells 5 1 none (some 6) true)
      ∷ body 7 (4 ∷ []) 1 1
      ∷ [];
  running = 0;
  completions = record { message = done 7 0 (pos 200); removal = []; reaction = [] } ∷ [];
}

abbrev answered : System
answered = record asked { client = posted_kick answer asked.client }

asked_kick : 0 < kicks asked.client.timers.calls
unfolding new_client user_call timer_cb
asked_kick = omega arith

not_five : (d : ℕ) → ◌≡◌ {A = Option ℕ} (some 6) (some d) → d ≢ 5
not_five d e = ground arith

answered-Lives : Lives 1 blank (caller ∷ []) answered
unfolding new_client user_call find
answered-Lives =
    kicked answer asked-Lives asked_kick ((refl, ((refl, not_five), (tt, tt))), ((tt, tt), tt))

answered_quiet :
    (answered.client.alive ≡ true)
    × (answered.client.flights.transfers ≡ [])
    × (length answered.client.flights.posted ≡ 0)
unfolding new_client user_call posted_kick start complete body_write_cb
answered_quiet = (refl, refl, refl)

Lives-complete_example : Perm (invoked answered) (some caller ∷ [])
Lives-complete_example =
    Lives-complete answered-Lives answered_quiet.0 answered_quiet.1
      (omega (arith, answered_quiet.2))

Lives-parts_example :
    Invariant.Inv answered.client.flights
    × Wake.Inv answered.client.timers
    × Armed.Inv answered.client.sockets
Lives-parts_example = Lives-parts answered-Lives answered_quiet.0

abbrev second : Handler
second = record { name = 2; slot_connected = true }

abbrev again : UserCall
again = starts (some 8) 0 upload second []

abbrev stop : UserCall
stop = cancels 2 []

abbrev stopped : System
stopped = record answered { client = user_call stop (user_call again answered.client) }

-- In the destructor libcurl borrows a descriptor and closes a socket.
abbrev last_calls : List Callback
last_calls = tells 9 1 none (some 6) true ∷ closes 5 ∷ []

abbrev ended : System
ended = record stopped {
  client = finish last_calls [] stopped.client;
  dropped = held stopped.client.flights.transfers;
}

answered_new :
    (Invariant.live 8 answered.client.flights.calls ≡ 0)
    × (answered.client.flights.next_transfer_id ≡ 1)
unfolding new_client user_call posted_kick start complete body_write_cb
answered_new = (refl, refl)

ended-Lives : Lives 1 blank (second ∷ caller ∷ []) ended
unfolding new_client user_call
ended-Lives =
    destroyed last_calls []
      (used stop
        (used again answered-Lives answered_quiet.0
          (answered_new.0, omega (arith, answered_new.1), tt))
        answered_quiet.0 tt)
      answered_quiet.0

Lives-handlers_example :
    Perm
      (ended.dropped
        ++ (held ended.client.flights.transfers ++ (called (pending ended) ++ invoked ended)))
      (some second ∷ some caller ∷ [])
Lives-handlers_example = Lives-handlers ended-Lives

ended_gone : ended.client.alive ≡ false
unfolding finish
ended_gone = refl

answered_made : 0 < answered.client.sockets.next
unfolding new_client user_call posted_kick callback open_socket_cb socket_cb find close_socket_cb
answered_made = omega arith

Lives-shut_example : ((finish last_calls [] answered.client).sockets.states 0).is_open ≡ false
Lives-shut_example = Lives-shut 0 last_calls [] answered-Lives answered_quiet.0 (inl answered_made)

-- The second request got the handle of the first from the pool.
Lives-freed_example :
    Invariant.made 7 ended.client.flights.calls ≡ Invariant.cleaned 7 ended.client.flights.calls
Lives-freed_example = Lives-freed 7 ended-Lives ended_gone

-- One list was built for each of the two requests.
Lives-lists_example : Perm (freed ended.client.flights.calls) (built ended.client.flights.calls)
Lives-lists_example = Lives-lists ended-Lives ended_gone

Lives-AllTold_example : AllTold (λ code. 69 ∷ code ∷ []) ended.client.flights
Lives-AllTold_example = Lives-AllTold (λ code. 69 ∷ code ∷ []) ended-Lives
