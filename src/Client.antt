-- ===== src/Client.antt =====
-- class Client of include/cofetch.h as a whole: its constructor, its destructor and the loop of
-- check_completions.
pub mod Destroyed
pub mod Severed
pub mod Loop
pub mod Calls
pub mod Promises
pub mod Sane
pub mod System
pub mod Gone
pub mod Once
pub mod Globals
use cofetch.Base.{if◌then◌else◌, ◌||◌, ℕ, Bool, true, false, List, [], ◌∷◌, Option, ℤ}
use cofetch.Sockets
use cofetch.Sockets.Events.{Callback, callbacks}
use cofetch.Sockets.{Sockets, close_socket, update}
use cofetch.Timers
use cofetch.Timers.{Timers, cancel_timer, timer_cb}
use cofetch.Transfers.{Transfer, Transfers, Call, easy_cleanup, remove_handle, slist_free}
use cofetch.Transfers.Operations.{complete}

-- `given` is what libcurl has for a descriptor from curl_multi_assign.
pub record Client : Type 0 where
  pub flights : Transfers
  pub timers : Timers
  pub sockets : Sockets
  pub alive : Bool
  pub given : ℕ → Option ℕ

-- The loop of ~Client over the sockets.
unfoldable pub sever : List (ℕ × ℕ) → Sockets → Sockets
unfolding close_socket
sever [] c = c
sever ((fd, p) ∷ m) c = sever m (close_socket p (update p (λ s. record s { watch = 0 }) c))

-- The loop of ~Client over the transfers in flight.
unfoldable pub free_transfers : List Transfer → List Call → List Call
free_transfers [] cs = cs
free_transfers (t ∷ ts) cs =
    free_transfers ts
      (easy_cleanup t.eh.handle ∷ slist_free t.headers ∷ remove_handle t.eh.handle ∷ cs)

-- The loop of ~Client over the idle nodes.
unfoldable pub free_idle : List Transfer → List Call → List Call
free_idle [] cs = cs
free_idle (t ∷ ts) cs = free_idle ts (easy_cleanup t.eh.handle ∷ cs)

-- ~Client, and the end of the two lists with their nodes. What libcurl calls back meanwhile comes behind
-- it: these calls change the sockets and the timer only, and sockets are severed first.
unfoldable pub destroy : Client → Client
unfolding sever free_transfers free_idle
destroy c = record {
  flights = record (c.flights) {
    transfers = [];
    idle = [];
    calls = free_idle c.flights.idle (free_transfers c.flights.transfers c.flights.calls);
  };
  timers = record (c.timers) { calls = cancel_timer ∷ c.timers.calls };
  sockets = sever c.sockets.sockets c.sockets;
  alive = false;
  given = c.given;
}

-- What `curl_multi_info_read` gives: a transfer that is done, with its handle, result and HTTP status,
-- or another message.
pub data Message : Type 0 where
  done : ℕ → ℕ → ℤ → Message
  another : Message

-- check_completions on the messages that it reads. `react` is what a handler does to the transfers
-- when it is called.
unfoldable pub check_completions : (Transfers → Transfers) → List Message → Transfers → Transfers
check_completions react [] c = c
check_completions react (another ∷ ms) c = check_completions react ms c
check_completions react (done e code status ∷ ms) c =
    check_completions react ms (react (complete e code status c))

-- The callback that Client assigns to the handler's cancellation slot.
unfoldable pub emit : (ℕ → Transfers → Transfers) → ℕ → Client → Client
emit cancel id c = record c { flights = cancelled c.alive }
  where
    cancelled : Bool → Transfers
    cancelled true = cancel id c.flights
    cancelled false = c.flights

-- What libcurl asks of the timer, with the time at which it does.
unfoldable pub timer_cbs : List (ℕ × ℤ) → Timers → Timers
unfolding timer_cb
timer_cbs [] c = c
timer_cbs ((now, t) ∷ ts) c = timer_cbs ts (timer_cb now t c)

-- The end of the map, which closes the sockets that it has. A wait's handler does not keep its state.
unfoldable pub drop_map : List (ℕ × ℕ) → Sockets → Sockets
unfolding close_socket
drop_map [] c = c
drop_map ((fd, p) ∷ m) c = drop_map m (close_socket p c)

-- The end of a client: its destructor, what `curl_multi_remove_handle` and `curl_multi_cleanup` call back
-- in it, for sockets and for the timer, and the end of the map.
unfoldable pub finish : List Callback → List (ℕ × ℤ) → Client → Client
unfolding destroy callbacks timer_cbs drop_map
finish ks ts c =
    let d = destroy c in
    let called = callbacks ks d.sockets in
    record d {
      sockets = record (drop_map called.sockets called) { sockets = [] };
      timers = timer_cbs ts d.timers;
    }
