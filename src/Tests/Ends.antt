-- ===== src/Tests/Ends.antt =====
-- A client with a transfer in flight completes it, and is destroyed.
use cofetch.Base.{none, ℕ, ◌≡◌, true, false, [], ◌∷◌, pos, List}
use cofetch.Client.{Client, Message, done, another, destroy, check_completions, emit}
use cofetch.Client.Destroyed.{destroy_frees_all, destroyed_does_nothing}
use cofetch.Client.Loop.{Reacts, check_completions-Reach}
use cofetch.Sockets.Runs
use cofetch.Tests.Flights.{busy, busy-Reach, caller}
use cofetch.Tests.Watches.{blank}
use cofetch.Timers
use cofetch.Timers.{run_kick, run_wait}
use cofetch.Transfers.{Handler}
use cofetch.Transfers.Invariant.{attached, live}
use cofetch.Transfers.Operations.{cancel}
use cofetch.Transfers.Reach.{Reach, cancelled, Reach-Inv}

abbrev client : Client
client = record {
  flights = busy;
  timers = Timers.init;
  sockets = Runs.init blank;
  alive = true;
  given = λ fd. none;
}

destroy_frees_all_example :
    ((e : ℕ) → live e (destroy client).flights.calls ≡ 0)
    × (attached (destroy client).flights.calls ≡ [])
    × ((destroy client).flights.posted ≡ busy.posted)
    × ((destroy client).flights.delivered ≡ busy.delivered)
destroy_frees_all_example = destroy_frees_all client (Reach-Inv busy-Reach)

destroyed_does_nothing_example :
    (emit cancel 1 (destroy client) ≡ destroy client)
    × (run_kick (destroy client).alive (destroy client).timers ≡ (destroy client).timers)
    × (run_wait false (destroy client).alive (destroy client).timers ≡ (destroy client).timers)
destroyed_does_nothing_example = destroyed_does_nothing cancel 1 false client

cancels-Reacts : Reacts 1 (cancel 1)
cancels-Reacts hs c r = (hs, cancelled 1 r)

abbrev messages : List Message
messages = another ∷ done 7 0 (pos 200) ∷ []

check_completions-Reach_example :
    (hs' : List Handler) × Reach 1 hs' (check_completions (cancel 1) messages busy)
check_completions-Reach_example =
    check_completions-Reach (cancel 1) messages cancels-Reacts (caller ∷ []) busy busy-Reach
