-- ===== src/Client/Loop.antt =====
-- The loop of check_completions, with what the handlers do between its rounds.
use cofetch.Base.{ℕ, List, [], ◌∷◌}
use cofetch.Client.{Message, done, another, check_completions}
use cofetch.Transfers.{Transfers, Handler}
use cofetch.Transfers.Reach.{Reach, completed}

-- What a handler does leads from each reachable state to a reachable one, with what it started.
abbrev pub Reacts : ℕ → (Transfers → Transfers) → Type 0
Reacts cap react =
    (hs : List Handler) (c : Transfers)
    → Reach cap hs c
    → (hs' : List Handler) × Reach cap hs' (react c)

-- When each handler that runs inside check_completions does no more than operations of the client,
-- the loop ends in a state that operations lead to, for every sequence of messages.
pub check_completions-Reach :
    {cap : ℕ} (react : Transfers → Transfers) (ms : List Message)
    → Reacts cap react
    → (hs : List Handler) (c : Transfers) → Reach cap hs c
    → (hs' : List Handler) × Reach cap hs' (check_completions react ms c)
unfolding check_completions
check_completions-Reach react [] reacts hs c r = (hs, r)
check_completions-Reach react (another ∷ ms) reacts hs c r =
    check_completions-Reach react ms reacts hs c r
check_completions-Reach react (done e code status ∷ ms) reacts hs c r =
    check_completions-Reach react ms reacts _ _ (reacts hs _ (completed e code status r)).1
