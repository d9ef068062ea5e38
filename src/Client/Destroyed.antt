-- ===== src/Client/Destroyed.antt =====
-- What ~Client leaves, and what still runs behind it.
use cofetch.Base.{ℕ, ◌++◌, Perm, ◌+◌, ◌-◌, ◌≡◌, Bool, List, [], ◌∷◌, refl, ◌∙◌, arith, ap, ==_refl}
use mathlib.Core.List.{perm_middle}
use mathlib.Core.List.Perm
use cofetch.Client.{Client, destroy, free_transfers, free_idle, emit}
use cofetch.Timers.{run_kick, run_wait}
use cofetch.Timers.Wake.{gone_does_nothing}
use cofetch.Transfers.{Transfers, Transfer, Call, easy_cleanup, slist_free, remove_handle}
use cofetch.Transfers.Lists.{built, freed, carried, Accounted}
use cofetch.Transfers.Nodes.{count, handles, remove_first}
use cofetch.Transfers.Invariant.{live, attached, made, cleaned, Inv}

live-free_transfers :
    (e : ℕ) (ts : List Transfer) (cs : List Call)
    → live e (free_transfers ts cs) ≡ live e cs - count e ts
unfolding free_transfers
live-free_transfers e [] cs = omega arith
live-free_transfers e (t ∷ ts) cs =
    live-free_transfers e ts
      (easy_cleanup t.eh.handle ∷ slist_free t.headers ∷ remove_handle t.eh.handle ∷ cs)
    ∙ ground arith

live-free_idle :
    (e : ℕ) (ts : List Transfer) (cs : List Call)
    → live e (free_idle ts cs) ≡ live e cs - count e ts
unfolding free_idle
live-free_idle e [] cs = omega arith
live-free_idle e (t ∷ ts) cs = live-free_idle e ts (easy_cleanup t.eh.handle ∷ cs) ∙ ground arith

attached-free_transfers :
    (ts : List Transfer) (cs : List Call)
    → attached cs ≡ handles ts
    → attached (free_transfers ts cs) ≡ []
unfolding free_transfers
attached-free_transfers [] cs e = e
attached-free_transfers (t ∷ ts) cs e =
    attached-free_transfers ts _ (ap (remove_first t.eh.handle) e ∙ rw (==_refl t.eh.handle))

attached-free_idle :
    (ts : List Transfer) (cs : List Call) → attached (free_idle ts cs) ≡ attached cs
unfolding free_idle
attached-free_idle [] cs = refl
attached-free_idle (t ∷ ts) cs = attached-free_idle ts _

made-free_transfers :
    (e : ℕ) (ts : List Transfer) (cs : List Call) → made e (free_transfers ts cs) ≡ made e cs
unfolding free_transfers
made-free_transfers e [] cs = refl
made-free_transfers e (t ∷ ts) cs = made-free_transfers e ts _

made-free_idle :
    (e : ℕ) (ts : List Transfer) (cs : List Call) → made e (free_idle ts cs) ≡ made e cs
unfolding free_idle
made-free_idle e [] cs = refl
made-free_idle e (t ∷ ts) cs = made-free_idle e ts _

cleaned-free_transfers :
    (e : ℕ) (ts : List Transfer) (cs : List Call)
    → cleaned e (free_transfers ts cs) ≡ count e ts + cleaned e cs
unfolding free_transfers
cleaned-free_transfers e [] cs = omega arith
cleaned-free_transfers e (t ∷ ts) cs =
    cleaned-free_transfers e ts
      (easy_cleanup t.eh.handle ∷ slist_free t.headers ∷ remove_handle t.eh.handle ∷ cs)
    ∙ ground arith

cleaned-free_idle :
    (e : ℕ) (ts : List Transfer) (cs : List Call)
    → cleaned e (free_idle ts cs) ≡ count e ts + cleaned e cs
unfolding free_idle
cleaned-free_idle e [] cs = omega arith
cleaned-free_idle e (t ∷ ts) cs =
    cleaned-free_idle e ts (easy_cleanup t.eh.handle ∷ cs) ∙ ground arith

-- Behind the destructor each easy handle has been freed as often as it had been made.
pub destroy-balanced :
    (e : ℕ) (c : Client)
    → Inv c.flights
    → made e (destroy c).flights.calls ≡ cleaned e (destroy c).flights.calls
unfolding destroy
destroy-balanced e c v =
    rw (made-free_idle, made-free_transfers, cleaned-free_idle, cleaned-free_transfers)
      (omega (arith, v.balanced e, v.owned e))

lists-free_transfers :
    (ts : List Transfer) (cs : List Call)
    → Perm (freed (free_transfers ts cs)) (carried ts ++ freed cs)
      × (built (free_transfers ts cs) ≡ built cs)
unfolding free_transfers
lists-free_transfers [] cs = (Perm.refl _, refl)
lists-free_transfers (t ∷ ts) cs =
    let done = easy_cleanup t.eh.handle ∷ slist_free t.headers ∷ remove_handle t.eh.handle ∷ cs in
    let (p, e) = lists-free_transfers ts done in
    (Perm.trans p (perm_middle (carried ts) (freed cs)), e)

lists-free_idle :
    (ts : List Transfer) (cs : List Call)
    → (freed (free_idle ts cs) ≡ freed cs) × (built (free_idle ts cs) ≡ built cs)
unfolding free_idle
lists-free_idle [] cs = (refl, refl)
lists-free_idle (t ∷ ts) cs = lists-free_idle ts (easy_cleanup t.eh.handle ∷ cs)

-- Behind the destructor each header list that was built has been freed.
pub destroy-lists :
    (c : Client)
    → Accounted c.flights
    → Perm (freed (destroy c).flights.calls) (built (destroy c).flights.calls)
unfolding destroy
destroy-lists c a =
    let flown = free_transfers c.flights.transfers c.flights.calls in
    let (f, b) = lists-free_idle c.flights.idle flown in
    let (p, e) = lists-free_transfers c.flights.transfers c.flights.calls in
    rw (f, b, e) (Perm.trans p a)

-- The destructor of a client that keeps the invariant frees every easy handle that was made and
-- not freed, whether its transfer is in flight or its node is idle, with none left in the multi
-- handle. It calls and posts no handler.
pub destroy_frees_all :
    (c : Client)
    → Inv c.flights
    → ((e : ℕ) → live e (destroy c).flights.calls ≡ 0)
      × (attached (destroy c).flights.calls ≡ [])
      × ((destroy c).flights.posted ≡ c.flights.posted)
      × ((destroy c).flights.delivered ≡ c.flights.delivered)
unfolding destroy
destroy_frees_all c v = (
  λ e. rw (live-free_idle, live-free_transfers) (omega (arith, v.owned e)),
  attached-free_idle c.flights.idle _ ∙ attached-free_transfers c.flights.transfers _ v.in_multi,
  refl,
  refl,
)

-- Behind the destructor, a cancellation slot that emits, a posted kick and the timer's handler change
-- nothing of the client.
pub destroyed_does_nothing :
    (cancel : ℕ → Transfers → Transfers) (id : ℕ) (failed : Bool) (c : Client)
    → let d = destroy c in
      (emit cancel id d ≡ d)
      × (run_kick d.alive d.timers ≡ d.timers)
      × (run_wait failed d.alive d.timers ≡ d.timers)
unfolding destroy emit
destroyed_does_nothing cancel id failed c =
    let idle = gone_does_nothing (destroy c).timers failed in (refl, idle.0, idle.1)
