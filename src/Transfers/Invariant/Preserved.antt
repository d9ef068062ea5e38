-- ===== src/Transfers/Invariant/Preserved.antt =====
-- Every operation keeps the invariant.
use cofetch.Base.{ℕ, ap, true, List, ◌∷◌, Option, inl, inr, ℤ}
use cofetch.Transfers.Nodes.{find_id-cases, find_handle-cases, remove_first}
use cofetch.Transfers.Operations.{fail, cancel_found, cancel, complete_found, complete}
use cofetch.Transfers.Invariant.Retire.{Leaving, retire-Inv}
use cofetch.Transfers.Invariant.{Inv}
use cofetch.Transfers.{Transfer, Transfers, Handler, Completion, remove_handle}

-- The invariant says nothing of the completions.
completions-Inv :
    {c : Transfers} (p d : List Completion) → Inv c → Inv (record c { posted = p; delivered = d })
completions-Inv p d v = record {
  bounded = v.bounded;
  falling = v.falling;
  flying = v.flying;
  resting = v.resting;
  in_multi = v.in_multi;
  owned = v.owned;
  single = v.single;
  balanced = v.balanced;
}

pub fail-Inv : {c : Transfers} (h : Option Handler) (code : ℕ) → Inv c → Inv (fail h code c)
unfolding fail
fail-Inv {c} h code v = completions-Inv _ c.delivered v

removed-Leaving :
    {c : Transfers} (t : Transfer) (n : ℕ)
    → Inv c
    → Leaving t (record c { calls = remove_handle t.eh.handle ∷ c.calls; running = n })
removed-Leaving t n v = record {
  bounded = v.bounded;
  falling = v.falling;
  flying = v.flying;
  resting = v.resting;
  in_multi = ap (remove_first t.eh.handle) v.in_multi;
  owned = v.owned;
  single = v.single;
  balanced = v.balanced;
}

-- Cancelling a transfer keeps the invariant.
pub cancel-Inv : {c : Transfers} (id : ℕ) → Inv c → Inv (cancel id c)
unfolding cancel cancel_found
cancel-Inv {c} id v = elim (find_id-cases id c.transfers) [
  | inl e ↦ rw (e, cancel) v
  | inr (t, e, h, _) ↦
      rw (e, cancel) (completions-Inv _ _ (retire-Inv true (removed-Leaving t _ v) h (λ f. cc)))
]

-- A round of check_completions keeps the invariant.
pub complete-Inv :
    {c : Transfers} (e code : ℕ) (status : ℤ) → Inv c → Inv (complete e code status c)
unfolding complete complete_found
complete-Inv {c} e code status v = elim (find_handle-cases e c.transfers) [
  | inl (f, _) ↦ rw (f, complete) v
  | inr (t, f, h, _) ↦
      rw (f, complete)
        (completions-Inv _ _
          (retire-Inv t.scrub_on_done (removed-Leaving t c.running v) h (λ g. g)))
]
