-- ===== src/Transfers/Invariant/Retire.antt =====
-- retire keeps the invariant.
use cofetch.Base.{
  ℕ, ◌+◌, ◌≡◌, ◌≤◌, refl, sym, Bool, true, false, none, ltb, length, arith, Bool-cases, inl, inr,
  All,
}
use cofetch.Transfers.Handle.{configure_handle}
use cofetch.Transfers.Nodes.{
  Holds, All-Holds, All-remove_node, handles-remove_node, count-remove_node, Falling-remove_node,
  handles, count, Falling, remove_first,
}
use cofetch.Transfers.Operations.{clean, put_back, retire, without_handler}
use cofetch.Transfers.Invariant.{
  attached, live, made, cleaned, Unhooked, configured, IsIdle, IsFlying, Inv,
}
use cofetch.Transfers.{Transfer, Transfers}

-- A node that goes back is clean, if it is scrubbed or no hook has run on its handle.
clean-IsIdle :
    (t : Transfer) (scrub : Bool)
    → t.handler ≡ none
    → (scrub ≡ false → Unhooked t.eh.handle t.eh.settings)
    → IsIdle (clean scrub t)
unfolding clean configure_handle
clean-IsIdle t true e h = record {
  no_headers = refl;
  no_body = refl;
  no_buffer = refl;
  no_header_buffer = refl;
  no_handler = e;
  no_id = refl;
  no_scrub = refl;
  no_hook = configured refl;
}
clean-IsIdle t false e h = record {
  no_headers = refl;
  no_body = refl;
  no_buffer = refl;
  no_header_buffer = refl;
  no_handler = e;
  no_id = refl;
  no_scrub = refl;
  no_hook = h refl;
}

handle-clean : (t : Transfer) (scrub : Bool) → (clean scrub t).eh.handle ≡ t.eh.handle
unfolding clean configure_handle
handle-clean t true = refl
handle-clean t false = refl

-- The invariant while node `t` is in the list of those in flight and no more in the multi handle.
pub record Leaving (t : Transfer) (c : Transfers) : Type 0 where
  pub bounded : length c.idle ≤ c.max_pooled_handles
  pub falling : Falling c.next_transfer_id c.transfers
  pub flying : All IsFlying c.transfers
  pub resting : All IsIdle c.idle
  pub in_multi : attached c.calls ≡ remove_first t.eh.handle (handles c.transfers)
  pub owned : (e : ℕ) → count e c.transfers + count e c.idle ≡ live e c.calls
  pub single : (e : ℕ) → live e c.calls ≤ 1
  pub balanced : (e : ℕ) → made e c.calls ≡ live e c.calls + cleaned e c.calls

-- Retiring that node restores the invariant.
pub retire-Inv :
    {c : Transfers} {t : Transfer} (scrub : Bool)
    → Leaving t c
    → Holds t c.transfers
    → (scrub ≡ false → t.scrub_on_done ≡ false)
    → Inv (retire (without_handler t) scrub c)
unfolding retire put_back
retire-Inv {c} {t} scrub v h marked = elim (Bool-cases (ltb (length c.idle) c.max_pooled_handles)) [
  | inl room ↦ rw room (record {
    bounded = ground arith;
    falling = Falling-remove_node t.eh.handle c.next_transfer_id c.transfers v.falling;
    flying = All-remove_node IsFlying t.eh.handle c.transfers v.flying;
    resting = (
      clean-IsIdle (without_handler t) scrub refl
          (λ e. (All-Holds IsFlying v.flying h).marked (marked e)),
      v.resting,
    );
    in_multi = rw v.in_multi (sym (handles-remove_node t.eh.handle c.transfers));
    owned = λ e.
        ground (arith, v.owned e, count-remove_node e h, handle-clean (without_handler t) scrub);
    single = v.single;
    balanced = v.balanced;
  })
  | inr full ↦ rw full (record {
    bounded = v.bounded;
    falling = Falling-remove_node t.eh.handle c.next_transfer_id c.transfers v.falling;
    flying = All-remove_node IsFlying t.eh.handle c.transfers v.flying;
    resting = v.resting;
    in_multi = rw v.in_multi (sym (handles-remove_node t.eh.handle c.transfers));
    owned = λ e.
        ground (arith, v.owned e, count-remove_node e h, handle-clean (without_handler t) scrub);
    single = λ e. ground (arith, v.single e);
    balanced = λ e. ground (
      arith,
      v.balanced e,
      v.owned e,
      count-remove_node e h,
      handle-clean (without_handler t) scrub,
    );
  })
]
