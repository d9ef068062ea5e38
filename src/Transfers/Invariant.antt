-- ===== src/Transfers/Invariant.antt =====
-- What holds of the transfers between any two operations.
pub mod Retire
pub mod Preserved
pub mod Started
pub mod Received
use cofetch.Base.{
  ℕ, ◌+◌, ◌-◌, ◌≡◌, ◌≤◌, false, List, [], ◌∷◌, ◌++◌, none, some, ◌==◌, if◌then◌else◌, length, All,
}
use cofetch.Request.{Request, Setting}
use cofetch.Transfers.Handle.{configure_settings, request_settings}
use cofetch.Transfers.Nodes.{handles, remove_first, count, Falling}
use cofetch.Transfers.{
  Handler, Transfer, Call, easy_init, easy_cleanup, add_handle, add_handle_failed, remove_handle,
  slist_built, slist_free, slot_assign, Transfers,
}

-- The easy handles added to the multi handle and not removed since.
abbrev pub attached : List Call → List ℕ
attached [] = []
attached (add_handle e ∷ cs) = e ∷ attached cs
attached (remove_handle e ∷ cs) = remove_first e (attached cs)
attached (easy_init e ∷ cs) = attached cs
attached (easy_cleanup e ∷ cs) = attached cs
attached (add_handle_failed e ∷ cs) = attached cs
attached (slist_built l ∷ cs) = attached cs
attached (slist_free l ∷ cs) = attached cs
attached (slot_assign h id ∷ cs) = attached cs

-- How often this handle has been made and not been freed since.
abbrev pub live : ℕ → List Call → ℕ
live e [] = 0
live e (easy_init k ∷ cs) = (if k == e then 1 else 0) + live e cs
live e (easy_cleanup k ∷ cs) = live e cs - (if k == e then 1 else 0)
live e (add_handle k ∷ cs) = live e cs
live e (remove_handle k ∷ cs) = live e cs
live e (add_handle_failed k ∷ cs) = live e cs
live e (slist_built l ∷ cs) = live e cs
live e (slist_free l ∷ cs) = live e cs
live e (slot_assign h id ∷ cs) = live e cs

-- How often this handle has been made, and how often it has been freed.
abbrev pub made : ℕ → List Call → ℕ
made e [] = 0
made e (easy_init k ∷ cs) = (if k == e then 1 else 0) + made e cs
made e (easy_cleanup k ∷ cs) = made e cs
made e (add_handle k ∷ cs) = made e cs
made e (remove_handle k ∷ cs) = made e cs
made e (add_handle_failed k ∷ cs) = made e cs
made e (slist_built l ∷ cs) = made e cs
made e (slist_free l ∷ cs) = made e cs
made e (slot_assign h id ∷ cs) = made e cs

abbrev pub cleaned : ℕ → List Call → ℕ
cleaned e [] = 0
cleaned e (easy_init k ∷ cs) = cleaned e cs
cleaned e (easy_cleanup k ∷ cs) = (if k == e then 1 else 0) + cleaned e cs
cleaned e (add_handle k ∷ cs) = cleaned e cs
cleaned e (remove_handle k ∷ cs) = cleaned e cs
cleaned e (add_handle_failed k ∷ cs) = cleaned e cs
cleaned e (slist_built l ∷ cs) = cleaned e cs
cleaned e (slist_free l ∷ cs) = cleaned e cs
cleaned e (slot_assign h id ∷ cs) = cleaned e cs

-- The options of this node's handle come from `configure_handle` and from requests with no hook.
pub data Unhooked (e : ℕ) : List Setting → Type 0 where
  configured : {ss : List Setting} → ss ≡ configure_settings → Unhooked e ss
  requested :
      {old ss : List Setting} (r : Request)
      → Unhooked e old
      → ss ≡ old ++ request_settings e r
      → Unhooked e ss

-- An idle node has no list, body, buffer, handler or id of the request that it served. Its handle has options
-- that requests set, but none that a hook set.
pub record IsIdle (t : Transfer) : Type 0 where
  pub no_headers : t.headers ≡ none
  pub no_body : t.body ≡ []
  pub no_buffer : t.buffer ≡ []
  pub no_header_buffer : t.header_buffer ≡ []
  pub no_handler : t.handler ≡ none
  pub no_id : t.id ≡ 0
  pub no_scrub : t.scrub_on_done ≡ false
  pub no_hook : Unhooked t.eh.handle t.eh.settings

-- A node in flight has its handler, and is marked if a hook has run on its handle.
pub record IsFlying (t : Transfer) : Type 0 where
  pub handled : (h : Handler) × (t.handler ≡ some h)
  pub marked : t.scrub_on_done ≡ false → Unhooked t.eh.handle t.eh.settings

-- The pool is within its cap. Ids are positive and distinct. Idle nodes are clean. The multi handle
-- holds the handles in flight and no other. Each handle that is not freed is in one node, and none has
-- been freed more often than it was made.
pub record Inv (c : Transfers) : Type 0 where
  pub bounded : length c.idle ≤ c.max_pooled_handles
  pub falling : Falling c.next_transfer_id c.transfers
  pub flying : All IsFlying c.transfers
  pub resting : All IsIdle c.idle
  pub in_multi : attached c.calls ≡ handles c.transfers
  pub owned : (e : ℕ) → count e c.transfers + count e c.idle ≡ live e c.calls
  pub single : (e : ℕ) → live e c.calls ≤ 1
  pub balanced : (e : ℕ) → made e c.calls ≡ live e c.calls + cleaned e c.calls
