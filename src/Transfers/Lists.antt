-- ===== src/Transfers/Lists.antt =====
-- The header lists that start builds: who has them, and who frees them.
use mathlib.Core.List.{perm_middle}
use mathlib.Core.List.Perm
use cofetch.Base.{
  ℕ, ◌≡◌, refl, Bool, true, List, [], ◌∷◌, ◌++◌, Option, none, some, ◌==◌, ==_refl, arith,
  Bool-cases, Option-cases, inl, inr, map, Perm, ℤ,
}
use cofetch.Request.{Request}
use cofetch.Response.{Bytes}
use cofetch.Transfers.Handle.{slist}
use cofetch.Transfers.Nodes.{remove_node-perm, find_id-cases, find_handle-cases}
use cofetch.Transfers.Operations.{
  curlm_ok, curle_failed_init, fail, retire, put_back, remove_node, clean, without_handler, prepare,
  take_node, assign_slot, add_to_multi, start_on, start, cancel_found, cancel, complete_found,
  complete,
}
use cofetch.Transfers.Callbacks.{update_node, header_cb, body_write_cb}
use cofetch.Transfers.Completions.{count-single}
use cofetch.Transfers.Invariant.{Inv}
use cofetch.Transfers.Reach.{
  Reach, initial, started, cancelled, completed, header_came, body_came, counted, Reach-Inv, init,
}
use cofetch.Transfers.{
  Transfer, Transfers, Handler, Call, easy_init, easy_cleanup, add_handle, add_handle_failed,
  remove_handle, slist_built, slist_free, slot_assign,
}

-- The lists built so far.
abbrev pub built : List Call → List (Option (List Bytes))
built [] = []
built (slist_built l ∷ cs) = l ∷ built cs
built (slist_free l ∷ cs) = built cs
built (easy_init e ∷ cs) = built cs
built (easy_cleanup e ∷ cs) = built cs
built (add_handle e ∷ cs) = built cs
built (add_handle_failed e ∷ cs) = built cs
built (remove_handle e ∷ cs) = built cs
built (slot_assign h id ∷ cs) = built cs

-- The lists freed so far.
abbrev pub freed : List Call → List (Option (List Bytes))
freed [] = []
freed (slist_free l ∷ cs) = l ∷ freed cs
freed (slist_built l ∷ cs) = freed cs
freed (easy_init e ∷ cs) = freed cs
freed (easy_cleanup e ∷ cs) = freed cs
freed (add_handle e ∷ cs) = freed cs
freed (add_handle_failed e ∷ cs) = freed cs
freed (remove_handle e ∷ cs) = freed cs
freed (slot_assign h id ∷ cs) = freed cs

abbrev pub carried : List Transfer → List (Option (List Bytes))
carried = map λ t. t.headers

-- Each list built is with a transfer in flight, or freed.
abbrev pub Accounted : Transfers → Type 0
Accounted c = Perm (carried c.transfers ++ freed c.calls) (built c.calls)

put_back-lists :
    (t : Transfer) (c : Transfers)
    → ((put_back t c).transfers ≡ c.transfers)
      × (freed (put_back t c).calls ≡ freed c.calls)
      × (built (put_back t c).calls ≡ built c.calls)
unfolding put_back
put_back-lists t c = ground arith

retire-Accounted :
    {t : Transfer} (scrub : Bool) (c : Transfers)
    → Perm c.transfers (t ∷ remove_node t.eh.handle c.transfers)
    → Accounted c
    → Accounted (retire (without_handler t) scrub c)
unfolding retire
retire-Accounted {t} scrub c p a =
    let left : Transfers = record c {
      transfers = remove_node t.eh.handle c.transfers;
      calls = slist_free t.headers ∷ c.calls;
    } in
    let (ts, fs, bs) = put_back-lists (clean scrub (without_handler t)) left in
    let moved = Perm.append_right (freed c.calls) (Perm.symm (Perm.map (λ u. u.headers) p)) in
    rw (ts, fs, bs)
      (Perm.trans (perm_middle (carried (remove_node t.eh.handle c.transfers)) (freed c.calls))
        (Perm.trans moved a))

-- Completions and the count of running transfers are no part of it, nor is the removal of a handle.
fail-Accounted :
    (h : Option Handler) (code : ℕ) (c : Transfers) → Accounted c → Accounted (fail h code c)
unfolding fail
fail-Accounted h code c a = a

cancel-Accounted : {c : Transfers} (id : ℕ) → Inv c → Accounted c → Accounted (cancel id c)
unfolding cancel cancel_found
cancel-Accounted {c} id v a = elim (find_id-cases id c.transfers) [
  | inl e ↦ rw (e, cancel) a
  | inr (t, e, h, _) ↦
      rw (e, cancel) (retire-Accounted true _ (remove_node-perm h (count-single t.eh.handle v)) a)
]

complete-Accounted :
    {c : Transfers} (e code : ℕ) (status : ℤ)
    → Inv c
    → Accounted c
    → Accounted (complete e code status c)
unfolding complete complete_found
complete-Accounted {c} e code status v a = elim (find_handle-cases e c.transfers) [
  | inl (f, _) ↦ rw (f, complete) a
  | inr (t, f, h, _) ↦
      rw (f, complete)
        (retire-Accounted t.scrub_on_done _ (remove_node-perm h (count-single t.eh.handle v)) a)
]

add_to_multi-Accounted :
    (rc : ℕ) (t : Transfer) (c : Transfers) (ts : List Transfer)
    → c.transfers ≡ t ∷ ts
    → Accounted c
    → Accounted (add_to_multi rc t c)
unfolding add_to_multi
add_to_multi-Accounted rc t c ts e a = elim (Bool-cases (rc == curlm_ok)) [
  | inl added ↦ rw added a
  | inr refused ↦
      let tried : Transfers = record c { calls = add_handle_failed t.eh.handle ∷ c.calls } in
      let at_front : Perm tried.transfers (t ∷ remove_node t.eh.handle tried.transfers) =
        rw (e, remove_node, ==_refl t.eh.handle) (Perm.refl _) in
      rw refused (retire-Accounted true tried at_front a)
]

assign_slot-Accounted :
    (h : Handler) (id : ℕ) (ls : List (Option (List Bytes))) (cs : List Call)
    → Perm (ls ++ freed cs) (built cs)
    → Perm (ls ++ freed (assign_slot h id cs)) (built (assign_slot h id cs))
unfolding assign_slot
assign_slot-Accounted h id ls cs p = elim (Bool-cases h.slot_connected) [
  | inl connected ↦ rw connected p
  | inr none_there ↦ rw none_there p
]

start_on-Accounted :
    (rc : ℕ) (r : Request) (h : Handler) (t : Transfer) (c : Transfers)
    → Accounted c
    → Accounted (start_on rc r h (t, c))
unfolding start_on prepare
start_on-Accounted rc r h t c a = add_to_multi-Accounted rc _ _ c.transfers refl (
    assign_slot-Accounted h _ (slist r.header_lines ∷ carried c.transfers)
      (slist_built (slist r.header_lines) ∷ c.calls) (Perm.cons _ a))

take_node-Accounted :
    (ts : List Transfer) (init : Option ℕ) (c d : Transfers) (t : Transfer)
    → take_node ts init c ≡ some (t, d)
    → (carried d.transfers ≡ carried c.transfers)
      × (freed d.calls ≡ freed c.calls)
      × (built d.calls ≡ built c.calls)
unfolding take_node
take_node-Accounted [] none c d t e = cc
take_node-Accounted [] (some k) c d t e = ground arith
take_node-Accounted (u ∷ ts) init c d t e = ground arith

start-Accounted :
    (init : Option ℕ) (rc : ℕ) (r : Request) (h : Handler) (c : Transfers)
    → Accounted c
    → Accounted (start init rc r h c)
unfolding start
start-Accounted init rc r h c a = elim (Option-cases (take_node c.idle init c)) [
  | inl e ↦ rw (e, start) (fail-Accounted (some h) curle_failed_init c a)
  | inr ((t, d), e) ↦
      let (ts, fs, bs) = take_node-Accounted c.idle init c d t e in
      rw (e, start) (start_on-Accounted rc r h t d (rw (ts, fs, bs) a))
]

carried-update_node :
    (e : ℕ) (f : Transfer → Transfer) (ts : List Transfer)
    → ((t : Transfer) → (f t).headers ≡ t.headers)
    → carried (update_node e f ts) ≡ carried ts
unfolding update_node
carried-update_node e f [] k = refl
carried-update_node e f (t ∷ ts) k = ground (arith, k t, carried-update_node e f ts k)

update_node-Accounted :
    (e : ℕ) (f : Transfer → Transfer) (c : Transfers)
    → ((t : Transfer) → (f t).headers ≡ t.headers)
    → Accounted c
    → Accounted (record c { transfers = update_node e f c.transfers })
update_node-Accounted e f c k a = rw (carried-update_node e f c.transfers k) a

-- In every state that operations lead to, each header list that start has built is with a transfer in
-- flight, which has just this list, or has been freed, once.
pub Reach-Accounted : {cap : ℕ} {hs : List Handler} {c : Transfers} → Reach cap hs c → Accounted c
unfolding init header_cb body_write_cb
Reach-Accounted initial = Perm.refl _
Reach-Accounted (started {c} answer rc r h p new small) =
    start-Accounted answer rc r h c (Reach-Accounted p)
Reach-Accounted (cancelled id p) = cancel-Accounted id (Reach-Inv p) (Reach-Accounted p)
Reach-Accounted (completed e code status p) =
    complete-Accounted e code status (Reach-Inv p) (Reach-Accounted p)
Reach-Accounted (header_came {c} e chunk n l p) =
    update_node-Accounted e _ c (λ t. refl) (Reach-Accounted p)
Reach-Accounted (body_came {c} e chunk n l p) =
    update_node-Accounted e _ c (λ t. refl) (Reach-Accounted p)
Reach-Accounted (counted n p) = Reach-Accounted p
