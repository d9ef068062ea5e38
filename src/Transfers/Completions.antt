-- ===== src/Transfers/Completions.antt =====
-- Each handler is in one place: with a transfer in flight, posted, or called.
use mathlib.Core.List.{perm_middle}
use mathlib.Core.List.Perm
use mathlib.Core.Path.{subst}
use cofetch.Base.{
  ℕ, ◌≡◌, ◌≤◌, refl, sym, ap, Bool, true, List, [], ◌∷◌, ◌++◌, Option, none, some, ◌==◌, ==_refl,
  if◌then◌else◌, arith, Bool-cases, Option-cases, inl, inr, map, Perm, ℤ,
}
use cofetch.Request.{Request}
use cofetch.Response.{Bytes}
use cofetch.Transfers.Nodes.{Holds, count, remove_node-perm, find_id-cases, find_handle-cases}
use cofetch.Transfers.Operations.{
  curlm_ok, curle_failed_init, curle_out_of_memory, curlm_out_of_memory, fail, retire, remove_node,
  without_handler, prepare, take_node, add_to_multi, start_on, start, cancel_found, cancel,
  complete_found, complete,
}
use cofetch.Transfers.Callbacks.{update_node, header_cb, body_write_cb}
use cofetch.Transfers.Invariant.{Inv}
use cofetch.Transfers.{Transfer, Transfers, Handler, Completion, add_handle_failed}

abbrev pub held : List Transfer → List (Option Handler)
held = map λ t. t.handler

abbrev pub called : List Completion → List (Option Handler)
called = map λ p. p.handler

-- The handlers of the transfers in flight, of the completions posted and of those delivered.
abbrev pub handlers : Transfers → List (Option Handler)
handlers c = held c.transfers ++ (called c.posted ++ called c.delivered)

-- In a state that keeps the invariant no handle is in two nodes.
pub count-single : {c : Transfers} (e : ℕ) → Inv c → count e c.transfers ≤ 1
count-single {c} e v = omega (arith, v.owned e, v.single e)

-- What moves from its node to the rest stays in the collection.
pub moved-perm :
    {B : Type 0} (f : Transfer → B) {t : Transfer} {ts : List Transfer} (rest : List B)
    → Holds t ts
    → count t.eh.handle ts ≤ 1
    → Perm (map f (remove_node t.eh.handle ts) ++ f t ∷ rest) (map f ts ++ rest)
moved-perm f {t} {ts} rest h one =
    Perm.trans (perm_middle (map f (remove_node t.eh.handle ts)) rest)
      (Perm.append (Perm.symm (Perm.map f (remove_node-perm h one))) (Perm.refl rest))

pub cancel_found-lists :
    (t : Transfer) (c : Transfers)
    → ((cancel_found t c).transfers ≡ remove_node t.eh.handle c.transfers)
      × (called (cancel_found t c).posted ≡ t.handler ∷ called c.posted)
      × ((cancel_found t c).delivered ≡ c.delivered)
unfolding cancel_found
cancel_found-lists t c = ground arith

pub complete_found-lists :
    (code : ℕ) (status : ℤ) (t : Transfer) (c : Transfers)
    → ((complete_found code status t c).transfers ≡ remove_node t.eh.handle c.transfers)
      × ((complete_found code status t c).posted ≡ c.posted)
      × (called (complete_found code status t c).delivered ≡ t.handler ∷ called c.delivered)
unfolding complete_found
complete_found-lists code status t c = ground arith

handlers-cancel_found :
    (t : Transfer) (c : Transfers)
    → handlers (cancel_found t c)
      ≡ held (remove_node t.eh.handle c.transfers)
        ++ t.handler ∷ (called c.posted ++ called c.delivered)
handlers-cancel_found t c = let (ts, ps, ds) = cancel_found-lists t c in rw (ts, ps, ds)

handlers-complete_found :
    (code : ℕ) (status : ℤ) (t : Transfer) (c : Transfers)
    → handlers (complete_found code status t c)
      ≡ held (remove_node t.eh.handle c.transfers)
        ++ (called c.posted ++ t.handler ∷ called c.delivered)
handlers-complete_found code status t c =
    let (ts, ps, ds) = complete_found-lists code status t c in rw (ts, ps, ds)

-- Cancelling moves the handler of its transfer, if there is one, to the posted completions, and
-- loses or repeats no handler.
pub handlers-cancel : {c : Transfers} (id : ℕ) → Inv c → Perm (handlers (cancel id c)) (handlers c)
unfolding cancel
handlers-cancel {c} id v = elim (find_id-cases id c.transfers) [
  | inl e ↦ rw (e, cancel) (Perm.refl _)
  | inr (t, e, h, _) ↦
      rw (e, cancel)
        (subst (λ l. Perm l (handlers c)) (sym (handlers-cancel_found t c))
          (moved-perm (λ u. u.handler) (called c.posted ++ called c.delivered) h
            (count-single t.eh.handle v)))
]

-- A round of check_completions moves the handler of the finished transfer to those called, and
-- loses or repeats no handler.
pub handlers-complete :
    {c : Transfers} (e code : ℕ) (status : ℤ)
    → Inv c
    → Perm (handlers (complete e code status c)) (handlers c)
unfolding complete
handlers-complete {c} e code status v = elim (find_handle-cases e c.transfers) [
  | inl (f, _) ↦ rw (f, complete) (Perm.refl _)
  | inr (t, f, h, _) ↦
      rw (f, complete)
        (subst (λ l. Perm l (handlers c)) (sym (handlers-complete_found code status t c))
          (Perm.trans
            (Perm.append (Perm.refl (held (remove_node t.eh.handle c.transfers)))
              (perm_middle (called c.posted) (called c.delivered)))
            (moved-perm (λ u. u.handler) (called c.posted ++ called c.delivered) h
              (count-single t.eh.handle v))))
]

pub retire-lists :
    (t : Transfer) (scrub : Bool) (c : Transfers)
    → ((retire t scrub c).transfers ≡ remove_node t.eh.handle c.transfers)
      × ((retire t scrub c).posted ≡ c.posted)
      × ((retire t scrub c).delivered ≡ c.delivered)
unfolding retire
retire-lists t scrub c = ground arith

handlers-fail :
    (h : Option Handler) (code : ℕ) (c : Transfers)
    → Perm (handlers (fail h code c)) (h ∷ handlers c)
unfolding fail
handlers-fail h code c = perm_middle (held c.transfers) (called c.posted ++ called c.delivered)

handlers-retire :
    (t : Transfer) (scrub : Bool) (c : Transfers) (ts : List Transfer)
    → c.transfers ≡ t ∷ ts
    → handlers (retire (without_handler t) scrub c)
      ≡ held ts ++ (called c.posted ++ called c.delivered)
unfolding remove_node
handlers-retire t scrub c ts e =
    let (a, b, d) = retire-lists (without_handler t) scrub c in rw (a, b, d, e, ==_refl t.eh.handle)

handlers-add_to_multi :
    (rc : ℕ) (t : Transfer) (c : Transfers) (ts : List Transfer)
    → c.transfers ≡ t ∷ ts
    → Perm
        (handlers (add_to_multi rc t c))
        (t.handler ∷ (held ts ++ (called c.posted ++ called c.delivered)))
unfolding add_to_multi
handlers-add_to_multi rc t c ts e = elim (Bool-cases (rc == curlm_ok)) [
  | inl added ↦ rw added (rw e (Perm.refl _))
  | inr failed ↦
      let tried = record c { calls = add_handle_failed t.eh.handle ∷ c.calls } in
      rw failed (
        Perm.trans
          (handlers-fail t.handler
            (if rc == curlm_out_of_memory then curle_out_of_memory else curle_failed_init)
            (retire (without_handler t) true tried))
          (subst (λ l. Perm (t.handler ∷ l) (t.handler ∷ after_retire))
            (sym (handlers-retire t true tried ts e)) (Perm.refl _)))
]
  where
    after_retire : List (Option Handler)
    after_retire = held ts ++ (called c.posted ++ called c.delivered)

take_node-handlers :
    (ts : List Transfer) (init : Option ℕ) (c d : Transfers) (t : Transfer)
    → take_node ts init c ≡ some (t, d)
    → handlers d ≡ handlers c
unfolding take_node
take_node-handlers [] none c d t e = cc
take_node-handlers [] (some k) c d t e = ground arith
take_node-handlers (u ∷ ts) init c d t e = ground arith

handlers-start_on :
    (rc : ℕ) (r : Request) (h : Handler) (t : Transfer) (c : Transfers)
    → Perm (handlers (start_on rc r h (t, c))) (some h ∷ handlers c)
unfolding start_on prepare
handlers-start_on rc r h t c = handlers-add_to_multi rc _ _ c.transfers refl

-- Starting a request adds its handler, and loses or repeats no handler, on every branch.
pub handlers-start :
    (init : Option ℕ) (rc : ℕ) (r : Request) (h : Handler) (c : Transfers)
    → Perm (handlers (start init rc r h c)) (some h ∷ handlers c)
unfolding start
handlers-start init rc r h c = elim (Option-cases (take_node c.idle init c)) [
  | inl e ↦ rw (e, start) (handlers-fail (some h) curle_failed_init c)
  | inr ((t, d), e) ↦
      rw (e, start)
        (subst (λ l. Perm (handlers (start_on rc r h (t, d))) (some h ∷ l))
          (take_node-handlers c.idle init c d t e) (handlers-start_on rc r h t d))
]

held-update_node :
    (e : ℕ) (f : Transfer → Transfer) (ts : List Transfer)
    → ((t : Transfer) → (f t).handler ≡ t.handler)
    → held (update_node e f ts) ≡ held ts
unfolding update_node
held-update_node e f [] k = refl
held-update_node e f (t ∷ ts) k = ground (arith, k t, held-update_node e f ts k)

-- Data that comes in moves no handler.
pub handlers-header_cb :
    (e : ℕ) (chunk : Bytes) (n l : ℕ) (c : Transfers)
    → handlers (header_cb e chunk n l c).1 ≡ handlers c
unfolding header_cb
handlers-header_cb e chunk n l c =
    ap (λ hs. hs ++ (called c.posted ++ called c.delivered))
      (held-update_node e _ c.transfers (λ t. refl))

pub handlers-body_write_cb :
    (e : ℕ) (chunk : Bytes) (n l : ℕ) (c : Transfers)
    → handlers (body_write_cb e chunk n l c).1 ≡ handlers c
unfolding body_write_cb
handlers-body_write_cb e chunk n l c =
    ap (λ hs. hs ++ (called c.posted ++ called c.delivered))
      (held-update_node e _ c.transfers (λ t. refl))
