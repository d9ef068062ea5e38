-- ===== src/Transfers/Reach.antt =====
-- The states that sequences of operations lead to. A handler that runs inside check_completions, and
-- a callback that libcurl makes, are further operations between two of its rounds.
use mathlib.Core.List.Perm
use mathlib.Core.Path.{subst}
use cofetch.Base.{ℕ, ◌+◌, ◌≡◌, ◌<◌, refl, sym, List, [], ◌∷◌, Option, some, map, Perm, ℤ, arith}
use cofetch.Request.{Request}
use cofetch.Response.{Bytes}
use cofetch.Transfers.Operations.{id_mod, start, cancel, complete}
use cofetch.Transfers.Callbacks.{header_cb, body_write_cb}
use cofetch.Transfers.Completions.{
  handlers, handlers-start, handlers-cancel, handlers-complete, handlers-header_cb,
  handlers-body_write_cb,
}
use cofetch.Transfers.Invariant.{Inv}
use cofetch.Transfers.Invariant.Preserved.{cancel-Inv, complete-Inv}
use cofetch.Transfers.Invariant.Started.{IsNew, start-Inv}
use cofetch.Transfers.Invariant.Received.{header_cb-Inv, body_write_cb-Inv}
use cofetch.Transfers.{Transfers, Handler}

-- Client(io, max_pooled_connections)
unfoldable pub init : ℕ → Transfers
init cap = record {
  transfers = [];
  idle = [];
  max_pooled_handles = cap;
  running = 0;
  next_transfer_id = 0;
  posted = [];
  delivered = [];
  calls = [];
}

-- libcurl writes the number of running transfers between the operations.
-- `Reach cap hs c`: from a new client with this cap to `c`, with these handlers started, newest first.
pub data Reach (cap : ℕ) : List Handler → Transfers → Type 0 where
  initial : Reach cap [] (init cap)
  started :
      {hs : List Handler} {c : Transfers} (answer : Option ℕ) (rc : ℕ) (r : Request) (h : Handler)
      → Reach cap hs c
      → IsNew answer c.calls
      → c.next_transfer_id + 1 < id_mod
      → Reach cap (h ∷ hs) (start answer rc r h c)
  cancelled :
      {hs : List Handler} {c : Transfers} (id : ℕ) → Reach cap hs c → Reach cap hs (cancel id c)
  completed :
      {hs : List Handler} {c : Transfers} (e code : ℕ) (status : ℤ)
      → Reach cap hs c
      → Reach cap hs (complete e code status c)
  header_came :
      {hs : List Handler} {c : Transfers} (e : ℕ) (chunk : Bytes) (n l : ℕ)
      → Reach cap hs c
      → Reach cap hs (header_cb e chunk n l c).1
  body_came :
      {hs : List Handler} {c : Transfers} (e : ℕ) (chunk : Bytes) (n l : ℕ)
      → Reach cap hs c
      → Reach cap hs (body_write_cb e chunk n l c).1
  counted :
      {hs : List Handler} {c : Transfers} (n : ℕ)
      → Reach cap hs c
      → Reach cap hs (record c { running = n })

init-Inv : (cap : ℕ) → Inv (init cap)
unfolding init
init-Inv cap = record {
  bounded = omega arith;
  falling = tt;
  flying = tt;
  resting = tt;
  in_multi = refl;
  owned = λ e. refl;
  single = λ e. omega arith;
  balanced = λ e. omega arith;
}

running-Inv : {c : Transfers} (n : ℕ) → Inv c → Inv (record c { running = n })
running-Inv n v = record {
  bounded = v.bounded;
  falling = v.falling;
  flying = v.flying;
  resting = v.resting;
  in_multi = v.in_multi;
  owned = v.owned;
  single = v.single;
  balanced = v.balanced;
}

-- In every state that operations lead to, as long as curl_easy_init gives no handle that is in use
-- and fewer than 2 ^ 64 requests are started: the pool is within its cap; ids in flight are
-- positive and distinct; an idle node has no header list, body, buffer, handler or id of an old
-- request, and no hook has run on its handle since it was configured, which keeps the options of
-- old requests; a node in flight has its handler; the multi handle holds the easy handles in flight
-- and no other; and every easy handle made and not freed is in one node.
pub Reach-Inv : {cap : ℕ} {hs : List Handler} {c : Transfers} → Reach cap hs c → Inv c
Reach-Inv {cap} initial = init-Inv cap
Reach-Inv (started answer rc r h p new small) = start-Inv answer rc r h new small (Reach-Inv p)
Reach-Inv (cancelled id p) = cancel-Inv id (Reach-Inv p)
Reach-Inv (completed e code status p) = complete-Inv e code status (Reach-Inv p)
Reach-Inv (header_came e chunk n l p) = header_cb-Inv e chunk n l (Reach-Inv p)
Reach-Inv (body_came e chunk n l p) = body_write_cb-Inv e chunk n l (Reach-Inv p)
Reach-Inv (counted n p) = running-Inv n (Reach-Inv p)

handlers-init : (cap : ℕ) → handlers (init cap) ≡ []
unfolding init
handlers-init cap = refl

-- In every state that operations lead to, as long as curl_easy_init gives no handle that is in use
-- and fewer than 2 ^ 64 requests are started, each handler that was started is in one place: with
-- its transfer in flight, in one completion that is posted, or in one that is delivered. So no
-- handler is lost, none is called twice, and no empty handler is ever called.
pub Reach-handlers :
    {cap : ℕ} {hs : List Handler} {c : Transfers} → Reach cap hs c → Perm (handlers c) (map some hs)
Reach-handlers {cap} initial = rw handlers-init (Perm.refl _)
Reach-handlers (started {c} answer rc r h p new small) =
    Perm.trans (handlers-start answer rc r h c) (Perm.cons (some h) (Reach-handlers p))
Reach-handlers (cancelled id p) = Perm.trans (handlers-cancel id (Reach-Inv p)) (Reach-handlers p)
Reach-handlers (completed e code status p) =
    Perm.trans (handlers-complete e code status (Reach-Inv p)) (Reach-handlers p)
Reach-handlers (header_came {hs} {c} e chunk n l p) =
    subst (λ l'. Perm l' (map some hs)) (sym (handlers-header_cb e chunk n l c)) (Reach-handlers p)
Reach-handlers (body_came {hs} {c} e chunk n l p) =
    subst (λ l'. Perm l' (map some hs)) (sym (handlers-body_write_cb e chunk n l c))
      (Reach-handlers p)
Reach-handlers (counted n p) = Reach-handlers p
