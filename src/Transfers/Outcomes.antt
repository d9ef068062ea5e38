-- ===== src/Transfers/Outcomes.antt =====
-- What a handler is called with, and what late or repeated calls do.
use mathlib.Core.Path.{subst}
use cofetch.Base.{
  ℕ, ◌*◌, ◌≡◌, refl, sym, ap, ◌∙◌, List, [], ◌∷◌, ◌++◌, Option, none, some, ◌==◌, if◌then◌else◌,
  arith, Bool-cases, inl, inr, length, take, take_all, All, append_assoc, append-nil, ℤ,
}
use cofetch.Response.{Bytes, curle_ok}
use cofetch.Transfers.Nodes.{Holds, find_id-cases, find_handle-cases, find_id-remove_node}
use cofetch.Transfers.Operations.{
  find_id, find_handle, cancel_found, cancel, complete_found, complete,
}
use cofetch.Transfers.Callbacks.{update_node, body_write_cb}
use cofetch.Transfers.Completions.{cancel_found-lists, complete_found-lists, count-single}
use cofetch.Transfers.Invariant.{Inv}
use cofetch.Transfers.{Transfer, Transfers, Completion, success, curl}

cancel-none : (id : ℕ) (c : Transfers) → find_id id c.transfers ≡ none → cancel id c ≡ c
unfolding cancel
cancel-none id c e = rw (e, cancel)

pub cancel-some :
    (id : ℕ) (c : Transfers) (t : Transfer)
    → find_id id c.transfers ≡ some t
    → cancel id c ≡ cancel_found t c
unfolding cancel
cancel-some id c t e = rw (e, cancel)

complete-some :
    (e code : ℕ) (status : ℤ) (c : Transfers) (t : Transfer)
    → find_handle e c.transfers ≡ some t
    → complete e code status c ≡ complete_found code status t c
unfolding complete
complete-some e code status c t f = rw (f, complete)

-- In a state that keeps the invariant, a second cancellation of the same id does nothing.
pub cancel_twice : {c : Transfers} (id : ℕ) → Inv c → cancel id (cancel id c) ≡ cancel id c
cancel_twice {c} id v = elim (find_id-cases id c.transfers) [
  | inl e ↦ ap (cancel id) (cancel-none id c e)
  | inr (t, e, h, same) ↦
      let p = cancel-some id c t e in
      let gone = find_id-remove_node c.next_transfer_id v.falling h (count-single t.eh.handle v) in
      ap (cancel id) p
      ∙ cancel-none id (cancel_found t c) (rw ((cancel_found-lists t c).0, ← same) gone)
      ∙ sym p
]

-- In a state that keeps the invariant, a cancellation that comes when the transfer is done does
-- nothing.
pub cancel-complete :
    {c : Transfers} (e code : ℕ) (status : ℤ) (t : Transfer)
    → Inv c
    → find_handle e c.transfers ≡ some t
    → cancel t.id (complete e code status c) ≡ complete e code status c
cancel-complete {c} e code status t v found = elim (find_handle-cases e c.transfers) [
  | inl (f, _) ↦ absurd (none_is_some (sym f ∙ found))
  | inr (u, f, h, _) ↦
      let p = complete-some e code status c t found in
      let u' : u ≡ t = cc in
      let gone =
        find_id-remove_node c.next_transfer_id v.falling (subst (λ w. Holds w c.transfers) u' h)
          (count-single t.eh.handle v) in
      ap (cancel t.id) p
      ∙ cancel-none t.id (complete_found code status t c)
          (rw (complete_found-lists code status t c).0 gone)
      ∙ sym p
]
  where
    none_is_some : ◌≡◌ {A = Option Transfer} none (some t) → ⊥
    none_is_some q = cc

-- A piece of data that libcurl delivers: `n * l` bytes.
pub record Piece : Type 0 where
  pub n : ℕ
  pub l : ℕ
  pub chunk : Bytes

abbrev pub IsFull : Piece → Type 0
IsFull p = length p.chunk ≡ p.n * p.l

abbrev pub receive_body : ℕ → List Piece → Transfers → Transfers
receive_body e [] c = c
receive_body e (p ∷ ps) c = receive_body e ps (body_write_cb e p.chunk p.n p.l c).1

abbrev pub chunks : List Piece → Bytes
chunks [] = []
chunks (p ∷ ps) = p.chunk ++ chunks ps

find_handle-update_node :
    (e : ℕ) (f : Transfer → Transfer) (ts : List Transfer) (t : Transfer)
    → ((u : Transfer) → (f u).eh.handle ≡ u.eh.handle)
    → find_handle e ts ≡ some t
    → find_handle e (update_node e f ts) ≡ some (f t)
unfolding find_handle update_node
find_handle-update_node e f [] t k h = cc
find_handle-update_node e f (u ∷ ts) t k h = elim (Bool-cases (u.eh.handle == e)) [
  | inl hit ↦ ground (arith, k u)
  | inr miss ↦ rw miss (rw miss (find_handle-update_node e f ts t k (rw miss at h)))
]

find_handle-receive_body :
    (e : ℕ) (ps : List Piece) (c : Transfers) (t : Transfer)
    → All IsFull ps
    → find_handle e c.transfers ≡ some t
    → (find_handle e (receive_body e ps c).transfers
        ≡ some (record t { buffer = t.buffer ++ chunks ps }))
      × ((receive_body e ps c).delivered ≡ c.delivered)
unfolding body_write_cb
find_handle-receive_body e [] c t full h = (rw append-nil h, refl)
find_handle-receive_body e (p ∷ ps) c t full h =
    let whole : take (p.n * p.l) p.chunk ≡ p.chunk =
      take_all (p.n * p.l) p.chunk (omega (arith, full.0)) in
    let found =
      find_handle-update_node e (λ u. record u { buffer = u.buffer ++ take (p.n * p.l) p.chunk })
        c.transfers t (λ u. refl) h in
    let (later, same) =
      find_handle-receive_body e ps (body_write_cb e p.chunk p.n p.l c).1
        (record t { buffer = t.buffer ++ take (p.n * p.l) p.chunk }) full.1 found in
    (
      later
          ∙ ap (λ b. some (record t { buffer = b }))
              (rw whole (append_assoc t.buffer p.chunk (chunks ps))),
      same,
    )

-- What a round of check_completions calls the handler with.
abbrev pub completion_of : ℕ → ℤ → Transfer → Completion
completion_of code status t = record {
  handler = t.handler;
  error = if code == curle_ok then success else curl code;
  response = record {
    curl_code = code;
    http_code = status;
    body = t.buffer;
    header_data = t.header_buffer;
  };
}

pub delivered-complete_found :
    (code : ℕ) (status : ℤ) (t : Transfer) (c : Transfers)
    → (complete_found code status t c).delivered ≡ completion_of code status t ∷ c.delivered
unfolding complete_found
delivered-complete_found code status t c = ground arith

-- When libcurl delivers the body of a transfer in flight in pieces of as many bytes as it says and
-- then reports the transfer done, its handler is called with these bytes in the order in which
-- they came, behind those in the buffer, with the header data, the CURLcode and the HTTP status
-- that libcurl has, also if the transfer failed, and with an error code that is empty exactly when
-- the CURLcode is CURLE_OK.
pub complete-receive_body :
    (e code : ℕ) (status : ℤ) (ps : List Piece) (c : Transfers) (t : Transfer)
    → All IsFull ps
    → find_handle e c.transfers ≡ some t
    → (complete e code status (receive_body e ps c)).delivered
      ≡ record {
        handler = t.handler;
        error = if code == curle_ok then success else curl code;
        response = record {
          curl_code = code;
          http_code = status;
          body = t.buffer ++ chunks ps;
          header_data = t.header_buffer;
        };
      }
        ∷ c.delivered
complete-receive_body e code status ps c t full h =
    let (found, same) = find_handle-receive_body e ps c t full h in
    ap (λ d. d.delivered) (complete-some e code status (receive_body e ps c) _ found)
    ∙ delivered-complete_found code status _ (receive_body e ps c)
    ∙ ap (◌∷◌ (completion_of code status (record t { buffer = t.buffer ++ chunks ps }))) same
