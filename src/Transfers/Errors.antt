-- ===== src/Transfers/Errors.antt =====
-- The error codes of completions: curl_category, and how they go with their responses.
use cofetch.Base.{
  ℕ, ◌≡◌, refl, ap, Bool, true, false, not, List, ◌∷◌, Option, ◌==◌, arith, Bool-cases,
  Option-cases, inl, inr, All, ℤ,
}
use cofetch.Request.{Request}
use cofetch.Response
use cofetch.Response.{Bytes, Response, curle_ok}
use cofetch.Transfers.Nodes.{find_id-cases, find_handle-cases}
use cofetch.Transfers.Operations.{
  start, cancel, cancel_found, complete, complete_found, empty_response, curle_aborted_by_callback,
}
use cofetch.Transfers.Callbacks.{header_cb, body_write_cb}
use cofetch.Transfers.Completions.{cancel_found-lists, complete_found-lists}
use cofetch.Transfers.Outcomes.{completion_of, delivered-complete_found}
use cofetch.Transfers.Reach.{
  Reach, initial, started, cancelled, completed, header_came, body_came, counted, init,
}
use cofetch.Transfers.Starts.{refusal, failure, start_refused, start_accepted}
use cofetch.Transfers.{
  Transfer, Transfers, Handler, Completion, ErrorCode, success, curl, operation_aborted,
}

-- `explicit operator bool` of an error code: its value is not 0.
unfoldable pub truthy : ErrorCode → Bool
truthy success = false
truthy (curl code) = not (code == 0)
truthy operation_aborted = true

-- curl_category's message
unfoldable pub message : (ℕ → Bytes) → ℕ → Bytes
message curl_easy_strerror ev = curl_easy_strerror ev

-- The message of an error in curl_category is that of the response; asio has its own for
-- `operation_aborted`.
abbrev pub Explained : (ℕ → Bytes) → ErrorCode → Response → Type 0
Explained strerror success r = Unit
Explained strerror (curl code) r = message strerror code ≡ Response.error strerror r
Explained strerror operation_aborted r = Unit

-- The handler gets an error exactly when the response has a CURLcode other than CURLE_OK.
abbrev pub Told : (ℕ → Bytes) → Completion → Type 0
Told strerror p =
    (truthy p.error ≡ not (p.response.curl_code == curle_ok))
    × Explained strerror p.error p.response

-- All completions so far.
abbrev pub AllTold : (ℕ → Bytes) → Transfers → Type 0
AllTold strerror c = All (Told strerror) c.posted × All (Told strerror) c.delivered

posted-cancel_found :
    (t : Transfer) (c : Transfers)
    → (cancel_found t c).posted
      ≡ record {
        handler = t.handler;
        error = operation_aborted;
        response = empty_response curle_aborted_by_callback;
      }
        ∷ c.posted
unfolding cancel_found
posted-cancel_found t c = ground arith

module _ (strerror : ℕ → Bytes) where
  failure-Told : (h : Handler) (code : ℕ) → Told strerror (failure h code)
  unfolding truthy message Response.error
  failure-Told h code = (refl, refl)

  completion_of-Told :
      (code : ℕ) (status : ℤ) (t : Transfer) → Told strerror (completion_of code status t)
  unfolding truthy message Response.error
  completion_of-Told code status t = elim (Bool-cases (code == curle_ok)) [
    | inl fine ↦ rw fine (refl, tt)
    | inr wrong ↦ rw wrong (ap not wrong, refl)
  ]

  AllTold-lists :
      (d : Transfers) {ps ds : List Completion}
      → d.posted ≡ ps
      → d.delivered ≡ ds
      → All (Told strerror) ps × All (Told strerror) ds
      → AllTold strerror d
  AllTold-lists d p e told = rw (p, e) told

  complete-AllTold :
      (c : Transfers) (e code : ℕ) (status : ℤ)
      → AllTold strerror c
      → AllTold strerror (complete e code status c)
  unfolding complete
  complete-AllTold c e code status told = elim (find_handle-cases e c.transfers) [
    | inl (f, _) ↦ rw (f, complete) told
    | inr (t, f, _, _) ↦
        let (_, same, _) = complete_found-lists code status t c in
        rw (f, complete)
          (AllTold-lists (complete_found code status t c) same
            (delivered-complete_found code status t c)
            (told.0, (completion_of-Told code status t, told.1)))
  ]

  cancel_found-AllTold :
      (c : Transfers) (t : Transfer) → AllTold strerror c → AllTold strerror (cancel_found t c)
  unfolding truthy
  cancel_found-AllTold c t told =
      AllTold-lists (cancel_found t c) (posted-cancel_found t c) (cancel_found-lists t c).2
        (((refl, tt), told.0), told.1)

  cancel-AllTold : (c : Transfers) (id : ℕ) → AllTold strerror c → AllTold strerror (cancel id c)
  unfolding cancel
  cancel-AllTold c id told = elim (find_id-cases id c.transfers) [
    | inl f ↦ rw (f, cancel) told
    | inr (t, f, _, _) ↦ rw (f, cancel) (cancel_found-AllTold c t told)
  ]

  start-AllTold :
      (c : Transfers) (answer : Option ℕ) (rc : ℕ) (r : Request) (h : Handler)
      → AllTold strerror c
      → AllTold strerror (start answer rc r h c)
  start-AllTold c answer rc r h told = elim (Option-cases (refusal c.idle answer rc)) [
    | inl taken ↦
        let (_, same_d, same_p, _) = start_accepted answer rc r h c taken in
        rw (same_p, same_d) told
    | inr (code, refused) ↦
        let (_, same_d, more_p) = start_refused answer rc code r h c refused in
        rw (more_p, same_d) ((failure-Told h code, told.0), told.1)
  ]

  -- In every state that operations lead to, each completion, posted or called, has an error code that
  -- tests true exactly when its response has a CURLcode other than CURLE_OK, and whose message, if it
  -- is in curl_category, is what the response's `error()` gives.
  pub Reach-AllTold :
      {cap : ℕ} {hs : List Handler} {c : Transfers} → Reach cap hs c → AllTold strerror c
  unfolding init header_cb body_write_cb
  Reach-AllTold initial = (tt, tt)
  Reach-AllTold (started answer rc r h p _ _) = start-AllTold _ answer rc r h (Reach-AllTold p)
  Reach-AllTold (cancelled id p) = cancel-AllTold _ id (Reach-AllTold p)
  Reach-AllTold (completed e code status p) = complete-AllTold _ e code status (Reach-AllTold p)
  Reach-AllTold (header_came e chunk n l p) = Reach-AllTold p
  Reach-AllTold (body_came e chunk n l p) = Reach-AllTold p
  Reach-AllTold (counted n p) = Reach-AllTold p
