-- ===== src/Transfers/Starts.antt =====
-- What `start` does, seen from outside: by the answers of libcurl, whether it takes the request.
use cofetch.Base.{
  ap, ◌∙◌, ℕ, ◌+◌, ◌-◌, ◌%◌, ◌≡◌, refl, List, [], ◌∷◌, Option, none, some, ◌==◌, ==_refl,
  if◌then◌else◌, arith, Bool-cases, inl, inr,
}
use cofetch.Request.{Request}
use cofetch.Transfers.Outcomes.{cancel-some}
use cofetch.Transfers.Operations.{
  cancel, cancel_found, find_id, curlm_ok, curle_failed_init, curle_out_of_memory,
  curlm_out_of_memory, fail, retire, remove_node, prepare, take_node, add_to_multi, start_on, start,
  make_error_code, empty_response, id_mod, put_back, new_node,
}
use cofetch.Transfers.{Transfer, Transfers, Handler, Completion, easy_init, curl}

-- The CURLcode for libcurl's answer to the handle.
abbrev refused : ℕ → Option ℕ
refused rc =
    if rc == curlm_ok
    then none
    else some (if rc == curlm_out_of_memory then curle_out_of_memory else curle_failed_init)

-- The CURLcode with which a request fails at once, by the idle nodes, the handle that libcurl makes
-- if there is none, and its answer to the handle.
abbrev pub refusal : List Transfer → Option ℕ → ℕ → Option ℕ
refusal [] none rc = some curle_failed_init
refusal [] (some e) rc = refused rc
refusal (t ∷ ts) init rc = refused rc

-- A failure with this code, and no data.
abbrev pub failure : Handler → ℕ → Completion
failure h code = record { handler = some h; error = curl code; response = empty_response code }

-- The transfers are as before, and a failure is posted behind what is posted already.
abbrev pub PostsOnly : Transfers → Handler → ℕ → Transfers → Type 0
PostsOnly c h code d =
    (d.transfers ≡ c.transfers)
    × (d.delivered ≡ c.delivered)
    × (d.posted ≡ failure h code ∷ c.posted)

-- A transfer more is in flight, with the request's body, its handler and a new id. libcurl has not
-- counted it yet.
abbrev pub Flies : Transfers → Request → Handler → Transfers → Type 0
Flies c r h d =
    ((t : Transfer) × (d.transfers ≡ t ∷ c.transfers)
      × (t.handler ≡ some h)
      × (t.body ≡ r.payload)
      × (t.id ≡ (c.next_transfer_id + 1) % id_mod))
    × (d.delivered ≡ c.delivered)
    × (d.posted ≡ c.posted)
    × (d.running ≡ c.running)

start_on-PostsOnly :
    (rc code : ℕ) (r : Request) (h : Handler) (t : Transfer) (c : Transfers)
    → refused rc ≡ some code
    → PostsOnly c h code (start_on rc r h (t, c))
unfolding start_on add_to_multi fail retire prepare make_error_code put_back remove_node
start_on-PostsOnly rc code r h t c e = ground (arith, ==_refl t.eh.handle)

start_on-Flies :
    (rc : ℕ) (r : Request) (h : Handler) (t : Transfer) (c : Transfers)
    → refused rc ≡ none
    → Flies c r h (start_on rc r h (t, c))
unfolding start_on add_to_multi prepare
start_on-Flies rc r h t c e = elim (Bool-cases (rc == curlm_ok)) [
  | inl hit ↦ rw hit (
    (prepare r h ((c.next_transfer_id + 1) % id_mod) t, refl, refl, refl, refl),
    refl,
    refl,
    refl,
  )
  | inr miss ↦ absurd (some_is_none (rw miss at e))
]
  where
    some_is_none : {n : ℕ} → ◌≡◌ {A = Option ℕ} (some n) none → ⊥
    some_is_none q = cc

start_idle-PostsOnly :
    (ts : List Transfer) (init : Option ℕ) (rc code : ℕ) (r : Request) (h : Handler) (c : Transfers)
    → c.idle ≡ ts
    → refusal ts init rc ≡ some code
    → PostsOnly c h code (start init rc r h c)
unfolding start take_node fail make_error_code
start_idle-PostsOnly [] none rc code r h c e f = rw (e, start) (ground arith)
start_idle-PostsOnly [] (some k) rc code r h c e f =
    rw (e, start)
      (start_on-PostsOnly rc code r h (new_node k)
        (record c { idle = []; calls = easy_init k ∷ c.calls }) f)
start_idle-PostsOnly (t ∷ ts) init rc code r h c e f =
    rw (e, start) (start_on-PostsOnly rc code r h t (record c { idle = ts }) f)

start_idle-Flies :
    (ts : List Transfer) (init : Option ℕ) (rc : ℕ) (r : Request) (h : Handler) (c : Transfers)
    → c.idle ≡ ts
    → refusal ts init rc ≡ none
    → Flies c r h (start init rc r h c)
unfolding start take_node
start_idle-Flies [] none rc r h c e f = cc
start_idle-Flies [] (some k) rc r h c e f =
    rw (e, start)
      (start_on-Flies rc r h (new_node k) (record c { idle = []; calls = easy_init k ∷ c.calls }) f)
start_idle-Flies (t ∷ ts) init rc r h c e f =
    rw (e, start) (start_on-Flies rc r h t (record c { idle = ts }) f)

-- A request for which libcurl makes no handle, or whose handle it does not take, leaves the transfers
-- in flight and the completions delivered as they are, and one failure is posted for its handler:
-- CURLE_OUT_OF_MEMORY if the multi handle has no memory, and CURLE_FAILED_INIT if not.
pub start_refused :
    (init : Option ℕ) (rc code : ℕ) (r : Request) (h : Handler) (c : Transfers)
    → refusal c.idle init rc ≡ some code
    → PostsOnly c h code (start init rc r h c)
start_refused init rc code r h c e = start_idle-PostsOnly c.idle init rc code r h c refl e

-- A request that libcurl takes is in flight with its body, its handler and the next id, in front of
-- the transfers that were in flight. Nothing is posted or delivered, and `running_` is not changed.
pub start_accepted :
    (init : Option ℕ) (rc : ℕ) (r : Request) (h : Handler) (c : Transfers)
    → refusal c.idle init rc ≡ none
    → Flies c r h (start init rc r h c)
start_accepted init rc r h c e = start_idle-Flies c.idle init rc r h c refl e

running-cancel_found : (t : Transfer) (c : Transfers) → (cancel_found t c).running ≡ c.running - 1
unfolding cancel_found retire put_back
running-cancel_found t c = ground arith

running-cancel :
    (id : ℕ) (t : Transfer) (ts : List Transfer) (c : Transfers)
    → c.transfers ≡ t ∷ ts
    → t.id ≡ id
    → (cancel id c).running ≡ c.running - 1
unfolding find_id
running-cancel id t ts c e same =
    ap (λ d. d.running) (cancel-some id c t (rw (e, same, ==_refl id))) ∙ running-cancel_found t c

-- pending_requests
unfoldable pub pending_requests : Transfers → ℕ
pending_requests c = c.running

-- A request that libcurl takes and that is cancelled at once, before libcurl counts it, lowers what
-- pending_requests() gives by one, unless it was 0.
pub cancel-start_accepted :
    (init : Option ℕ) (rc : ℕ) (r : Request) (h : Handler) (c : Transfers)
    → refusal c.idle init rc ≡ none
    → pending_requests (cancel ((c.next_transfer_id + 1) % id_mod) (start init rc r h c))
      ≡ pending_requests c - 1
unfolding pending_requests
cancel-start_accepted init rc r h c e =
    let ((t, front, _, _, same), _, _, counted) = start_accepted init rc r h c e in
    running-cancel ((c.next_transfer_id + 1) % id_mod) t c.transfers (start init rc r h c) front
      same
    ∙ ap (λ n. n - 1) counted
