-- ===== src/Baseline/Lifetime.antt =====
-- The constructor and the destructor of class Http in bench/baseline/http_epoll.h, and how many requests
-- its pool of easy handles allows.
use cofetch.Base.{
  ℕ, zero, suc, ◌-◌, ◌≡◌, refl, ap, ◌∙◌, List, [], ◌∷◌, arith, ltb, if◌then◌else◌, Bool-cases, inl,
  inr,
}
use cofetch.Baseline.Kept.{in_use, send-Same}
use cofetch.Baseline.Requests.{
  Requests, request, request_from, prepare, init, CurlCall, writes, writes_header, watches,
  curl_call, curl_calls, write_fn, write_header_fn, update_info, HttpCall, add_handle,
  socket_action, timeout_action, Answer, action, each_event, Ready, wait_failed, no_event, events,
  process_events, submit, send, get,
}
use cofetch.Response.{Bytes}

-- What the two ask of libcurl beside the easy handles.
pub data GlobalCall : Type 0 where
  global_init multi_init multi_cleanup global_cleanup : GlobalCall
  socket_function socket_data : GlobalCall
  pipelining : ℕ → GlobalCall

-- A client with these calls, newest first.
pub record Built : Type 0 where
  pub requests : Requests
  pub global_calls : List GlobalCall

-- HTTP_POOL
abbrev pub http_pool : ℕ
http_pool = 128

-- The loop of the constructor, where `made` is what `curl_easy_init` gives; the back is first.
unfoldable pub fill : (ℕ → ℕ) → ℕ → List ℕ
fill made zero = []
fill made (suc n) = made n ∷ fill made n

-- Http()
unfoldable pub construct : (ℕ → ℕ) → Built
unfolding init fill
construct made = record {
  requests = init (fill made http_pool);
  global_calls = socket_data ∷ socket_function ∷ pipelining 0 ∷ multi_init ∷ global_init ∷ [];
}

-- ~Http(). The easy handles stay as they are.
unfoldable pub destroy : Built → Built
destroy o = record o { global_calls = global_cleanup ∷ multi_cleanup ∷ o.global_calls }

unfoldable pub pending_requests : Requests → ℕ
pending_requests http = http.handle_count

-- The handle that request takes.
abbrev pub handle_for : List ℕ → ℕ → ℕ
handle_for [] fresh = fresh
handle_for (eh ∷ pool) fresh = eh

-- n requests more, each sent by get() and none over yet. For the request i, `fresh i` is what
-- `curl_easy_init` gives if it is asked, and `answers i` and `readies i` is what libcurl and the epoll
-- instance do in submit.
abbrev pub request_many : (ℕ → ℕ) → (ℕ → Answer) → (ℕ → Ready) → Bytes → ℕ → Requests → Requests
unfolding request send
request_many fresh answers readies url zero http = http
request_many fresh answers readies url (suc n) http =
    let before = request_many fresh answers readies url n http in
    send get (handle_for before.eh_pool (fresh n)) (answers n) (readies n)
      (request (fresh n) url n 0 before)

-- The handles that were added to the multi handle, the newest first.
abbrev pub added : List HttpCall → List ℕ
added [] = []
added (add_handle e ∷ cs) = e ∷ added cs
added (_ ∷ cs) = added cs

calls-curl_calls : (ks : List CurlCall) (http : Requests) → (curl_calls ks http).calls ≡ http.calls
unfolding curl_calls curl_call write_fn write_header_fn update_info
calls-curl_calls [] http = refl
calls-curl_calls (writes e chunk n l ∷ ks) http = calls-curl_calls ks _
calls-curl_calls (writes_header e chunk n l ∷ ks) http = calls-curl_calls ks _
calls-curl_calls (watches s epe ∷ ks) http = calls-curl_calls ks _

added-each_event :
    (ready : List (ℕ × Answer)) (http : Requests)
    → added (each_event ready http).calls ≡ added http.calls
unfolding each_event action
added-each_event [] http = refl
added-each_event ((fd, a) ∷ ready) http =
    added-each_event ready (action (socket_action fd) a http)
    ∙ ap added
        (calls-curl_calls a.callbacks (record http { calls = socket_action fd ∷ http.calls }))

added-process_events :
    (ready : Ready) (http : Requests) → added (process_events ready http).calls ≡ added http.calls
unfolding process_events action
added-process_events wait_failed http = refl
added-process_events (no_event a) http =
    ap added (calls-curl_calls a.callbacks (record http { calls = timeout_action ∷ http.calls }))
added-process_events (events e ready) http = added-each_event (e ∷ ready) http

added-send :
    (e : ℕ) (a : Answer) (ready : Ready) (http : Requests)
    → added (send get e a ready http).calls ≡ e ∷ added http.calls
unfolding send submit action
added-send e a ready http = added-process_events ready _ ∙ ap added (calls-curl_calls a.callbacks _)

-- The handles of n requests, the newest first: those of the pool from its back, and then new ones.
abbrev pub handed : (ℕ → ℕ) → (ℕ → ℕ) → ℕ → List ℕ
handed made fresh zero = []
handed made fresh (suc i) =
    (if ltb i http_pool then made (http_pool - 1 - i) else fresh i) ∷ handed made fresh i

-- The first handles that the constructor made, the last one first.
abbrev pub unused : (ℕ → ℕ) → ℕ → List ℕ
unused made zero = []
unused made (suc n) = made n ∷ unused made n

fill-unused : (made : ℕ → ℕ) (n : ℕ) → fill made n ≡ unused made n
unfolding fill
fill-unused made zero = refl
fill-unused made (suc n) = ap (◌∷◌ (made n)) (fill-unused made n)

-- The requests in flight have these handles, which were added, and the pool has these.
record Holds (used pool : List ℕ) (http : Requests) : Type 0 where
  used_here : in_use http.request_infos ≡ used
  pool_here : http.eh_pool ≡ pool
  added_here : added http.calls ≡ used

abbrev rest : List ℕ → List ℕ
rest [] = []
rest (eh ∷ pool) = pool

request_from-lem :
    (pool : List ℕ) (fresh : ℕ) (url : Bytes) (fn : ℕ) (http : Requests)
    → http.eh_pool ≡ pool
    → (in_use (request_from pool fresh url fn 0 http).request_infos
        ≡ handle_for pool fresh ∷ in_use http.request_infos)
      × ((request_from pool fresh url fn 0 http).eh_pool ≡ rest pool)
      × (added (request_from pool fresh url fn 0 http).calls ≡ added http.calls)
unfolding request_from prepare
request_from-lem [] fresh url fn http e = (refl, e, refl)
request_from-lem (k ∷ pool) fresh url fn http e = (refl, refl, refl)

-- One request more.
request-Holds :
    (used pool : List ℕ) (fresh : ℕ) (a : Answer) (ready : Ready) (url : Bytes) (fn : ℕ)
    (http : Requests)
    → Holds used pool http
    → Holds
        (handle_for pool fresh ∷ used)
        (rest pool)
        (send get (handle_for http.eh_pool fresh) a ready (request fresh url fn 0 http))
unfolding request
request-Holds used pool fresh a ready url fn http h =
    let eh = handle_for http.eh_pool fresh in
    let asked = request_from http.eh_pool fresh url fn 0 http in
    let (infos, left, calls) = request_from-lem http.eh_pool fresh url fn http refl in
    let same = send-Same get eh a ready asked in
    let taken : eh ≡ handle_for pool fresh = ap (λ q. handle_for q fresh) h.pool_here in
    record {
      used_here = same.in_use_same ∙ infos ∙ ap (◌∷◌ eh) h.used_here ∙ ap (λ k. k ∷ used) taken;
      pool_here = same.pool_same ∙ left ∙ ap rest h.pool_here;
      added_here =
          added-send eh a ready asked
          ∙ ap (◌∷◌ eh) (calls ∙ h.added_here)
          ∙ ap (λ k. k ∷ used) taken;
    }

request_many-Holds :
    (made fresh : ℕ → ℕ) (answers : ℕ → Answer) (readies : ℕ → Ready) (url : Bytes) (n : ℕ)
    → Holds
        (handed made fresh n)
        (fill made (http_pool - n))
        (request_many fresh answers readies url n (construct made).requests)
unfolding request_many construct init fill
request_many-Holds made fresh answers readies url zero = record {
  used_here = refl;
  pool_here = ap (fill made) no_fewer;
  added_here = refl;
}
  where
    no_fewer : http_pool ≡ http_pool - 0
    no_fewer = omega arith
request_many-Holds made fresh answers readies url (suc n) =
    let before = request_many fresh answers readies url n (construct made).requests in
    let so_far = request_many-Holds made fresh answers readies url n in
    elim (Bool-cases (ltb n http_pool)) [
      | inl more ↦
          let left = http_pool - 1 - n in
          let now : http_pool - n ≡ suc left = ground arith in
          let later : http_pool - suc n ≡ left = omega arith in
          rw (more, later)
            (request-Holds (handed made fresh n) (made left ∷ fill made left) (fresh n) (answers n)
              (readies n) url n before (rw now at so_far))
      | inr none_left ↦
          let now : http_pool - n ≡ 0 = ground arith in
          let later : http_pool - suc n ≡ 0 = omega arith in
          rw (none_left, later)
            (request-Holds (handed made fresh n) [] (fresh n) (answers n) (readies n) url n before
              (rw now at so_far))
    ]

-- However many requests are sent on a new client before any is over, each is in flight: its handle was
-- added to the multi handle. The first 128 have the handles that the constructor made, the last one
-- first, and each of those behind them has a new one. The pool has the handles that are left, and does
-- not bound how many requests are in flight.
pub request_many-uncapped :
    (made fresh : ℕ → ℕ) (answers : ℕ → Answer) (readies : ℕ → Ready) (url : Bytes) (n : ℕ)
    → let http = request_many fresh answers readies url n (construct made).requests in
      (in_use http.request_infos ≡ handed made fresh n)
      × (http.eh_pool ≡ unused made (http_pool - n))
      × (added http.calls ≡ handed made fresh n)
request_many-uncapped made fresh answers readies url n =
    let h = request_many-Holds made fresh answers readies url n in
    (h.used_here, h.pool_here ∙ fill-unused made (http_pool - n), h.added_here)
