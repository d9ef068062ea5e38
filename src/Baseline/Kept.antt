-- ===== src/Baseline/Kept.antt =====
-- The epoll client's requests with their callbacks and handles, through a call of the client.
use mathlib.Core.List.{perm_middle, Nodup, Nodup-cons}
use mathlib.Core.List.Perm
use mathlib.Core.Path.{subst}
use cofetch.Base.{
  ℕ, ◌≡◌, refl, ◌∙◌, List, [], ◌∷◌, ◌++◌, map, Option, none, some, if◌then◌else◌, ◌==◌, arith,
  Bool-cases, inl, inr, Perm, Mem,
}
use cofetch.Baseline.Polls.{
  UserCall, asks, sets_headers, sets_body, enables_headers, sends, user_call,
}
use cofetch.Baseline.Requests.{
  RequestInfo, ResponseInfo, Requests, prepare, request_from, request, update_info, update,
  set_headers, set_body, enable_response_headers, write_fn, write_header_fn, CurlCall, writes,
  writes_header, watches, curl_call, curl_calls, Answer, HttpCall, action, each_event, Ready,
  wait_failed, no_event, events, process_events, submit, send, Verb, timeout_action,
}

-- A callback and its custom data.
abbrev pub target : RequestInfo → ℕ × ℕ
target i = (i.callback, i.custom_data)

abbrev pub waiting : List RequestInfo → List (ℕ × ℕ)
waiting = map target

abbrev pub in_use : List RequestInfo → List ℕ
in_use = map λ i. i.eh

abbrev pub answered : List ResponseInfo → List (ℕ × ℕ)
answered = map λ r. (r.callback, r.custom_data)

-- The callbacks of the requests that are not done, and of those called.
abbrev pub callbacks : Requests → List (ℕ × ℕ)
callbacks http = waiting http.request_infos ++ answered http.called

-- The easy handles in the pool and in use.
abbrev pub easy_handles : Requests → List ℕ
easy_handles http = in_use http.request_infos ++ http.eh_pool

-- What the request with this handle was given.
abbrev pub found : ℕ → List RequestInfo → Option (ℕ × ℕ)
found e [] = none
found e (i ∷ is) = if i.eh == e then some (target i) else found e is

-- What is kept of the callbacks and of the handles. No two handles are the same.
pub record Keeps (made : List ℕ) (fns : List (ℕ × ℕ)) (http : Requests) : Type 0 where
  pub callbacks_kept : Perm (callbacks http) fns
  pub handles_kept : Perm (easy_handles http) made
  pub distinct : Nodup made

-- The callbacks that are waiting, those called, and the handles are as before.
pub record Same (http http' : Requests) : Type 0 where
  pub waiting_same : waiting http'.request_infos ≡ waiting http.request_infos
  pub in_use_same : in_use http'.request_infos ≡ in_use http.request_infos
  pub pool_same : http'.eh_pool ≡ http.eh_pool
  pub called_same : http'.called ≡ http.called
  pub found_same : (e : ℕ) → found e http'.request_infos ≡ found e http.request_infos

pub Same-refl : (http : Requests) → Same http http
Same-refl http = record {
  waiting_same = refl;
  in_use_same = refl;
  pool_same = refl;
  called_same = refl;
  found_same = λ e. refl;
}

pub Same-trans : {a b c : Requests} → Same a b → Same b c → Same a c
Same-trans x y = record {
  waiting_same = y.waiting_same ∙ x.waiting_same;
  in_use_same = y.in_use_same ∙ x.in_use_same;
  pool_same = y.pool_same ∙ x.pool_same;
  called_same = y.called_same ∙ x.called_same;
  found_same = λ e. y.found_same e ∙ x.found_same e;
}

-- Only these three members matter.
like_before :
    {http b c : Requests}
    → c.request_infos ≡ b.request_infos
    → c.eh_pool ≡ b.eh_pool
    → c.called ≡ b.called
    → Same http b
    → Same http c
like_before infos pool called s = record {
  waiting_same = rw infos s.waiting_same;
  in_use_same = rw infos s.in_use_same;
  pool_same = pool ∙ s.pool_same;
  called_same = called ∙ s.called_same;
  found_same = λ e. rw infos (s.found_same e);
}

pub Same-Keeps :
    {made : List ℕ} {fns : List (ℕ × ℕ)} {http http' : Requests}
    → Same http http'
    → Keeps made fns http
    → Keeps made fns http'
Same-Keeps s k = record {
  callbacks_kept = rw (s.waiting_same, s.called_same) k.callbacks_kept;
  handles_kept = rw (s.in_use_same, s.pool_same) k.handles_kept;
  distinct = k.distinct;
}

map-update_info :
    {B : Type 0} (f : RequestInfo → B) (e : ℕ) (g : RequestInfo → RequestInfo)
    (is : List RequestInfo)
    → ((i : RequestInfo) → f (g i) ≡ f i)
    → map f (update_info e g is) ≡ map f is
unfolding update_info
map-update_info f e g [] k = refl
map-update_info f e g (i ∷ is) k = ground (arith, k i, map-update_info f e g is k)

found-update_info :
    (k e : ℕ) (g : RequestInfo → RequestInfo) (is : List RequestInfo)
    → ((i : RequestInfo) → target (g i) ≡ target i)
    → ((i : RequestInfo) → (g i).eh ≡ i.eh)
    → found k (update_info e g is) ≡ found k is
unfolding update_info
found-update_info k e g [] c h = refl
found-update_info k e g (i ∷ is) c h = elim (Bool-cases (i.eh == e)) [
  | inl hit ↦ rw (hit, h i, c i) refl
  | inr miss ↦ rw (miss, found-update_info k e g is c h) refl
]

pub update-Same :
    (e : ℕ) (g : RequestInfo → RequestInfo) (http : Requests)
    → ((i : RequestInfo) → target (g i) ≡ target i)
    → ((i : RequestInfo) → (g i).eh ≡ i.eh)
    → Same http (update e g http)
unfolding update_info
update-Same e g http c h = record {
  waiting_same = map-update_info target e g http.request_infos c;
  in_use_same = map-update_info (λ j. j.eh) e g http.request_infos h;
  pool_same = refl;
  called_same = refl;
  found_same = λ k. found-update_info k e g http.request_infos c h;
}

curl_calls-Same : (ks : List CurlCall) (http : Requests) → Same http (curl_calls ks http)
unfolding curl_calls curl_call write_fn write_header_fn
curl_calls-Same [] http = Same-refl http
curl_calls-Same (writes e chunk n l ∷ ks) http =
    Same-trans (update-Same e _ http (λ i. refl) (λ i. refl)) (curl_calls-Same ks _)
curl_calls-Same (writes_header e chunk n l ∷ ks) http =
    Same-trans (update-Same e _ http (λ i. refl) (λ i. refl)) (curl_calls-Same ks _)
curl_calls-Same (watches s epe ∷ ks) http =
    Same-trans (like_before refl refl refl (Same-refl http)) (curl_calls-Same ks _)

action-Same : (k : HttpCall) (a : Answer) (http : Requests) → Same http (action k a http)
unfolding action
action-Same k a http =
    like_before refl refl refl
      (Same-trans (like_before refl refl refl (Same-refl http)) (curl_calls-Same a.callbacks _))

each_event-Same : (ready : List (ℕ × Answer)) (http : Requests) → Same http (each_event ready http)
unfolding each_event
each_event-Same [] http = Same-refl http
each_event-Same ((fd, a) ∷ ready) http = Same-trans (action-Same _ a http) (each_event-Same ready _)

pub process_events-Same : (ready : Ready) (http : Requests) → Same http (process_events ready http)
unfolding process_events
process_events-Same wait_failed http = Same-refl http
process_events-Same (no_event a) http = action-Same _ a http
process_events-Same (events e ready) http = each_event-Same (e ∷ ready) http

-- What libcurl has made, with the handle that a request makes when the pool is empty.
abbrev makes : List ℕ → ℕ → List ℕ → List ℕ
makes [] fresh made = fresh ∷ made
makes (eh ∷ pool) fresh made = made

abbrev pub made_by : UserCall → Requests → List ℕ → List ℕ
made_by (asks fresh u fn data_ptr) http made = makes http.eh_pool fresh made
made_by _ http made = made

abbrev pub fns_by : UserCall → List (ℕ × ℕ) → List (ℕ × ℕ)
fns_by (asks fresh u fn data_ptr) fns = (fn, data_ptr) ∷ fns
fns_by _ fns = fns

-- What `curl_easy_init` would give is no handle made before.
abbrev pub Fresh : UserCall → List ℕ → Type 0
Fresh (asks fresh u fn data_ptr) made = ¬ (Mem fresh made)
Fresh _ made = Unit {0}

request_from-Keeps :
    {made : List ℕ} {fns : List (ℕ × ℕ)} {http : Requests} (ehs : List ℕ) (fresh : ℕ) (u : List ℕ)
    (fn d : ℕ)
    → ¬ (Mem fresh made)
    → http.eh_pool ≡ ehs
    → Keeps made fns http
    → Keeps (makes ehs fresh made) ((fn, d) ∷ fns) (request_from ehs fresh u fn d http)
unfolding request_from prepare
request_from-Keeps {made} {fns} {http} [] fresh u fn d new e k = record {
  callbacks_kept = Perm.cons (fn, d) k.callbacks_kept;
  handles_kept = Perm.cons fresh k.handles_kept;
  distinct = Nodup-cons.1 (new, k.distinct);
}
request_from-Keeps {made} {fns} {http} (eh ∷ ehs) fresh u fn d new e k = record {
  callbacks_kept = Perm.cons (fn, d) k.callbacks_kept;
  handles_kept =
      Perm.trans (Perm.symm (perm_middle (in_use http.request_infos) ehs))
        (subst (λ p. Perm (in_use http.request_infos ++ p) made) e k.handles_kept);
  distinct = k.distinct;
}

pub set_headers-Same :
    (e : ℕ) (headers : List (List ℕ)) (http : Requests) → Same http (set_headers e headers http)
unfolding set_headers
set_headers-Same e headers http =
    like_before refl refl refl (update-Same e _ http (λ i. refl) (λ i. refl))

pub set_body-Same : (e : ℕ) (fields : List ℕ) (http : Requests) → Same http (set_body e fields http)
unfolding set_body
set_body-Same e fields http =
    like_before refl refl refl (update-Same e _ http (λ i. refl) (λ i. refl))

pub send-Same :
    (v : Verb) (e : ℕ) (a : Answer) (ready : Ready) (http : Requests)
    → Same http (send v e a ready http)
unfolding send submit
send-Same v e a ready http =
    Same-trans
      (Same-trans (like_before refl refl refl (Same-refl http)) (action-Same timeout_action a _))
      (process_events-Same ready _)

pub user_call-Keeps :
    {made : List ℕ} {fns : List (ℕ × ℕ)} {http : Requests} (u : UserCall)
    → Fresh u made
    → Keeps made fns http
    → Keeps (made_by u http made) (fns_by u fns) (user_call u http)
unfolding user_call request enable_response_headers
user_call-Keeps {http} (asks fresh u fn d) new k =
    request_from-Keeps http.eh_pool fresh u fn d new refl k
user_call-Keeps {http} (sets_headers e headers) new k =
    Same-Keeps (set_headers-Same e headers http) k
user_call-Keeps {http} (sets_body e fields) new k = Same-Keeps (set_body-Same e fields http) k
user_call-Keeps {http} (enables_headers e) new k =
    Same-Keeps (like_before refl refl refl (Same-refl http)) k
user_call-Keeps {http} (sends v e a ready) new k = Same-Keeps (send-Same v e a ready http) k
