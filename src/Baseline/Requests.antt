-- ===== src/Baseline/Requests.antt =====
-- Http::request, the builder Http::Request, submit and process_events of bench/baseline/http_epoll.h,
-- with the pool of easy handles.
use cofetch.Base.{
  Bool, ◌&&◌, leb_ℤ, ltb_ℤ, pos, ℕ, ◌*◌, List, [], ◌∷◌, ◌++◌, Option, none, ◌==◌, if◌then◌else◌,
  take, length, ℤ,
}
use cofetch.Baseline
use cofetch.Baseline.{Http, socket_fn}
use cofetch.Response.{Bytes, curle_ok}
use cofetch.Transfers.Handle.{slist, put_word, delete_word}

-- A transfer's ResponseInfo, with the callback that gets it.
pub record ResponseInfo : Type 0 where
  pub callback : ℕ
  pub curl_code : ℕ
  pub http_code : ℤ
  pub body : Bytes
  pub header_data : Bytes
  pub custom_data : ℕ

unfoldable pub is_ok : ResponseInfo → Bool
is_ok r = r.curl_code == curle_ok && leb_ℤ (pos 200) r.http_code && ltb_ℤ r.http_code (pos 300)

-- A callback is a name, and so is what `custom_data` points to.
pub record RequestInfo : Type 0 where
  pub eh : ℕ
  pub header_ptr : Option (List Bytes)
  pub buffer : Bytes
  pub header_buffer : Bytes
  pub body : Bytes
  pub callback : ℕ
  pub custom_data : ℕ

-- The options that the client sets on an easy handle. `write_data`, `header_data` and `private_data`
-- are of the handle's own request.
pub data EasyOption : Type 0 where
  write_data write_function header_data header_function private_data : EasyOption
  url : Bytes → EasyOption
  timeout : ℕ → EasyOption
  no_signal : ℕ → EasyOption
  max_lifetime_conn : ℕ → EasyOption
  post_fields : Bytes → EasyOption
  post_field_size : ℕ → EasyOption
  http_header : Option (List Bytes) → EasyOption
  http_get : ℕ → EasyOption
  http_post : ℕ → EasyOption
  custom_request : Bytes → EasyOption

-- Calls to libcurl; `timeout_action` is curl_multi_socket_action with CURL_SOCKET_TIMEOUT.
pub data HttpCall : Type 0 where
  add_handle : ℕ → HttpCall
  remove_handle : ℕ → HttpCall
  slist_free : Option (List Bytes) → HttpCall
  timeout_action : HttpCall
  socket_action : ℕ → HttpCall

-- The members of Http, the back of `eh_pool_` first, and the options of the easy handles, in the order
-- in which they were set. `called` are the callbacks called, and these and the calls are newest first.
pub record Requests : Type 0 where
  pub eh_pool : List ℕ
  pub request_infos : List RequestInfo
  pub called : List ResponseInfo
  pub options : ℕ → List EasyOption
  pub sockets : Http
  pub handle_count : ℕ
  pub calls : List HttpCall

-- RequestInfo(eh, callback, custom_data)
abbrev pub new_info : ℕ → ℕ → ℕ → RequestInfo
new_info eh fn data_ptr = record {
  eh = eh;
  header_ptr = none;
  buffer = [];
  header_buffer = [];
  body = [];
  callback = fn;
  custom_data = data_ptr;
}

abbrev pub write_options : ℕ → List EasyOption → (ℕ → List EasyOption) → ℕ → List EasyOption
write_options e os f k = if k == e then os else f k

-- `curl_easy_setopt`
abbrev pub setopt : ℕ → List EasyOption → Requests → Requests
setopt e os http = record http { options = write_options e (http.options e ++ os) http.options }

-- A handle that is new or reset has no options.
abbrev pub blank : ℕ → Requests → Requests
blank e http = record http { options = write_options e [] http.options }

unfoldable pub request_options : Bytes → List EasyOption
request_options u =
    write_data
    ∷ write_function
    ∷ url u
    ∷ private_data
    ∷ timeout 5
    ∷ no_signal 1
    ∷ max_lifetime_conn 30
    ∷ post_fields []
    ∷ []

-- request on the handle that it has got
unfoldable pub prepare : ℕ → Bytes → ℕ → ℕ → Requests → Requests
unfolding request_options
prepare eh u fn data_ptr http =
    setopt eh (request_options u)
      (record (blank eh http) { request_infos = new_info eh fn data_ptr ∷ http.request_infos })

-- request, where `fresh` is what `curl_easy_init` gives when the pool is empty.
unfoldable pub request_from : List ℕ → ℕ → Bytes → ℕ → ℕ → Requests → Requests
unfolding prepare
request_from [] fresh u fn data_ptr http = prepare fresh u fn data_ptr http
request_from (eh ∷ pool) fresh u fn data_ptr http =
    prepare eh u fn data_ptr (record http { eh_pool = pool })

unfoldable pub request : ℕ → Bytes → ℕ → ℕ → Requests → Requests
unfolding request_from
request fresh u fn data_ptr http = request_from http.eh_pool fresh u fn data_ptr http

unfoldable pub update_info : ℕ → (RequestInfo → RequestInfo) → List RequestInfo → List RequestInfo
update_info e f [] = []
update_info e f (i ∷ is) = if i.eh == e then f i ∷ is else i ∷ update_info e f is

abbrev pub update : ℕ → (RequestInfo → RequestInfo) → Requests → Requests
unfolding update_info
update e f http = record http { request_infos = update_info e f http.request_infos }

-- set_headers. The list that was there is not freed.
unfoldable pub set_headers : ℕ → List Bytes → Requests → Requests
unfolding slist update_info
set_headers e headers http =
    update e (λ i. record i { header_ptr = slist headers })
      (setopt e (http_header (slist headers) ∷ []) http)

unfoldable pub set_body : ℕ → Bytes → Requests → Requests
unfolding update_info
set_body e fields http =
    setopt e (post_field_size (length fields) ∷ post_fields fields ∷ [])
      (update e (λ i. record i { body = fields }) http)

unfoldable pub enable_response_headers : ℕ → Requests → Requests
enable_response_headers e http = setopt e (header_data ∷ header_function ∷ []) http

-- write_fn on the body's buffer of this handle's request: the count that it returns, and the state.
unfoldable pub write_fn : ℕ → Bytes → ℕ → ℕ → Requests → ℕ × Requests
unfolding update_info
write_fn e chunk n l http =
    (n * l, update e (λ i. record i { buffer = i.buffer ++ take (n * l) chunk }) http)

-- write_fn on the buffer for the headers
unfoldable pub write_header_fn : ℕ → Bytes → ℕ → ℕ → Requests → ℕ × Requests
unfolding update_info
write_header_fn e chunk n l http =
    (n * l, update e (λ i. record i { header_buffer = i.header_buffer ++ take (n * l) chunk }) http)

-- What libcurl calls while it is called.
pub data CurlCall : Type 0 where
  writes : ℕ → Bytes → ℕ → ℕ → CurlCall
  writes_header : ℕ → Bytes → ℕ → ℕ → CurlCall
  watches : ℕ → ℕ → CurlCall

unfoldable pub curl_call : CurlCall → Requests → Requests
unfolding write_fn write_header_fn socket_fn
curl_call (writes e chunk n l) http = (write_fn e chunk n l http).1
curl_call (writes_header e chunk n l) http = (write_header_fn e chunk n l http).1
curl_call (watches s epe) http = record http { sockets = socket_fn s epe http.sockets }

unfoldable pub curl_calls : List CurlCall → Requests → Requests
unfolding curl_call
curl_calls [] http = http
curl_calls (k ∷ ks) http = curl_calls ks (curl_call k http)

-- What a call of curl_multi_socket_action does: the callbacks, and the count that it writes.
pub record Answer : Type 0 where
  pub callbacks : List CurlCall
  pub running : ℕ

unfoldable pub action : HttpCall → Answer → Requests → Requests
unfolding curl_calls
action k a http = record (curl_calls a.callbacks (record http { calls = k ∷ http.calls })) {
  handle_count = a.running;
}

unfoldable pub each_event : List (ℕ × Answer) → Requests → Requests
unfolding action
each_event [] http = http
each_event ((fd, a) ∷ ready) http = each_event ready (action (socket_action fd) a http)

-- What `epoll_wait` gives, with libcurl's answers to what the client does: an error, no event, or
-- events.
pub data Ready : Type 0 where
  wait_failed : Ready
  no_event : Answer → Ready
  events : ℕ × Answer → List (ℕ × Answer) → Ready

unfoldable pub process_events : Ready → Requests → Requests
unfolding action each_event
process_events wait_failed http = http
process_events (no_event a) http = action timeout_action a http
process_events (events e ready) http = each_event (e ∷ ready) http

unfoldable pub submit : ℕ → Answer → Ready → Requests → Requests
unfolding action process_events
submit e a ready http =
    process_events ready
      (action timeout_action a (record http { calls = add_handle e ∷ http.calls }))

pub data Verb : Type 0 where
  get post del put : Verb

unfoldable pub verb_option : Verb → EasyOption
verb_option get = http_get 1
verb_option post = http_post 1
verb_option del = custom_request delete_word
verb_option put = custom_request put_word

-- get, post, del and put
unfoldable pub send : Verb → ℕ → Answer → Ready → Requests → Requests
unfolding verb_option submit
send v e a ready http = submit e a ready (setopt e (verb_option v ∷ []) http)

-- The pool as the constructor fills it, with the handles that `curl_easy_init` gives.
unfoldable pub init : List ℕ → Requests
unfolding Baseline.init
init pool = record {
  eh_pool = pool;
  request_infos = [];
  called = [];
  options = λ e. [];
  sockets = Baseline.init;
  handle_count = 0;
  calls = [];
}
