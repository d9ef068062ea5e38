-- ===== src/Baseline/Polls.antt =====
-- Http::multi_info_read and Http::poll of bench/baseline/http_epoll.h, with what callbacks do.
use cofetch.Base.{ℕ, List, [], ◌∷◌, Option, none, some, ◌==◌, if◌then◌else◌, ℤ}
use cofetch.Baseline.Requests.{
  RequestInfo, Requests, request, update, update_info, set_headers, set_body,
  enable_response_headers, Answer, Ready, Verb, send, process_events, remove_handle, slist_free,
}
use cofetch.Response.{Bytes}

-- What the program calls. A builder is of the request that has its handle.
pub data UserCall : Type 0 where
  asks : ℕ → Bytes → ℕ → ℕ → UserCall
  sets_headers : ℕ → List Bytes → UserCall
  sets_body : ℕ → Bytes → UserCall
  enables_headers : ℕ → UserCall
  sends : Verb → ℕ → Answer → Ready → UserCall

unfoldable pub user_call : UserCall → Requests → Requests
unfolding request set_headers set_body enable_response_headers send
user_call (asks fresh u fn data_ptr) http = request fresh u fn data_ptr http
user_call (sets_headers e headers) http = set_headers e headers http
user_call (sets_body e fields) http = set_body e fields http
user_call (enables_headers e) http = enable_response_headers e http
user_call (sends v e a ready) http = send v e a ready http

unfoldable pub user_calls : List UserCall → Requests → Requests
unfolding user_call
user_calls [] http = http
user_calls (u ∷ us) http = user_calls us (user_call u http)

unfoldable pub find_info : ℕ → List RequestInfo → Option RequestInfo
find_info e [] = none
find_info e (i ∷ is) = if i.eh == e then some i else find_info e is

unfoldable pub erase_info : ℕ → List RequestInfo → List RequestInfo
erase_info e [] = []
erase_info e (i ∷ is) = if i.eh == e then is else i ∷ erase_info e is

-- The callback gets the buffers, which are moved from.
unfoldable pub call_back : ℕ → ℤ → RequestInfo → Requests → Requests
unfolding update_info
call_back curl_code http_code info http =
    let emptied = update info.eh (λ i. record i { buffer = []; header_buffer = [] }) http in
    record emptied {
      called =
          record {
            callback = info.callback;
            curl_code = curl_code;
            http_code = http_code;
            body = info.buffer;
            header_data = info.header_buffer;
            custom_data = info.custom_data;
          }
          ∷ http.called;
      calls = remove_handle info.eh ∷ http.calls;
    }

-- Behind the callback, which may have left something else in `info`.
unfoldable pub release : ℕ → Requests → Requests
unfolding find_info erase_info
release e http = elim (find_info e http.request_infos) [
  | none ↦ http
  | some info ↦ record http {
    calls = slist_free info.header_ptr ∷ http.calls;
    eh_pool = info.eh ∷ http.eh_pool;
    request_infos = erase_info e http.request_infos;
  }
]

-- A message of curl_multi_info_read, and what the callback does.
pub record Message : Type 0 where
  pub handle : ℕ
  pub curl_code : ℕ
  pub http_code : ℤ
  pub reaction : List UserCall

-- A round of multi_info_read on the request that CURLINFO_PRIVATE gives.
unfoldable pub deliver : Message → Requests → Requests
unfolding find_info call_back user_calls release
deliver m http = elim (find_info m.handle http.request_infos) [
  | none ↦ http
  | some info ↦
      release m.handle (user_calls m.reaction (call_back m.curl_code m.http_code info http))
]

unfoldable pub multi_info_read : List Message → Requests → Requests
unfolding deliver
multi_info_read [] http = http
multi_info_read (m ∷ ms) http = multi_info_read ms (deliver m http)

unfoldable pub poll : Ready → List Message → Requests → Requests
unfolding process_events multi_info_read
poll ready ms http = multi_info_read ms (process_events ready http)
