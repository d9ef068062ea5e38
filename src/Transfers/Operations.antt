-- ===== src/Transfers/Operations.antt =====
-- start, fail, cancel, retire, and one round of check_completions.
use cofetch.Base.{
  ℕ, ◌+◌, ◌-◌, ◌%◌, ◌^◌, Bool, true, false, List, [], ◌∷◌, ◌++◌, Option, none, some, ltb, ◌==◌,
  if◌then◌else◌, length, ℤ, pos,
}
use cofetch.Request.{Request}
use cofetch.Response.{Response, curle_ok}
use cofetch.Transfers.Handle.{
  configure_handle, apply, reset, slist, request_settings, hook_settings,
}
use cofetch.Transfers.{
  Handler, Transfer, ErrorCode, success, curl, operation_aborted, Call, easy_init, easy_cleanup,
  add_handle, add_handle_failed, remove_handle, slist_built, slist_free, slot_assign, Transfers,
}

-- The CURLcode and CURLMcode values that the client names.
abbrev pub curle_failed_init : ℕ
curle_failed_init = 2

abbrev pub curle_out_of_memory : ℕ
curle_out_of_memory = 27

abbrev pub curle_aborted_by_callback : ℕ
curle_aborted_by_callback = 42

abbrev pub curlm_ok : ℕ
curlm_ok = 0

abbrev pub curlm_out_of_memory : ℕ
curlm_out_of_memory = 3

-- The modulus of `std::uint64_t`.
abbrev pub id_mod : ℕ
id_mod = 2 ^ 64

unfoldable pub make_error_code : ℕ → ErrorCode
make_error_code code = curl code

-- A Response with no data.
abbrev pub empty_response : ℕ → Response
empty_response code = record { curl_code = code; http_code = pos 0; body = []; header_data = [] }

-- fail
unfoldable pub fail : Option Handler → ℕ → Transfers → Transfers
unfolding make_error_code
fail h code c = record c {
  posted =
      record { handler = h; error = make_error_code code; response = empty_response code }
      ∷ c.posted;
}

-- The list without the node of this handle: `erase`, or the list that a node is spliced from.
unfoldable pub remove_node : ℕ → List Transfer → List Transfer
remove_node e [] = []
remove_node e (t ∷ ts) = if t.eh.handle == e then ts else t ∷ remove_node e ts

-- retire's first part: the node as it goes back to the pool.
unfoldable pub clean : Bool → Transfer → Transfer
unfolding configure_handle
clean scrub t = record t {
  eh = if scrub then configure_handle (reset t.eh) else t.eh;
  headers = none;
  body = [];
  buffer = [];
  header_buffer = [];
  id = 0;
  scrub_on_done = false;
}

-- retire's last part: into the pool, or freed.
unfoldable pub put_back : Transfer → Transfers → Transfers
put_back t c =
    if ltb (length c.idle) c.max_pooled_handles
    then record c { idle = t ∷ c.idle }
    else record c { calls = easy_cleanup t.eh.handle ∷ c.calls }

-- retire
unfoldable pub retire : Transfer → Bool → Transfers → Transfers
unfolding clean remove_node put_back
retire t scrub c = put_back (clean scrub t) (record c {
  transfers = remove_node t.eh.handle c.transfers;
  calls = slist_free t.headers ∷ c.calls;
})

-- A handler that is moved out leaves an empty one.
abbrev pub without_handler : Transfer → Transfer
without_handler t = record t { handler = none }

-- Whether the node must be scrubbed afterwards: a hook says so.
abbrev pub hooked : {A : Type 0} → Option A → Bool → Bool
hooked none old = old
hooked (some fn) old = true

-- The node as `start` fills it in, with the hook run on its handle.
unfoldable pub prepare : Request → Handler → ℕ → Transfer → Transfer
unfolding request_settings hook_settings
prepare r h id t = record t {
  eh = apply (request_settings t.eh.handle r ++ hook_settings r.curl_setup) t.eh;
  headers = slist r.header_lines;
  body = r.payload;
  handler = some h;
  id = id;
  scrub_on_done = hooked r.curl_setup t.scrub_on_done;
}

-- Transfer(e), configured.
unfoldable pub new_node : ℕ → Transfer
unfolding configure_handle
new_node e = record {
  eh = configure_handle (record { handle = e; settings = [] });
  headers = none;
  body = [];
  buffer = [];
  header_buffer = [];
  handler = none;
  id = 0;
  scrub_on_done = false;
}

-- The node for a request and what is left: the warmest idle one, or one with the handle that
-- `curl_easy_init` gives. `none` if it gives none.
unfoldable pub take_node : List Transfer → Option ℕ → Transfers → Option (Transfer × Transfers)
unfolding new_node
take_node [] none c = none
take_node [] (some e) c = some (new_node e, record c { calls = easy_init e ∷ c.calls })
take_node (t ∷ ts) init c = some (t, record c { idle = ts })

unfoldable pub assign_slot : Handler → ℕ → List Call → List Call
assign_slot h id calls = if h.slot_connected then slot_assign h.name id ∷ calls else calls

-- The end of `start`: `curl_multi_add_handle` has answered `rc`. On an error the handler is moved
-- out, the node retired and the handler failed.
unfoldable pub add_to_multi : ℕ → Transfer → Transfers → Transfers
unfolding fail retire
add_to_multi rc t c =
    if rc == curlm_ok
    then record c { calls = add_handle t.eh.handle ∷ c.calls }
    else fail t.handler
        (if rc == curlm_out_of_memory then curle_out_of_memory else curle_failed_init)
        (retire (without_handler t) true
          (record c { calls = add_handle_failed t.eh.handle ∷ c.calls }))

unfoldable pub start_on : ℕ → Request → Handler → Transfer × Transfers → Transfers
unfolding prepare assign_slot add_to_multi slist
start_on rc r h (node, c) =
    let id = (c.next_transfer_id + 1) % id_mod in
    let t = prepare r h id node in
    add_to_multi rc t (record c {
      transfers = t ∷ c.transfers;
      next_transfer_id = id;
      calls = assign_slot h id (slist_built (slist r.header_lines) ∷ c.calls);
    })

-- start. `init` is what `curl_easy_init` answers, if it is called, and `rc` what
-- `curl_multi_add_handle` does.
unfoldable pub start : Option ℕ → ℕ → Request → Handler → Transfers → Transfers
unfolding start_on take_node fail
start init rc r h c = elim (take_node c.idle init c) [
  | none ↦ fail (some h) curle_failed_init c
  | some node ↦ start_on rc r h node
]

unfoldable pub find_id : ℕ → List Transfer → Option Transfer
find_id id [] = none
find_id id (t ∷ ts) = if t.id == id then some t else find_id id ts

-- The body of cancel's loop, on the transfer with the id.
unfoldable pub cancel_found : Transfer → Transfers → Transfers
unfolding retire
cancel_found t c =
    let severed = retire (without_handler t) true (record c {
      calls = remove_handle t.eh.handle ∷ c.calls;
      running = if ltb 0 c.running then c.running - 1 else c.running;
    }) in
    record severed {
      posted =
          record {
            handler = t.handler;
            error = operation_aborted;
            response = empty_response curle_aborted_by_callback;
          }
          ∷ severed.posted;
    }

-- cancel
unfoldable pub cancel : ℕ → Transfers → Transfers
unfolding find_id cancel_found
cancel id c = elim (find_id id c.transfers) [ none ↦ c | some t ↦ cancel_found t c ]

-- CURLINFO_PRIVATE: the node of a handle.
unfoldable pub find_handle : ℕ → List Transfer → Option Transfer
find_handle e [] = none
find_handle e (t ∷ ts) = if t.eh.handle == e then some t else find_handle e ts

-- One round of check_completions on the node that is done, with the result and the HTTP status that
-- libcurl reports.
unfoldable pub complete_found : ℕ → ℤ → Transfer → Transfers → Transfers
unfolding retire make_error_code
complete_found curl_code http_code t c =
    let retired =
      retire (without_handler t) t.scrub_on_done
        (record c { calls = remove_handle t.eh.handle ∷ c.calls }) in
    record retired {
      delivered =
          record {
            handler = t.handler;
            error = if curl_code == curle_ok then success else make_error_code curl_code;
            response = record {
              curl_code = curl_code;
              http_code = http_code;
              body = t.buffer;
              header_data = t.header_buffer;
            };
          }
          ∷ retired.delivered;
    }

-- A round of check_completions for a DONE message about this handle.
unfoldable pub complete : ℕ → ℕ → ℤ → Transfers → Transfers
unfolding find_handle complete_found
complete e curl_code http_code c = elim (find_handle e c.transfers) [
  | none ↦ c
  | some t ↦ complete_found curl_code http_code t c
]
