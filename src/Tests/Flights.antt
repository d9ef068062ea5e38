-- ===== src/Tests/Flights.antt =====
-- A few requests on a client whose pool holds one node.
use cofetch.Base.{◌≡◌, refl, true, List, [], ◌∷◌, ◌++◌, none, some, pos, arith}
use cofetch.Request.{Request, get, post}
use cofetch.Transfers.Handle.{configure_settings, request_settings}
use cofetch.Transfers.Handle.Fresh.{in_force, pooled_as_new, get_keeps_size}
use cofetch.Transfers.Operations.{start, cancel, complete, find_handle, prepare, new_node}
use cofetch.Transfers.Invariant.{Inv, Unhooked, configured, requested}
use cofetch.Transfers.Outcomes.{
  cancel-complete, complete-receive_body, completion_of, receive_body, Piece,
}
use cofetch.Transfers.Reach.{init, Reach, initial, started, completed, Reach-Inv}
use cofetch.Transfers.{Handler, Transfer, Transfers}

abbrev pub upload : Request
upload = record {
  address = b'u' ∷ [];
  verb = post;
  header_lines = [];
  payload = 1 ∷ 2 ∷ 3 ∷ [];
  time_limit = pos 5000;
  redirect_limit = pos 0;
  curl_setup = none;
}

abbrev download : Request
download = record upload { verb = get; payload = [] }

abbrev pub caller : Handler
caller = record { name = 1; slot_connected = true }

abbrev pub busy : Transfers
busy = start (some 7) 0 upload caller (init 1)

pub busy-Reach : Reach 1 (caller ∷ []) busy
unfolding init
busy-Reach = started (some 7) 0 upload caller initial refl (omega arith)

pub busy_idle : busy.idle ≡ []
unfolding init start
busy_idle = refl

busy_node : Transfer
unfolding prepare new_node
busy_node = prepare upload caller 1 (new_node 7)

found : find_handle 7 busy.transfers ≡ some busy_node
unfolding init start find_handle busy_node
found = refl

abbrev done : Transfers
done = complete 7 0 (pos 200) busy

Reach-Inv_example : Inv done
Reach-Inv_example = Reach-Inv (completed 7 0 (pos 200) busy-Reach)

cancel-complete_example : cancel busy_node.id done ≡ done
cancel-complete_example = cancel-complete 7 0 (pos 200) busy_node (Reach-Inv busy-Reach) found

abbrev pieces : List Piece
pieces = record { n = 1; l = 2; chunk = 4 ∷ 5 ∷ [] } ∷ record { n = 1; l = 1; chunk = 6 ∷ [] } ∷ []

complete-receive_body_example :
    (complete 7 0 (pos 200) (receive_body 7 pieces busy)).delivered
    ≡ completion_of 0 (pos 200) (record busy_node { buffer = 4 ∷ 5 ∷ 6 ∷ [] }) ∷ busy.delivered
unfolding busy_node
complete-receive_body_example =
    complete-receive_body 7 0 (pos 200) pieces busy busy_node (omega arith) found

used-Unhooked : Unhooked 7 (configure_settings ++ request_settings 7 upload)
used-Unhooked = requested upload (configured refl) refl

pooled_as_new_example :
    in_force 9 ((configure_settings ++ request_settings 7 upload) ++ request_settings 7 download)
    ≡ in_force 9 (configure_settings ++ request_settings 7 download)
pooled_as_new_example = pooled_as_new 9 download used-Unhooked (λ e. absurd (omega arith))

get_keeps_size_example :
    in_force 11 ((configure_settings ++ request_settings 7 upload) ++ request_settings 7 download)
    ≡ in_force 11 (configure_settings ++ request_settings 7 upload)
get_keeps_size_example =
    get_keeps_size 7 (configure_settings ++ request_settings 7 upload) download refl
