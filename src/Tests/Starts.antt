-- ===== src/Tests/Starts.antt =====
-- Two requests: libcurl takes one and not the other.
use cofetch.Base.{refl, some, ◌≡◌, ◌+◌, ◌-◌, ◌%◌}
use cofetch.Tests.Flights.{busy, busy_idle, upload, caller}
use cofetch.Transfers.Operations.{start, cancel, id_mod}
use cofetch.Transfers.Starts.{PostsOnly, start_refused, cancel-start_accepted, pending_requests}

start_refused_example : PostsOnly busy caller 27 (start (some 8) 3 upload caller busy)
start_refused_example = start_refused (some 8) 3 27 upload caller busy (rw busy_idle refl)

cancel-start_accepted_example :
    pending_requests
      (cancel ((busy.next_transfer_id + 1) % id_mod) (start (some 8) 0 upload caller busy))
    ≡ pending_requests busy - 1
cancel-start_accepted_example =
    cancel-start_accepted (some 8) 0 upload caller busy (rw busy_idle refl)
