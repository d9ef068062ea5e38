-- ===== src/Tests/Reactors.antt =====
-- The program of example_reactors.cpp when libcurl makes no handle: every request fails at once.
use cofetch.Base.{
  ℕ, suc, ◌<◌, ◌≡◌, ◌≤◌, refl, [], ◌∷◌, Option, none, some, ltb, Bool-cases, inl, inr, List, length,
  arith, codes, if◌then◌else◌,
}
use cofetch.Response.{Bytes}
use cofetch.Client.Calls.{CurlCall, user_call}
use cofetch.Client.System.{System, new_client, post_ran}
use cofetch.Examples.Reactors.{k_requests, drive, main, mode_of, completed, launch_requests}
use cofetch.Examples.Programs.{launch_request, launch_all}
use cofetch.Examples.Drained.{Ran, AllCalled, polled, begun, Promised, main_polls}
use cofetch.Tests.Watches.{blank}
use cofetch.Transfers.Operations.{start, fail, id_mod}

abbrev pub refuse : ℕ → Option ℕ
refuse i = none

abbrev pub code : ℕ → ℕ
code i = 0

abbrev pub silent : ℕ → List CurlCall
silent i = []

-- One post runs, if there is one.
abbrev poll_one : System → System
poll_one t = if ltb t.ran (length t.client.flights.posted) then record t { ran = suc t.ran } else t

abbrev run_all : System → System
run_all t = polled poll_one 5 t

poll_one-Ran : (t : System) → Ran blank t → Ran blank (poll_one t)
poll_one-Ran t r = elim (Bool-cases (ltb t.ran (length t.client.flights.posted))) [
  | inl more ↦ rw more (post_ran r.0 (grind arith), r.1)
  | inr over ↦ rw over r
]

abbrev start_state : System
start_state = begun blank refuse code silent

launches : Promised blank refuse code silent
unfolding launch_requests launch_all launch_request user_call new_client start fail
launches =
    let one : 1 < id_mod = omega arith in
    (((((tt, (tt, one, tt)), (tt, one, tt)), (tt, one, tt)), (tt, one, tt)), (tt, one, tt))

enough : k_requests ≤ completed (polled poll_one 5 start_state)
unfolding launch_requests launch_all launch_request user_call new_client start fail completed
enough = omega arith

abbrev poll_argv : List Bytes
poll_argv = codes "example_reactors" ∷ codes "poll" ∷ []

main_polls_example :
    ((last : System) × (drive run_all poll_one 9 (mode_of poll_argv) start_state ≡ some last)
      × AllCalled last)
    × (main run_all poll_one 9 poll_argv start_state ≡ 0)
unfolding mode_of
main_polls_example =
    main_polls blank refuse code silent run_all poll_one poll_argv 5 9 launches poll_one-Ran
      (inl refl) (omega arith) enough
