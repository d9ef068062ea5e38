-- ===== src/Examples/Drained.antt =====
-- example_reactors.cpp: in every mode each request's handler is called once, and main returns 0.
use cofetch.Base.{
  ℕ, zero, suc, ◌≡◌, ◌≤◌, refl, ap, ◌∙◌, true, false, List, Option, some, ltb, arith, Bool-cases,
  inl, inr, map, Perm, length, length-Perm, length-parts, last_part, ◌⊎◌,
}
use cofetch.Bench.{same_text}
use cofetch.Client.Calls.{CurlCall}
use cofetch.Client.Once.{Lives-handlers, Lives-complete}
use cofetch.Client.System.{System, new_system, Lives, invoked, pending}
use cofetch.Examples.Answered.{Quiet}
use cofetch.Examples.Launched.{default_pool, Launches, launched-Lives}
use cofetch.Examples.Programs.{first_handlers}
use cofetch.Examples.Reactors.{
  k_requests, run_name, poll_name, foreign_name, fetches, completed, mode_of, result,
  launch_requests, busy_loop, drive, main,
}
use cofetch.Response.{Bytes}
use cofetch.Sockets.{SocketState}
use cofetch.Transfers.Completions.{held, called}
use cofetch.Transfers.{Handler}

length-first_handlers : (n : ℕ) → length (map some (first_handlers n)) ≡ n
length-first_handlers zero = refl
length-first_handlers (suc n) = ap suc (length-first_handlers n)

-- Each call of a handler is that of a request that was started.
completed_le :
    {cap : ℕ} {blank : SocketState} {hs : List Handler} {s : System}
    → Lives cap blank hs s
    → completed s ≤ length (map some hs)
unfolding completed
completed_le {s} r = omega (
  arith,
  length-parts s.dropped (held s.client.flights.transfers) (called (pending s)) (invoked s)
      (Lives-handlers r),
)

completed_all :
    {cap : ℕ} {blank : SocketState} {hs : List Handler} {s : System}
    → Lives cap blank hs s
    → completed s ≡ length (map some hs)
    → Perm (invoked s) (map some hs)
unfolding completed
completed_all {s} r e =
    last_part s.dropped (held s.client.flights.transfers) (called (pending s)) (invoked s)
      (Lives-handlers r) e

-- The states of the program behind launch_requests, while nothing more is started.
abbrev pub Ran : SocketState → System → Type 0
Ran blank s = Lives default_pool blank (first_handlers k_requests) s × (s.client.alive ≡ true)

-- Each of the handlers has been called, once.
abbrev pub AllCalled : System → Type 0
AllCalled s = Perm (invoked s) (map some (first_handlers k_requests))

result-AllCalled : (s : System) → AllCalled s → result s ≡ 0
unfolding result completed
result-AllCalled s all = let e : completed s ≡ k_requests = length-Perm all in rw e refl

completed-AllCalled :
    {blank : SocketState} {s : System}
    → Ran blank s
    → k_requests ≤ completed s
    → AllCalled s × (result s ≡ 0)
completed-AllCalled {s} r enough =
    let all : completed s ≡ k_requests = omega (arith, completed_le r.0) in
    let called_all = completed_all r.0 all in (called_all, result-AllCalled s called_all)

-- The io_context polled so many times.
abbrev pub polled : (System → System) → ℕ → System → System
polled io_poll zero s = s
polled io_poll (suc n) s = polled io_poll n (io_poll s)

busy_loop-Ran :
    {blank : SocketState} (io_poll : System → System) (n fuel : ℕ) (s : System)
    → ((t : System) → Ran blank t → Ran blank (io_poll t))
    → n ≤ fuel
    → Ran blank s
    → k_requests ≤ completed (polled io_poll n s)
    → Ran blank (busy_loop io_poll fuel s) × (k_requests ≤ completed (busy_loop io_poll fuel s))
unfolding busy_loop
busy_loop-Ran io_poll zero zero s keeps h r enough = (r, enough)
busy_loop-Ran io_poll (suc n) zero s keeps h r enough = absurd (omega arith)
busy_loop-Ran io_poll zero (suc fuel) s keeps h r enough =
    let over : ltb (completed s) k_requests ≡ false = grind arith in rw over (r, enough)
busy_loop-Ran io_poll (suc n) (suc fuel) s keeps h r enough =
    elim (Bool-cases (ltb (completed s) k_requests)) [
      | inl more ↦
          rw more (busy_loop-Ran io_poll n fuel (io_poll s) keeps (omega arith) (keeps s r) enough)
      | inr over ↦ rw over (r, not_ltb (completed s) over)
    ]
  where
    not_ltb : (m : ℕ) → ltb m k_requests ≡ false → k_requests ≤ m
    not_ltb m e = ground arith

drive-run :
    (io_run io_poll : System → System) (fuel : ℕ) (mode : Bytes) (s : System)
    → mode ≡ run_name
    → drive io_run io_poll fuel mode s ≡ some (io_run s)
unfolding drive same_text
drive-run io_run io_poll fuel mode s e = rw e refl

drive-busy_loop :
    (io_run io_poll : System → System) (fuel : ℕ) (mode : Bytes) (s : System)
    → (mode ≡ poll_name) ⊎ (mode ≡ foreign_name)
    → drive io_run io_poll fuel mode s ≡ some (busy_loop io_poll fuel s)
unfolding drive same_text
drive-busy_loop io_run io_poll fuel mode s (inl e) = rw e refl
drive-busy_loop io_run io_poll fuel mode s (inr e) = rw e refl

main-some :
    (io_run io_poll : System → System) (fuel : ℕ) (argv : List Bytes) (s last : System)
    → drive io_run io_poll fuel (mode_of argv) s ≡ some last
    → main io_run io_poll fuel argv s ≡ result last
unfolding main
main-some io_run io_poll fuel argv s last e = rw (e, main) refl

module _ (blank : SocketState) (inits : ℕ → Option ℕ) (rcs : ℕ → ℕ)
    (calls : ℕ → List CurlCall) where
  abbrev pub Promised : Type 0
  Promised = Launches fetches blank inits rcs calls k_requests

  -- The program behind launch_requests.
  abbrev pub begun : System
  unfolding launch_requests
  begun = launch_requests inits rcs calls k_requests (new_system default_pool blank)

  pub begun-Ran : Promised → Ran blank begun
  unfolding launch_requests
  begun-Ran p = launched-Lives fetches blank inits rcs calls k_requests p

  -- In the modes "poll" and "foreign", if the io_context only runs what is queued, and n polls bring all
  -- answers, then the loop is over after n polls or fewer, each of the five handlers has been called, once,
  -- and main returns 0.
  pub main_polls :
      (io_run io_poll : System → System) (argv : List Bytes) (n fuel : ℕ)
      → Promised
      → ((t : System) → Ran blank t → Ran blank (io_poll t))
      → (mode_of argv ≡ poll_name) ⊎ (mode_of argv ≡ foreign_name)
      → n ≤ fuel
      → k_requests ≤ completed (polled io_poll n begun)
      → ((last : System) × (drive io_run io_poll fuel (mode_of argv) begun ≡ some last)
          × AllCalled last)
        × (main io_run io_poll fuel argv begun ≡ 0)
  main_polls io_run io_poll argv n fuel p keeps mode h enough =
      let start = begun in
      let (r, done) = busy_loop-Ran io_poll n fuel start keeps h (begun-Ran p) enough in
      let (all, fine) = completed-AllCalled r done in
      let driven = drive-busy_loop io_run io_poll fuel (mode_of argv) start mode in
      (
        (busy_loop io_poll fuel start, driven, all),
        main-some io_run io_poll fuel argv start _ driven ∙ fine,
      )

  -- In the mode "run", if `io.run()` only runs what is queued behind the launches and returns when
  -- nothing is in flight and every post has run, then each of the five handlers has been called, once, and main returns 0.
  pub main_runs :
      (io_run io_poll : System → System) (argv : List Bytes) (fuel : ℕ)
      → Ran blank (io_run begun)
      → Quiet (io_run begun)
      → mode_of argv ≡ run_name
      → ((last : System) × (drive io_run io_poll fuel (mode_of argv) begun ≡ some last)
          × AllCalled last)
        × (main io_run io_poll fuel argv begun ≡ 0)
  main_runs io_run io_poll argv fuel r quiet mode =
      let start = begun in
      let all = Lives-complete r.0 r.1 quiet.0 quiet.1 in
      let driven = drive-run io_run io_poll fuel (mode_of argv) start mode in
      (
        (io_run start, driven, all),
        main-some io_run io_poll fuel argv start _ driven ∙ result-AllCalled (io_run start) all,
      )
