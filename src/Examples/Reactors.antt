-- ===== src/Examples/Reactors.antt =====
-- example_reactors.cpp: five requests, and three ways to run the io_context.
use cofetch.Base.{
  codes, ℕ, zero, suc, List, ◌∷◌, Option, none, some, ◌==◌, ltb, if◌then◌else◌, length,
}
use cofetch.Bench.{same_text}
use cofetch.Client.Calls.{CurlCall}
use cofetch.Examples.Programs.{launch_all}
use cofetch.Request.{Request}
use cofetch.Client.System.{System, invoked}
use cofetch.Request.Builder.{async_get}
use cofetch.Response.{Bytes}

-- kRequests
abbrev pub k_requests : ℕ
k_requests = 5

-- kUrl
abbrev pub k_url : Bytes
k_url = codes "https://postman-echo.com/get"

-- "run"
abbrev pub run_name : Bytes
run_name = codes "run"

-- "poll"
abbrev pub poll_name : Bytes
poll_name = codes "poll"

-- "foreign"
abbrev pub foreign_name : Bytes
foreign_name = codes "foreign"

-- What launch_requests starts.
abbrev pub fetches : ℕ → Request
unfolding async_get
fetches i = async_get k_url

-- completed. All handlers are those of launch_requests, and each call of one is one `++completed`.
unfoldable pub completed : System → ℕ
completed s = length (invoked s)

-- The first word behind the program's name if there is one, else "run".
unfoldable pub mode_of : List Bytes → Bytes
mode_of (name ∷ mode ∷ more) = mode
mode_of argv = run_name

-- What main returns in the end.
unfoldable pub result : System → ℕ
unfolding completed
result s = if completed s == k_requests then 0 else 1

-- launch_requests, up to the request n. The handler of each adds one to `completed` when it is called.
unfoldable pub launch_requests :
    (ℕ → Option ℕ) → (ℕ → ℕ) → (ℕ → List CurlCall) → ℕ → System → System
unfolding launch_all
launch_requests inits rcs calls n s = launch_all fetches inits rcs calls n s

-- `io.run()` and `io.poll()` are asio's.
module _ (io_poll : System → System) where
  -- `while (completed < kRequests)`, of "poll" and of "foreign"
  unfoldable pub busy_loop : ℕ → System → System
  unfolding completed
  busy_loop zero s = s
  busy_loop (suc fuel) s =
      let later = busy_loop fuel (io_poll s) in if ltb (completed s) k_requests then later else s

module _ (io_run io_poll : System → System) where
  -- The branches of main; `none` is the usage message.
  unfoldable pub drive : ℕ → Bytes → System → Option System
  unfolding busy_loop
  drive fuel mode s =
      if same_text mode run_name
      then some (io_run s)
      else if same_text mode poll_name
      then some (busy_loop io_poll fuel s)
      else if same_text mode foreign_name
      then some (busy_loop io_poll fuel s)
      else none

  -- main, behind launch_requests
  unfoldable pub main : ℕ → List Bytes → System → ℕ
  unfolding drive mode_of result
  main fuel argv s = elim (drive fuel (mode_of argv) s) [ none ↦ 2 | some last ↦ result last ]
