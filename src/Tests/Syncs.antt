-- ===== src/Tests/Syncs.antt =====
-- A blocking call on an io_context that is stopped, when libcurl makes no handle.
use cofetch.Base.{suc, ◌≡◌, refl, true, [], ◌∷◌, none, arith, codes}
use cofetch.Client.Calls.{user_call}
use cofetch.Client.System.{System, new_system, new_client, Lives, made, post_ran}
use cofetch.Examples.Answered.{Drains}
use cofetch.Examples.Settled.{answer_of, IsOnly, get_settles}
use cofetch.Examples.Sync.{SyncClient, Answers, handler_of, asked, get}
use cofetch.Request.Builder.{async_get}
use cofetch.Response.{Bytes}
use cofetch.Tests.Watches.{blank}
use cofetch.Transfers.{Completion}
use cofetch.Transfers.Operations.{start, fail}

abbrev stopped_client : SyncClient
stopped_client = record { io = new_system 64 blank; stopped = true }

abbrev refusal : Answers
refusal = record { handle = none; code = 0; calls = [] }

abbrev run_post : System → System
run_post t = record t { ran = suc t.ran }

abbrev url : Bytes
url = codes "https://postman-echo.com/get"

abbrev begun : System
begun = (asked refusal (async_get url) 3 stopped_client).io

drains : Drains 64 blank (handler_of 3 ∷ []) run_post begun
unfolding user_call new_client start fail
drains lives here = (post_ran lives (omega arith), here, (refl, refl))

get_settles_example :
    Lives 64 blank (handler_of 3 ∷ []) (run_post begun)
    × ((run_post begun).client.alive ≡ true)
    × ((p : Completion) × IsOnly 3 p (run_post begun)
        × (get run_post refusal 3 url stopped_client
            ≡ (answer_of p, record { io = run_post begun; stopped = true })))
unfolding new_client
get_settles_example =
    get_settles run_post refusal 3 url stopped_client made refl tt (tt, omega arith, tt) drains
