-- ===== src/Examples/Programs.antt =====
-- The examples that start requests, run the io_context and print what comes: their common shape.
use cofetch.Base.{ℕ, zero, suc, List, [], ◌∷◌, Option, none, some, map}
use cofetch.Client.Calls.{UserCall, starts, user_call, CurlCall}
use cofetch.Client.System.{System}
use cofetch.Examples.Sync.{calls_made, handler_of}
use cofetch.Request.{Request}
use cofetch.Response.{Bytes, Response}
use cofetch.Transfers.{Handler, Completion, ErrorCode}

-- The handlers of the first n requests, newest first.
abbrev pub first_handlers : ℕ → List Handler
first_handlers zero = []
first_handlers (suc n) = handler_of n ∷ first_handlers n

-- How many requests a program starts, which, and what the handler of each prints.
pub record Program : Type 0 where
  pub count : ℕ
  pub request : ℕ → Request
  pub say : ℕ → ErrorCode → Response → Bytes

abbrev pub say_of : Program → Option Handler → Completion → Bytes
say_of p none c = []
say_of p (some h) c = p.say h.name c.error c.response

-- What the handlers have printed, those of posted completions first.
abbrev pub printed : Program → System → List Bytes
printed p s = map (λ c. say_of p c.handler c) (calls_made s)

-- The answers of libcurl for the request i: its handle, its code, and its calls of the callbacks.
module _ (request : ℕ → Request) (inits : ℕ → Option ℕ) (rcs : ℕ → ℕ)
    (calls : ℕ → List CurlCall) where
  unfoldable pub launch_request : ℕ → UserCall
  launch_request i = starts (inits i) (rcs i) (request i) (handler_of i) (calls i)

  -- The first n requests are started.
  unfoldable pub launch_all : ℕ → System → System
  unfolding launch_request
  launch_all zero s = s
  launch_all (suc n) s =
      let before = launch_all n s in
      record before { client = user_call (launch_request n) before.client }
