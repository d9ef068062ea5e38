-- ===== src/Examples/Coroutines.antt =====
-- example_coroutine.cpp, example_keepalive.cpp and example_cancellation.cpp: coroutines that await one
-- request after another.
use cofetch.Base.{
  codes, ◌≡◌, refl, ap, length, ◌+◌, ◌≤◌, true, List, [], ◌∷◌, ◌++◌, if◌then◌else◌, ℤ, arith,
  Bool-cases, inl, inr,
}
use cofetch.Request.{Request}
use cofetch.Request as Request
use cofetch.Request.Builder.{async_get, request, chain, perform, body}
use cofetch.Response.{Bytes, Response}
use cofetch.Transfers.Errors.{truthy}
use cofetch.Transfers.{ErrorCode, success, operation_aborted}

-- `awaits` is `co_await` with `use_awaitable`, which throws an error; `tries` is that with `as_tuple`,
-- which gives it.
pub data Coroutine : Type 0 where
  finished : Coroutine
  prints : Bytes → Coroutine → Coroutine
  awaits : Request → (Response → Coroutine) → Coroutine
  tries : Request → (ErrorCode → Response → Coroutine) → Coroutine

-- What a coroutine requests and prints, by the answers that it gets, in this order. An exception leaves
-- it, and `detached` drops it.
unfoldable pub runs : Coroutine → List (ErrorCode × Response) → List Request × List Bytes
unfolding truthy
runs finished answers = ([], [])
runs (prints t k) answers = let rest = runs k answers in (rest.0, t ∷ rest.1)
runs (awaits r k) [] = (r ∷ [], [])
runs (awaits r k) ((ec, res) ∷ answers) =
    let rest = runs (k res) answers in if truthy ec then (r ∷ [], []) else (r ∷ rest.0, rest.1)
runs (tries r k) [] = (r ∷ [], [])
runs (tries r k) ((ec, res) ∷ answers) = let rest = runs (k ec res) answers in (r ∷ rest.0, rest.1)

-- `to_string` is the text of a number.
module _ (to_string : ℤ → Bytes) where
  unfoldable pub fetch_then_post : Coroutine
  unfolding async_get request chain perform
  fetch_then_post = awaits (async_get (codes "https://fapi.binance.com/fapi/v1/time")) λ time.
      prints (codes "server time: " ++ (time.body ++ codes "\n")) (
        awaits
          (perform Request.post (
            chain (body (codes "prev=" ++ time.body) ∷ [])
              (request (codes "https://postman-echo.com/post"))))
          λ echo. prints (codes "echo: http " ++ (to_string echo.http_code ++ codes "\n")) finished)

  -- What impatient_get prints.
  unfoldable pub outcome_text : ErrorCode → Response → Bytes
  outcome_text operation_aborted res = codes "gave up after 500 ms\n"
  outcome_text success res =
      codes "finished anyway: http " ++ (to_string res.http_code ++ codes "\n")
  outcome_text (ErrorCode.curl code) res =
      codes "finished anyway: http " ++ (to_string res.http_code ++ codes "\n")

  -- impatient_get. The time budget is asio's.
  unfoldable pub impatient_get : Coroutine
  unfolding async_get outcome_text
  impatient_get =
      tries (async_get (codes "https://postman-echo.com/delay/2"))
        λ ec res. prints (outcome_text ec res) finished

  -- The times that the two requests of `twice` take are the clock's.
  unfoldable pub twice : ℤ → ℤ → Coroutine
  unfolding async_get
  twice first second = awaits (async_get (codes "https://postman-echo.com/get")) λ res.
      prints
        (codes "first  request: " ++ (to_string first ++ codes " ms  (DNS + TCP + TLS + HTTP)\n"))
        (awaits (async_get (codes "https://postman-echo.com/get")) λ again.
          prints
            (codes "second request: "
              ++ (to_string second ++ codes " ms  (pooled connection, HTTP only)\n"))
            finished)

-- Every await of the coroutine throws.
abbrev pub Throws : Coroutine → Type 0
Throws finished = Unit
Throws (prints t k) = Throws k
Throws (awaits r k) = (res : Response) → Throws (k res)
Throws (tries r k) = ⊥

-- In a coroutine whose awaits all throw, an error ends it: what would be answered behind the error changes
-- nothing of what is requested and printed, and there is one request more at most than there were
-- answers before the error.
pub error_ends :
    (k : Coroutine) (before : List (ErrorCode × Response)) (ec : ErrorCode) (res : Response)
    (after : List (ErrorCode × Response))
    → Throws k
    → truthy ec ≡ true
    → (runs k (before ++ (ec, res) ∷ after) ≡ runs k (before ++ (ec, res) ∷ []))
      × (length (runs k (before ++ (ec, res) ∷ after)).0 ≤ length before + 1)
unfolding runs
error_ends finished before ec res after h e = (refl, omega arith)
error_ends (prints t k) before ec res after h e =
    let (same, few) = error_ends k before ec res after h e in (ap (λ r. (r.0, t ∷ r.1)) same, few)
error_ends (awaits r k) [] ec res after h e = rw e (refl, omega arith)
error_ends (awaits r k) ((ec', res') ∷ before) ec res after h e = elim (Bool-cases (truthy ec')) [
  | inl bad ↦ rw bad (refl, omega arith)
  | inr good ↦
      let (same, few) = error_ends (k res') before ec res after (h res') e in
      rw good (ap (λ x. (r ∷ x.0, x.1)) same, omega (arith, few))
]
error_ends (tries r k) before ec res after h e = elim h [ ]
