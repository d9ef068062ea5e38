-- ===== src/Examples/Said.antt =====
-- What the texts that the examples print say.
use mathlib.Core.Path.{subst}
use cofetch.Base.{
  codes, ℕ, ◌+◌, ◌≡◌, refl, ap, ◌∙◌, false, not, ◌&&◌, List, [], ◌∷◌, ◌++◌, Option, some, ◌==◌,
  if◌then◌else◌, Mem, length, take, arith, ℤ, Bool-cases, inl, inr,
}
use cofetch.Client.Calls.{CurlCall}
use cofetch.Client.System.{System}
use cofetch.Examples.Answered.{Drains, IsAnswer, Good}
use cofetch.Examples.Launched.{default_pool, launched, Launches, prints_each}
use cofetch.Examples.Programs.{first_handlers, printed, Program}
use cofetch.Examples.Shown.{status_line, errors, newline}
use cofetch.Response.Lines.RoundTrip.{Hop, wire}
use cofetch.Response.Views.{find, find_at, elem}
use cofetch.Response
use cofetch.Response.{Bytes, Response, curle_ok}
use cofetch.Sockets.{SocketState}
use cofetch.Transfers.{Completion, ErrorCode}

find_at-first :
    (c i : ℕ) (l rest : Bytes)
    → elem c l ≡ false
    → find_at c i (l ++ c ∷ rest) ≡ some (i + length l)
unfolding find_at elem
find_at-first c i [] rest h = ground arith
find_at-first c i (x ∷ l) rest h = ground (arith, find_at-first c (i + 1) l rest)

take-length : (l rest : Bytes) → take (length l) (l ++ rest) ≡ l
take-length [] rest = refl
take-length (x ∷ l) rest = ap (◌∷◌ x) (take-length l rest)

-- The status line of the response that came first.
abbrev pub first_status : List Hop → Hop → Bytes
first_status [] final = final.status
first_status (h ∷ hs) final = h.status

status_line-put :
    (r : Response) (l rest : Bytes)
    → elem b'\r' l ≡ false
    → r.header_data ≡ l ++ b'\r' ∷ rest
    → status_line r ≡ l
unfolding status_line find
status_line-put r l rest h e =
    let found : find_at b'\r' 0 r.header_data ≡ some (length l) =
      ap (find_at b'\r' 0) e ∙ find_at-first b'\r' 0 l rest h ∙ ap some (omega arith) in
    rw (found, status_line) (ap (take (length l)) e ∙ take-length l (b'\r' ∷ rest))

-- The status line that example_http2 prints is that of the first response of the transfer, be it a
-- redirect or an interim response, and not that of the final one, whose fields headers() gives.
pub status_line-wire :
    (hs : List Hop) (final : Hop) (r : Response)
    → elem b'\r' (first_status hs final) ≡ false
    → r.header_data ≡ wire hs final
    → status_line r ≡ first_status hs final
status_line-wire [] final r h e = status_line-put r final.status _ h e
status_line-wire (x ∷ hs) final r h e = status_line-put r x.status _ h e

module _ (strerror : ℕ → Bytes) (system_message : ErrorCode → Bytes) (to_string : ℤ → Bytes) where
  abbrev pub checks : Program
  checks = errors strerror system_message to_string

  -- The HTTP status if there was one and it is no success.
  abbrev pub status_text : Response → Bytes
  status_text res =
      if res.curl_code == curle_ok && not (Response.is_ok res)
      then codes "http status: " ++ (to_string res.http_code ++ newline)
      else []

  say-Good : (c : Completion) → Good c → checks.say 1 c.error c.response ≡ status_text c.response
  unfolding errors
  say-Good c good = elim (Bool-cases (c.response.curl_code == curle_ok)) [
    | inl fine ↦ rw (good, fine) refl
    | inr wrong ↦ rw (good, wrong) refl
  ]

  -- When example_errors has run until nothing is left, the handler of its second request has printed
  -- the HTTP status if the CURLcode of the response is CURLE_OK and the status not in 200 to 299, and an
  -- empty text if not: an HTTP error is told apart from an error of the transport.
  pub errors_apart :
      (blank : SocketState) (inits : ℕ → Option ℕ) (rcs : ℕ → ℕ) (calls : ℕ → List CurlCall)
      (io_run : System → System)
      → Launches checks.request blank inits rcs calls checks.count
      → Drains default_pool blank
          (first_handlers checks.count)
          io_run
          (launched checks.request blank inits rcs calls checks.count)
      → let last = io_run (launched checks.request blank inits rcs calls checks.count) in
        (c : Completion) × IsAnswer 1 c × Mem (status_text c.response) (printed checks last)
  unfolding errors
  errors_apart blank inits rcs calls io_run promised drains =
      let (_, _, (c, mine, good, told)) =
        prints_each checks blank inits rcs calls io_run 1 promised drains (omega arith) in
      let last = io_run (launched checks.request blank inits rcs calls checks.count) in
      (c, mine, subst (λ t. Mem t (printed checks last)) (say-Good c good) told)
