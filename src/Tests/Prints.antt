-- ===== src/Tests/Prints.antt =====
-- example_coroutine on two answers.
use cofetch.Base.{◌≡◌, refl, [], ◌∷◌, pos, codes, ℤ}
use cofetch.Examples.Coroutines.{runs, fetch_then_post}
use cofetch.Response.{Bytes}
use cofetch.Transfers.{success, curl}
use cofetch.Transfers.Errors.{truthy}

abbrev one_digit : ℤ → Bytes
one_digit n = b'?' ∷ []

-- The second request sends on what the first got; and an error ends the coroutine.
posted_on :
    (runs (fetch_then_post one_digit) (
      (success, record { curl_code = 0; http_code = pos 200; body = codes "1"; header_data = [] })
      ∷ (curl 6, record { curl_code = 6; http_code = pos 0; body = []; header_data = [] })
      ∷ [])).1
    ≡ codes "server time: 1\n" ∷ []
unfolding runs fetch_then_post truthy
posted_on = refl

line_end : codes "\"\n" ≡ b'"' ∷ b'\n' ∷ []
line_end = refl
