-- ===== src/Examples/Shown.antt =====
-- What the programs in examples/ request, and what they print: example_hello, _compression,
-- _concurrent, _errors, _fluent, _http2, _redirects and _tls.
use cofetch.Base.{
  codes, ℕ, ◌+◌, [], ◌∷◌, ◌++◌, none, some, ◌==◌, ltb, not, ◌&&◌, if◌then◌else◌, ℤ, pos,
}
use cofetch.Examples.Programs.{Program}
use cofetch.Request.{Request, other}
use cofetch.Request as Request
use cofetch.Request.Builder.{
  async_get, request, chain, perform, headers, body, timeout, follow_redirects, curl,
}
use cofetch.Response
use cofetch.Response.{Bytes, Response}
use cofetch.Response.Views.{find, substr}
use cofetch.Transfers.Errors.{truthy, message}
use cofetch.Transfers.{ErrorCode, success, operation_aborted}

-- The end of a line
abbrev pub newline : Bytes
newline = b'\n' ∷ []

-- `substr(0, find('\r'))`, which is the whole text if there is no '\r'.
unfoldable pub status_line : Response → Bytes
unfolding find
status_line r = elim (find b'\r' 0 r.header_data) [
  | none ↦ r.header_data
  | some n ↦ substr 0 n r.header_data
]

-- CURLOPT_HTTP_VERSION
abbrev pub http_version : ℕ
http_version = 84

-- CURL_HTTP_VERSION_1_1
abbrev pub http_version_1_1 : ℕ
http_version_1_1 = 2

-- `curl_easy_strerror` is libcurl's, `system_message` the text of an error code in another category,
-- and `to_string` the text of a number.
module _ (curl_easy_strerror : ℕ → Bytes) (system_message : ErrorCode → Bytes)
    (to_string : ℤ → Bytes) where
  -- `ec.message()`
  abbrev pub text_of : ErrorCode → Bytes
  unfolding message
  text_of success = system_message success
  text_of (ErrorCode.curl code) = message curl_easy_strerror code
  text_of operation_aborted = system_message operation_aborted

  -- `ec ? ec.message() : to_string(res.http_code_)`
  abbrev pub text_or_status : ErrorCode → Response → Bytes
  unfolding truthy
  text_or_status ec res = if truthy ec then text_of ec else to_string res.http_code

  -- What the callbacks of example_hello and example_fluent print.
  abbrev pub status_and_body : ErrorCode → Response → Bytes
  unfolding truthy
  status_and_body ec res =
      if truthy ec
      then codes "transport error: " ++ (text_of ec ++ newline)
      else codes "http " ++ (to_string res.http_code ++ (newline ++ (res.body ++ newline)))

  unfoldable pub hello : Program
  unfolding async_get truthy
  hello = record {
    count = 1;
    request = λ i. async_get (codes "https://postman-echo.com/get");
    say = λ i ec res. status_and_body ec res;
  }

  unfoldable pub compression : Program
  unfolding async_get truthy
  compression = record {
    count = 1;
    request = λ i. async_get (codes "https://postman-echo.com/gzip");
    say = λ i ec res. (if truthy ec then text_of ec else res.body) ++ newline;
  }

  unfoldable pub concurrent : Program
  unfolding async_get truthy
  concurrent = record {
    count = 20;
    request = λ i. async_get (codes "https://postman-echo.com/get?n=" ++ to_string (pos (i + 1)));
    say = λ i ec res.
        codes "#"
        ++ (to_string (pos (i + 1)) ++ (codes " -> " ++ (text_or_status ec res ++ newline)));
  }

  -- The last line, with `done`, which each handler adds one to.
  unfoldable pub concurrent_end : ℕ → Bytes
  concurrent_end done = to_string (pos done) ++ (codes " requests completed" ++ newline)

  unfoldable pub errors : Program
  unfolding async_get truthy Response.is_ok
  errors = record {
    count = 2;
    request = λ i.
        if i == 0
        then async_get (codes "https://no-such-host.invalid/")
        else async_get (codes "https://postman-echo.com/status/404");
    say = λ i ec res.
        if i == 0
        then codes "transport error: " ++ (text_of ec ++ newline)
        else if not (truthy ec) && not (Response.is_ok res)
        then codes "http status: " ++ (to_string res.http_code ++ newline)
        else [];
  }

  unfoldable pub fluent : Program
  unfolding request chain perform truthy
  fluent = record {
    count = 1;
    request = λ i. perform Request.post (
        chain
          (headers (codes "content-type: application/json" ∷ [])
            ∷ body (codes "{\"greeting\": \"hello cofetch\"}")
            ∷ timeout (pos 2000)
            ∷ [])
          (request (codes "https://postman-echo.com/post")));
    say = λ i ec res. status_and_body ec res;
  }

  unfoldable pub http2 : Program
  unfolding async_get request chain perform truthy status_line
  http2 = record {
    count = 5;
    request = λ i.
        if ltb i 4
        then async_get (codes "https://postman-echo.com/get")
        else perform Request.get (
            chain (curl (other http_version http_version_1_1 ∷ []) ∷ [])
              (request (codes "https://postman-echo.com/get")));
    say = λ i ec res.
        (if ltb i 4
          then codes "stream #" ++ (to_string (pos (i + 1)) ++ codes "  ")
          else codes "forced 1.1  ")
        ++ ((if truthy ec then text_of ec else status_line res) ++ newline);
  }

  unfoldable pub redirects : Program
  unfolding async_get request chain perform
  redirects =
      let bounce = codes "https://postman-echo.com/redirect-to?url=https://postman-echo.com/get" in
      record {
        count = 2;
        request = λ i.
            if i == 0
            then async_get bounce
            else perform Request.get (chain (follow_redirects (pos 30) ∷ []) (request bounce));
        say = λ i ec res.
            codes (if i == 0 then "without follow: http " else "with follow:    http ")
            ++ (to_string res.http_code ++ newline);
      }

  unfoldable pub tls : Program
  unfolding request chain perform truthy
  tls = record {
    count = 1;
    request = λ i.
        perform Request.get (chain (curl [] ∷ []) (request (codes "https://postman-echo.com/get")));
    say = λ i ec res.
        if truthy ec
        then codes "tls/transport error: " ++ (text_of ec ++ newline)
        else codes "verified https: " ++ (to_string res.http_code ++ newline);
  }
