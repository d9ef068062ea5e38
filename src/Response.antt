-- ===== src/Response.antt =====
-- class Response of include/cofetch.h.
pub mod Case
pub mod Views
pub mod Fields
pub mod Lines
pub mod Lookup
use cofetch.Base.{ℕ, Bool, ◌&&◌, List, ◌==◌, ℤ, pos, leb_ℤ, ltb_ℤ}

-- A `std::string` or `std::string_view`: its bytes, each below 256.
abbrev pub Bytes : Type 0
Bytes = List ℕ

-- CURLE_OK
abbrev pub curle_ok : ℕ
curle_ok = 0

pub record Response : Type 0 where
  pub curl_code : ℕ
  pub http_code : ℤ
  pub body : Bytes
  pub header_data : Bytes

-- error. `curl_easy_strerror` is libcurl's.
unfoldable pub error : (ℕ → Bytes) → Response → Bytes
error curl_easy_strerror r = curl_easy_strerror r.curl_code

unfoldable pub is_ok : Response → Bool
is_ok r = r.curl_code == curle_ok && leb_ℤ (pos 200) r.http_code && ltb_ℤ r.http_code (pos 300)
