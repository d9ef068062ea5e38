-- ===== src/Request.antt =====
-- class Request of include/cofetch.h, and the options that it and cofetch set on an easy handle.
pub mod Builder
use cofetch.Base.{ℕ, List, [], Option, none, some, ℤ, pos}
use cofetch.Response.{Bytes}

pub data Method : Type 0 where
  get post put patch del : Method

-- One call of `curl_easy_setopt`. A pointer to a transfer node is the node's easy handle; `other` is
-- any option that cofetch does not use itself.
pub data Setting : Type 0 where
  url : Bytes → Setting
  write_data : ℕ → Setting
  header_data : ℕ → Setting
  private_data : ℕ → Setting
  timeout_ms : ℤ → Setting
  follow_location : ℕ → Setting
  max_redirs : ℤ → Setting
  http_header : Option (List Bytes) → Setting
  custom_request : Option Bytes → Setting
  post_fields : Option Bytes → Setting
  post_field_size : ℕ → Setting
  http_get : ℕ → Setting
  http_post : ℕ → Setting
  write_function : Setting
  header_function : Setting
  no_signal : ℕ → Setting
  max_lifetime_conn : ℕ → Setting
  accept_encoding : Bytes → Setting
  pipe_wait : ℕ → Setting
  buffer_size : ℕ → Setting
  open_socket_function : Setting
  open_socket_data : Setting
  close_socket_function : Setting
  close_socket_data : Setting
  other : ℕ → ℕ → Setting

-- The hook of `Request::curl` is the list of the options that it sets.
pub record Request : Type 0 where
  pub address : Bytes
  pub verb : Method
  pub header_lines : List Bytes
  pub payload : Bytes
  pub time_limit : ℤ
  pub redirect_limit : ℤ
  pub curl_setup : Option (List Setting)

-- Request(url)
unfoldable pub init : Bytes → Request
init address = record {
  address = address;
  verb = get;
  header_lines = [];
  payload = [];
  time_limit = pos 5000;
  redirect_limit = pos 0;
  curl_setup = none;
}

unfoldable pub method : Method → Request → Request
method m r = record r { verb = m }

unfoldable pub headers : List Bytes → Request → Request
headers h r = record r { header_lines = h }

unfoldable pub body : Bytes → Request → Request
body b r = record r { payload = b }

-- The argument is a number of milliseconds.
unfoldable pub timeout : ℤ → Request → Request
timeout t r = record r { time_limit = t }

-- follow_redirects(max), 30 by default
unfoldable pub follow_redirects : ℤ → Request → Request
follow_redirects max r = record r { redirect_limit = max }

unfoldable pub curl : List Setting → Request → Request
curl fn r = record r { curl_setup = some fn }
