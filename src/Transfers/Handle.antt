-- ===== src/Transfers/Handle.antt =====
-- What Client::configure_handle and Client::start set on an easy handle.
pub mod Fresh
use cofetch.Base.{
  ℕ, not, List, [], ◌∷◌, ◌++◌, Option, none, some, ◌*◌, if◌then◌else◌, length, pos, eq_ℤ,
}
use cofetch.Request.{
  Setting, url, write_data, header_data, private_data, timeout_ms, follow_location, max_redirs,
  http_header, custom_request, post_fields, post_field_size, http_get, http_post, write_function,
  header_function, no_signal, max_lifetime_conn, accept_encoding, pipe_wait, buffer_size,
  open_socket_function, open_socket_data, close_socket_function, close_socket_data, Method, get,
  post, put, patch, del, Request,
}
use cofetch.Response.{Bytes}
use cofetch.Transfers.{Easy}

-- configure_handle, for a libcurl from 7.80.0 on.
unfoldable pub configure_settings : List Setting
configure_settings =
    write_function
    ∷ header_function
    ∷ no_signal 1
    ∷ max_lifetime_conn 30
    ∷ accept_encoding []
    ∷ pipe_wait 1
    ∷ buffer_size (512 * 1024)
    ∷ open_socket_function
    ∷ open_socket_data
    ∷ close_socket_function
    ∷ close_socket_data
    ∷ []

abbrev pub apply : List Setting → Easy → Easy
apply ss eh = record eh { settings = eh.settings ++ ss }

unfoldable pub configure_handle : Easy → Easy
unfolding configure_settings
configure_handle eh = apply configure_settings eh

-- curl_easy_reset: no option is set any more.
abbrev pub reset : Easy → Easy
reset eh = record eh { settings = [] }

-- The list that `curl_slist_append` builds, from a null list on.
unfoldable pub slist : List Bytes → Option (List Bytes)
slist [] = none
slist (h ∷ hs) = some (h ∷ hs)

-- set_body
unfoldable pub body_settings : Bytes → List Setting
body_settings b = post_field_size (length b) ∷ post_fields (some b) ∷ []

-- "PUT", "PATCH" and "DELETE"
abbrev pub put_word : Bytes
put_word = b'P' ∷ b'U' ∷ b'T' ∷ []

abbrev pub patch_word : Bytes
patch_word = b'P' ∷ b'A' ∷ b'T' ∷ b'C' ∷ b'H' ∷ []

abbrev pub delete_word : Bytes
delete_word = b'D' ∷ b'E' ∷ b'L' ∷ b'E' ∷ b'T' ∷ b'E' ∷ []

-- The switch on the method.
unfoldable pub method_settings : Method → Bytes → List Setting
unfolding body_settings
method_settings get b = custom_request none ∷ post_fields none ∷ http_get 1 ∷ []
method_settings post b = custom_request none ∷ http_post 1 ∷ body_settings b
method_settings put b = custom_request (some put_word) ∷ http_post 1 ∷ body_settings b
method_settings patch b = custom_request (some patch_word) ∷ http_post 1 ∷ body_settings b
method_settings del b = custom_request (some delete_word) ∷ http_post 1 ∷ body_settings b

-- All that `start` sets for a request on the node with this handle, before the request's hook.
unfoldable pub request_settings : ℕ → Request → List Setting
unfolding method_settings slist
request_settings node r =
    url r.address
    ∷ write_data node
    ∷ header_data node
    ∷ private_data node
    ∷ timeout_ms r.time_limit
    ∷ follow_location (if not (eq_ℤ r.redirect_limit (pos 0)) then 1 else 0)
    ∷ max_redirs r.redirect_limit
    ∷ http_header (slist r.header_lines)
    ∷ method_settings r.verb r.payload

-- The hook, if there is one.
unfoldable pub hook_settings : Option (List Setting) → List Setting
hook_settings none = []
hook_settings (some fn) = fn
