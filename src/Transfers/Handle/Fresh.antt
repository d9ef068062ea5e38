-- ===== src/Transfers/Handle/Fresh.antt =====
-- A pooled easy handle takes a new request with the options that a new handle would have.
use cofetch.Base.{
  ℕ, ◌+◌, ◌≡◌, ◌≢◌, ◌<◌, refl, sym, ap, ◌∙◌, List, [], ◌∷◌, ◌++◌, Option, none, some, ◌==◌,
  if◌then◌else◌, arith, Option-cases, inl, inr,
}
use cofetch.Request.{
  Setting, url, write_data, header_data, private_data, timeout_ms, follow_location, max_redirs,
  http_header, custom_request, post_fields, post_field_size, http_get, http_post, write_function,
  header_function, no_signal, max_lifetime_conn, accept_encoding, pipe_wait, buffer_size,
  open_socket_function, open_socket_data, close_socket_function, close_socket_data, other, Method,
  get, Request,
}
use cofetch.Response.{Bytes}
use cofetch.Transfers.Handle.{configure_settings, request_settings, method_settings}
use cofetch.Transfers.Invariant.{Unhooked, configured, requested}

-- The part of a handle that an option sets. CURLOPT_HTTPGET and CURLOPT_POST set the same one, the
-- request method.
abbrev pub part : Setting → ℕ
part (url a) = 0
part (write_data t) = 1
part (header_data t) = 2
part (private_data t) = 3
part (timeout_ms t) = 4
part (follow_location f) = 5
part (max_redirs m) = 6
part (http_header l) = 7
part (custom_request w) = 8
part (post_fields b) = 9
part (http_get g) = 10
part (http_post p) = 10
part (post_field_size n) = 11
part write_function = 12
part header_function = 13
part (no_signal n) = 14
part (max_lifetime_conn n) = 15
part (accept_encoding a) = 16
part (pipe_wait n) = 17
part (buffer_size n) = 18
part open_socket_function = 19
part open_socket_data = 20
part close_socket_function = 21
part close_socket_data = 22
part (other n v) = 23 + n

abbrev pub post_field_size_part : ℕ
post_field_size_part = 11

abbrev or_else : Option Setting → Option Setting → Option Setting
or_else none b = b
or_else (some v) b = some v

-- The setting of this part that is in force: the last one made.
abbrev pub in_force : ℕ → List Setting → Option Setting
in_force o [] = none
in_force o (s ∷ ss) = or_else (in_force o ss) (if part s == o then some s else none)

in_force-append :
    (o : ℕ) (xs ys : List Setting) → in_force o (xs ++ ys) ≡ or_else (in_force o ys) (in_force o xs)
in_force-append o [] ys = ground arith
in_force-append o (x ∷ xs) ys = ground (arith, in_force-append o xs ys)

abbrev Untouched : ℕ → List Setting → Type 0
Untouched o [] = Unit {0}
Untouched o (s ∷ ss) = (part s ≢ o) × Untouched o ss

in_force-none : (o : ℕ) (ss : List Setting) → in_force o ss ≡ none → Untouched o ss
in_force-none o [] h = tt
in_force-none o (s ∷ ss) h = (λ e. ground arith, in_force-none o ss (ground arith))

in_force-Untouched : (o : ℕ) (ss : List Setting) → Untouched o ss → in_force o ss ≡ none
in_force-Untouched o [] h = refl
in_force-Untouched o (s ∷ ss) h = rw (in_force-Untouched o ss h.1) (ground arith)

method_settings_rest :
    (m : Method) (b : Bytes) (o : ℕ)
    → Untouched o (method_settings m b)
    → 7 < o
    → (o ≡ post_field_size_part → m ≢ get)
    → 11 < o
unfolding method_settings
method_settings_rest get b o h low size = ground (arith, size)
method_settings_rest _ b o h low size = omega arith

method_settings-Untouched :
    (m : Method) (b : Bytes) (o : ℕ) → 11 < o → Untouched o (method_settings m b)
unfolding method_settings
method_settings-Untouched get b o h = omega arith
method_settings-Untouched _ b o h = omega arith

-- A part that one request leaves alone is left alone by every request.
request_settings-Untouched :
    (e k : ℕ) (r q : Request) (o : ℕ)
    → Untouched o (request_settings e r)
    → (o ≡ post_field_size_part → r.verb ≢ get)
    → Untouched o (request_settings k q)
unfolding request_settings
request_settings-Untouched e k r q o h size =
    let above : 11 < o =
      method_settings_rest r.verb r.payload o h.1.1.1.1.1.1.1.1 (omega arith) size in
    let rest = method_settings-Untouched q.verb q.payload o above in
    (
      omega arith,
      (
        omega arith,
        (
          omega arith,
          (omega arith, (omega arith, (omega arith, (omega arith, (omega arith, rest))))),
        ),
      ),
    )

settings-in_force :
    (o : ℕ) (xs ys : List Setting) (v : Setting)
    → in_force o ys ≡ some v
    → in_force o (xs ++ ys) ≡ some v
settings-in_force o xs ys v h = rw (in_force-append o xs ys, h)

Unhooked-in_force :
    {e : ℕ} {ss : List Setting} (o : ℕ)
    → ((r : Request) → in_force o (request_settings e r) ≡ none)
    → Unhooked e ss
    → in_force o ss ≡ in_force o configure_settings
Unhooked-in_force o none_of (configured same) = ap (in_force o) same
Unhooked-in_force {e} o none_of (requested {old} {ss} r u same) =
    rw (same, in_force-append o old (request_settings e r), none_of r)
      (Unhooked-in_force o none_of u)

-- A node from the pool, with no hook since its last scrub, gives a request the same options as a new
-- handle would, in every part of the handle; but a GET finds the body size that an earlier request
-- has set.
pub pooled_as_new :
    {e : ℕ} {ss : List Setting} (o : ℕ) (r : Request)
    → Unhooked e ss
    → (o ≡ post_field_size_part → r.verb ≢ get)
    → in_force o (ss ++ request_settings e r)
      ≡ in_force o (configure_settings ++ request_settings e r)
pooled_as_new {e} {ss} o r u size = elim (Option-cases (in_force o (request_settings e r))) [
  | inr (v, h) ↦
      settings-in_force o ss (request_settings e r) v h
      ∙ sym (settings-in_force o configure_settings (request_settings e r) v h)
  | inl h ↦
      let none_of = λ (q : Request).
        in_force-Untouched o (request_settings e q)
          (request_settings-Untouched e e r q o (in_force-none o (request_settings e r) h) size) in
      rw
        (
          in_force-append o ss (request_settings e r),
          in_force-append o configure_settings (request_settings e r),
          h,
        )
        (Unhooked-in_force o none_of u)
]

-- The body size in force on a handle outlives a GET: `start` sets CURLOPT_POSTFIELDSIZE for the
-- methods with a body only, whatever the handle's history is.
pub get_keeps_size :
    (e : ℕ) (ss : List Setting) (r : Request)
    → r.verb ≡ get
    → in_force post_field_size_part (ss ++ request_settings e r) ≡ in_force post_field_size_part ss
unfolding request_settings method_settings
get_keeps_size e ss r g = rw (in_force-append, g) refl
