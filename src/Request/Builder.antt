-- ===== src/Request/Builder.antt =====
-- Client::RequestBuilder, async_get and async_post of include/cofetch.h, up to the request that they
-- hand to async_perform.
use cofetch.Base.{List, [], ◌∷◌, Option, none, some, ℤ, pos, ◌≡◌, refl}
use cofetch.Request
use cofetch.Request.{Request, Method, get, post, put, patch, del, Setting}
use cofetch.Response.{Bytes}

-- The request of a builder; the client that it is bound to is the one that starts the transfer.
pub record RequestBuilder : Type 0 where
  pub req : Request

-- One setter in a chain.
pub data Setter : Type 0 where
  headers : List Bytes → Setter
  body : Bytes → Setter
  timeout : ℤ → Setter
  follow_redirects : ℤ → Setter
  curl : List Setting → Setter

-- request(url)
unfoldable pub request : Bytes → RequestBuilder
unfolding Request.init
request url = record { req = Request.init url }

unfoldable pub setter : Setter → RequestBuilder → RequestBuilder
unfolding Request.headers Request.body Request.timeout Request.follow_redirects Request.curl
setter (headers h) b = record { req = Request.headers h b.req }
setter (body p) b = record { req = Request.body p b.req }
setter (timeout t) b = record { req = Request.timeout t b.req }
setter (follow_redirects max) b = record { req = Request.follow_redirects max b.req }
setter (curl fn) b = record { req = Request.curl fn b.req }

-- A chain of setters.
unfoldable pub chain : List Setter → RequestBuilder → RequestBuilder
unfolding setter
chain [] b = b
chain (s ∷ ss) b = chain ss (setter s b)

-- get, post, put, patch and del: the request that perform hands on.
unfoldable pub perform : Method → RequestBuilder → Request
unfolding Request.method
perform m b = Request.method m b.req

-- async_get
unfoldable pub async_get : Bytes → Request
unfolding Request.init
async_get url = Request.init url

-- async_post
unfoldable pub async_post : Bytes → Bytes → Request
unfolding Request.init Request.method Request.body
async_post url payload = Request.body payload (Request.method post (Request.init url))

-- The value that the last setter of a kind gives, or the one before the chain.
abbrev pub last_headers : List Setter → List Bytes → List Bytes
last_headers [] v = v
last_headers (headers h ∷ ss) v = last_headers ss h
last_headers (_ ∷ ss) v = last_headers ss v

abbrev pub last_body : List Setter → Bytes → Bytes
last_body [] v = v
last_body (body p ∷ ss) v = last_body ss p
last_body (_ ∷ ss) v = last_body ss v

abbrev pub last_timeout : List Setter → ℤ → ℤ
last_timeout [] v = v
last_timeout (timeout t ∷ ss) v = last_timeout ss t
last_timeout (_ ∷ ss) v = last_timeout ss v

abbrev pub last_redirects : List Setter → ℤ → ℤ
last_redirects [] v = v
last_redirects (follow_redirects max ∷ ss) v = last_redirects ss max
last_redirects (_ ∷ ss) v = last_redirects ss v

abbrev pub last_curl : List Setter → Option (List Setting) → Option (List Setting)
last_curl [] v = v
last_curl (curl fn ∷ ss) v = last_curl ss (some fn)
last_curl (_ ∷ ss) v = last_curl ss v

chain_lem :
    (ss : List Setter) (b : RequestBuilder) (m : Method)
    → perform m (chain ss b) ≡ record {
      address = b.req.address;
      verb = m;
      header_lines = last_headers ss b.req.header_lines;
      payload = last_body ss b.req.payload;
      time_limit = last_timeout ss b.req.time_limit;
      redirect_limit = last_redirects ss b.req.redirect_limit;
      curl_setup = last_curl ss b.req.curl_setup;
    }
unfolding chain perform
chain_lem [] b m = refl
chain_lem (headers h ∷ ss) b m = chain_lem ss (setter (headers h) b) m
chain_lem (body p ∷ ss) b m = chain_lem ss (setter (body p) b) m
chain_lem (timeout t ∷ ss) b m = chain_lem ss (setter (timeout t) b) m
chain_lem (follow_redirects max ∷ ss) b m = chain_lem ss (setter (follow_redirects max) b) m
chain_lem (curl fn ∷ ss) b m = chain_lem ss (setter (curl fn) b) m

-- A chain of setters ended by a verb starts the request that has the verb's method and, of each
-- setter, the last value that the chain gives, or else the default: no header, no body, 5 seconds,
-- no redirects, no hook.
pub perform-chain :
    (url : Bytes) (ss : List Setter) (m : Method)
    → perform m (chain ss (request url)) ≡ record {
      address = url;
      verb = m;
      header_lines = last_headers ss [];
      payload = last_body ss [];
      time_limit = last_timeout ss (pos 5000);
      redirect_limit = last_redirects ss (pos 0);
      curl_setup = last_curl ss none;
    }
unfolding request
perform-chain url ss m = chain_lem ss (request url) m
