-- ===== src/Examples/Launched.antt =====
-- Programs that start requests and run the io_context until nothing is left: what they print.
use mathlib.Core.List.{mem-cons_self, mem-cons_of_mem}
use mathlib.Core.Path.{subst}
use cofetch.Base.{
  ℕ, zero, suc, ◌+◌, length, length-Perm, length-append, length-map, ◌≡◌, ◌<◌, ◌⊎◌, ◌==◌,
  Bool-cases, ◌∙◌, inl, inr, refl, sym, ap, true, List, Option, some, map, Perm, Mem, arith,
}
use cofetch.Client.Calls.{CurlCall}
use cofetch.Client.Gone.{new_client-Sane}
use cofetch.Client.Once.{Lives-complete}
use cofetch.Client.Promises.{UserPromised}
use cofetch.Client.Sane.{Sane, user_call-Sane}
use cofetch.Client.System.{System, new_system, Lives, used, made, invoked, ran_posts}
use cofetch.Examples.Answered.{Drains, IsAnswer, Good, found_when-Quiet, found-Mem}
use cofetch.Examples.Programs.{first_handlers, Program, say_of, printed, launch_request, launch_all}
use cofetch.Examples.Sync.{calls_made, handler_of}
use cofetch.Request.{Request}
use cofetch.Sockets.{SocketState}
use cofetch.Transfers.Completions.{called}
use cofetch.Transfers.{Completion}

-- kDefaultMaxPooledHandles
abbrev pub default_pool : ℕ
default_pool = 64

module _ (request : ℕ → Request) (blank : SocketState) (inits : ℕ → Option ℕ) (rcs : ℕ → ℕ)
    (calls : ℕ → List CurlCall) where
  -- The program behind the start of n requests.
  abbrev pub launched : ℕ → System
  launched n = launch_all request inits rcs calls n (new_system default_pool blank)

  -- What libcurl and the system promise of the starts.
  abbrev pub Launches : ℕ → Type 0
  Launches zero = Unit {0}
  Launches (suc n) =
      Launches n × UserPromised (launch_request request inits rcs calls n) (launched n).client

  launched-Sane :
      (n : ℕ)
      → Launches n
      → Lives default_pool blank (first_handlers n) (launched n)
        × Sane default_pool 0 (first_handlers n) (launched n).client
  unfolding launch_all launch_request
  launched-Sane zero p = (made, new_client-Sane default_pool blank)
  launched-Sane (suc n) p =
      let (lives, sane) = launched-Sane n p.0 in
      let next = launch_request request inits rcs calls n in
      (used next lives sane.living p.1, user_call-Sane next p.1 sane)

  pub launched-Lives :
      (n : ℕ)
      → Launches n
      → Lives default_pool blank (first_handlers n) (launched n)
        × ((launched n).client.alive ≡ true)
  launched-Lives n p = let (lives, sane) = launched-Sane n p in (lives, sane.living)

Mem-first_handlers : (i n : ℕ) → i < n → Mem (handler_of i) (first_handlers n)
Mem-first_handlers i zero h = absurd (omega arith)
Mem-first_handlers i (suc n) h = elim (last_or_before i n h) [
  | inl here ↦ subst (λ k. Mem (handler_of k) (first_handlers (suc n))) (sym here) mem-cons_self
  | inr before ↦ mem-cons_of_mem (handler_of n) (Mem-first_handlers i n before)
]
  where
    last_or_before : (a b : ℕ) → a < suc b → (a ≡ b) ⊎ (a < b)
    last_or_before a b h = elim (Bool-cases (a == b)) [
      | inl e ↦ inl (ground arith)
      | inr d ↦ inr (ground arith)
    ]

say-IsAnswer :
    (p : Program) (i : ℕ) (c : Completion)
    → IsAnswer i c
    → say_of p c.handler c ≡ p.say i c.error c.response
say-IsAnswer p i c (h, e, n) = ap (λ o. say_of p o c) e ∙ ap (λ k. p.say k c.error c.response) n

length-printed : (p : Program) (s : System) → length (printed p s) ≡ length (invoked s)
length-printed p s =
    length-map (λ c. say_of p c.handler c) (calls_made s)
    ∙ length-append (ran_posts s) s.client.flights.delivered
    ∙ sym (
        length-append (called (ran_posts s)) (called s.client.flights.delivered) ∙ (λ i.
          length-map (λ c. c.handler) (ran_posts s) i
          + length-map (λ c. c.handler) s.client.flights.delivered i))

length-first_handlers : (n : ℕ) → length (map some (first_handlers n)) ≡ n
length-first_handlers zero = refl
length-first_handlers (suc n) = ap suc (length-first_handlers n)

-- When a program has started its requests, and `io.run()` runs only what is queued and returns when
-- nothing is in flight and every post has run, then each request's handler has been called, once. For
-- each request it was with a completion whose error code tests true exactly when the CURLcode is not
-- CURLE_OK, and what the handler says to this completion has been printed; and nothing else has been: there
-- are as many texts as requests.
pub prints_each :
    (p : Program) (blank : SocketState) (inits : ℕ → Option ℕ) (rcs : ℕ → ℕ)
    (calls : ℕ → List CurlCall) (io_run : System → System) (i : ℕ)
    → Launches p.request blank inits rcs calls p.count
    → Drains default_pool blank
        (first_handlers p.count)
        io_run
        (launched p.request blank inits rcs calls p.count)
    → i < p.count
    → let last = io_run (launched p.request blank inits rcs calls p.count) in
      Perm (invoked last) (map some (first_handlers p.count))
      × (length (printed p last) ≡ p.count)
      × ((c : Completion) × IsAnswer i c
          × Good c
          × Mem (p.say i c.error c.response) (printed p last))
prints_each p blank inits rcs calls io_run i promised drains h =
    let (lives, here) = launched-Lives p.request blank inits rcs calls p.count promised in
    let (over, still, quiet) = drains lives here in
    let last = io_run (launched p.request blank inits rcs calls p.count) in
    let (c, found, good, mine) =
      found_when-Quiet i over still quiet (Mem-first_handlers i p.count h) in
    let all = Lives-complete over still quiet.0 quiet.1 in
    (
      all,
      length-printed p last ∙ length-Perm all ∙ length-first_handlers p.count,
      (
        c,
        mine,
        good,
        subst (λ t. Mem t (printed p last)) (say-IsAnswer p i c mine)
            (found-Mem (λ d. say_of p d.handler d) i (calls_made last) c found),
      ),
    )
