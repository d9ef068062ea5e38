-- ===== src/Examples/Unique.antt =====
-- The completion of a request whose handler has a name of its own is the only one.
use mathlib.Core.List.{map-append}
use cofetch.Base.{
  map, ℕ, ◌+◌, ◌≡◌, ◌≢◌, refl, ap, ◌∙◌, true, Bool, false, List, [], ◌∷◌, Option, none, some, ◌==◌,
  if◌then◌else◌, arith, All, count_where, count_where-Perm, ==_refl,
}
use cofetch.Client.Once.{Lives-complete}
use cofetch.Client.System.{System, Lives, ran_posts}
use cofetch.Examples.Answered.{Quiet}
use cofetch.Examples.Sync.{handler_of, calls_made}
use cofetch.Sockets.{SocketState}
use cofetch.Transfers.Completions.{called}
use cofetch.Transfers.{Handler, Completion}

abbrev names : ℕ → Option Handler → Bool
names n none = false
names n (some h) = h.name == n

-- The completion is for a handler with this name.
abbrev pub is_for : ℕ → Completion → Bool
is_for n p = names n p.handler

-- No handler has this name.
abbrev pub IsFresh : ℕ → List Handler → Type 0
IsFresh n hs = All (λ h. h.name ≢ n) hs

count_fresh : (n : ℕ) (hs : List Handler) → IsFresh n hs → count_where (names n) (map some hs) ≡ 0
count_fresh n [] f = refl
count_fresh n (h ∷ hs) (other, f) =
    let miss : (h.name == n) ≡ false = ground arith in rw miss (omega (arith, count_fresh n hs f))

count_called :
    (n : ℕ) (ps : List Completion) → count_where (is_for n) ps ≡ count_where (names n) (called ps)
count_called n [] = refl
count_called n (p ∷ ps) = ap (λ k. (if is_for n p then 1 else 0) + k) (count_called n ps)

-- When everything is over, one completion was for the handler.
pub one_answer :
    {cap : ℕ} {blank : SocketState} {hs : List Handler} {s : System} (n : ℕ)
    → Lives cap blank (handler_of n ∷ hs) s
    → s.client.alive ≡ true
    → Quiet s
    → IsFresh n hs
    → count_where (is_for n) (calls_made s) ≡ 1
one_answer {hs} {s} n r here quiet fresh =
    let called_all = Lives-complete r here quiet.0 quiet.1 in
    let hit : (n == n) ≡ true = ==_refl n in
    count_called n (calls_made s)
    ∙ ap (count_where (names n))
        (map-append (λ p. p.handler) (ran_posts s) s.client.flights.delivered)
    ∙ count_where-Perm (names n) called_all
    ∙ rw (hit, count_fresh n hs fresh) refl
