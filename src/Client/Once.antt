-- ===== src/Client/Once.antt =====
-- Each handler is called once, through all of a client's life and its end.
use mathlib.Core.Path.{subst}
use cofetch.Base.{
  ℤ, ◌⊎◌, ℕ, zero, suc, ◌-◌, ◌≡◌, ◌<◌, false, refl, sym, ap, ◌∙◌, true, List, [], ◌∷◌, ◌++◌, some,
  map, Perm, take, drop, length, append_assoc, arith, inl, inr,
}
use cofetch.Client.Sane.{user_call-Sane, timers-Sane}
use cofetch.Client.Sane.Handlers.{posted_kick-Sane, timer_handler-Sane, socket_handler-Sane}
use cofetch.Client.Gone.{
  true_is_false, Whole, new_client-Sane, finish-Gone, same-Gone, posted_kick-Gone,
  timer_handler-Gone, socket_handler-Gone,
}
use cofetch.Client.System.{
  System, pending, invoked, Lives, made, used, kicked, expired, timed, woken, post_ran, destroyed,
}
use cofetch.Sockets.Armed
use cofetch.Sockets.Owned.{Owned}
use cofetch.Sockets.Events.{Callback, callbacks}
use cofetch.Sockets.Waits.{has_state}
use cofetch.Client.{finish, destroy}
use cofetch.Client.Severed.{finish-shut}
use cofetch.Sockets.{SocketState}
use cofetch.Timers.Wake
use cofetch.Timers.Wake.{expire-Inv}
use cofetch.Transfers.Completions.{held, called, handlers}
use cofetch.Response.{Bytes}
use cofetch.Transfers.Errors.{AllTold, Reach-AllTold}
use cofetch.Transfers.Lists.{Accounted, freed, built, Reach-Accounted}
use cofetch.Transfers.Reach.{Reach-handlers, Reach-Inv}
use cofetch.Transfers.Invariant
use cofetch.Transfers.{Handler, Completion}

Lives-Whole :
    {cap : ℕ} {blank : SocketState} {hs : List Handler} {s : System}
    → Lives cap blank hs s
    → Whole cap hs s
Lives-Whole {cap} {blank} made = inl (new_client-Sane cap blank, refl)
Lives-Whole (used u r here p) = elim (Lives-Whole r) [
  | inl (w, d) ↦ inl (user_call-Sane u p w, d)
  | inr g ↦ absurd (true_is_false (sym here ∙ g.dead))
]
Lives-Whole (kicked a r out p) = elim (Lives-Whole r) [
  | inl (w, d) ↦ inl (posted_kick-Sane a out p w, d)
  | inr g ↦ inr (posted_kick-Gone a g)
]
Lives-Whole (expired r) = elim (Lives-Whole r) [
  | inl (w, d) ↦ inl (timers-Sane (expire-Inv w.timers) w, d)
  | inr g ↦ inr (same-Gone refl refl refl g)
]
Lives-Whole (timed failed a r p) = elim (Lives-Whole r) [
  | inl (w, d) ↦ inl (timer_handler-Sane failed a p w, d)
  | inr g ↦ inr (timer_handler-Gone failed a g)
]
Lives-Whole (woken a p reading x r out e) = elim (Lives-Whole r) [
  | inl (w, d) ↦ inl (socket_handler-Sane a p reading x out e w, d)
  | inr g ↦ inr (socket_handler-Gone a p reading x g)
]
Lives-Whole (post_ran r _) = Lives-Whole r
Lives-Whole (destroyed ks ts r here) = elim (Lives-Whole r) [
  | inl (w, d) ↦ inr (finish-Gone ks ts w)
  | inr g ↦ absurd (true_is_false (sym here ∙ g.dead))
]

called-take-drop :
    (n : ℕ) (ps : List Completion) → called (take n ps) ++ called (drop n ps) ≡ called ps
called-take-drop zero ps = refl
called-take-drop (suc n) [] = refl
called-take-drop (suc n) (p ∷ ps) = ap (◌∷◌ p.handler) (called-take-drop n ps)

handlers-pending :
    (s : System)
    → handlers s.client.flights
      ≡ held s.client.flights.transfers ++ (called (pending s) ++ invoked s)
handlers-pending s =
    let n = length s.client.flights.posted - s.ran in
    let ps = s.client.flights.posted in
    let delivered = called s.client.flights.delivered in
    ap (λ l. held s.client.flights.transfers ++ l)
      (sym (
        sym (append_assoc (called (take n ps)) (called (drop n ps)) delivered)
        ∙ ap (λ l. l ++ delivered) (called-take-drop n ps)))

-- In every state of a client and its io_context, also when the client is gone, each handler that was
-- started is in one place: dropped with the client, with its transfer in flight, in one completion
-- that is posted and has not run, or called.
pub Lives-handlers :
    {cap : ℕ} {blank : SocketState} {hs : List Handler} {s : System}
    → Lives cap blank hs s
    → Perm
        (s.dropped ++ (held s.client.flights.transfers ++ (called (pending s) ++ invoked s)))
        (map some hs)
Lives-handlers {hs} {s} r = rw (← handlers-pending s) (elim (Lives-Whole r) [
  | inl (w, d) ↦
      subst (λ l. Perm (l ++ handlers s.client.flights) (map some hs)) (sym d)
        (Reach-handlers w.flights)
  | inr g ↦ g.kept
])

living-dropped :
    {cap : ℕ} {blank : SocketState} {hs : List Handler} {s : System}
    → Lives cap blank hs s
    → s.client.alive ≡ true
    → s.dropped ≡ []
living-dropped r here = elim (Lives-Whole r) [
  | inl (w, d) ↦ d
  | inr g ↦ absurd (true_is_false (sym here ∙ g.dead))
]

-- When nothing is in flight and every post has run, while the client is there, each handler that was
-- started has been called, once.
pub Lives-complete :
    {cap : ℕ} {blank : SocketState} {hs : List Handler} {s : System}
    → Lives cap blank hs s
    → s.client.alive ≡ true
    → s.client.flights.transfers ≡ []
    → s.ran ≡ length s.client.flights.posted
    → Perm (invoked s) (map some hs)
Lives-complete {hs} {s} r here quiet over =
    let ts = s.client.flights.transfers in
    let ps = s.client.flights.posted in
    let none_left : length ps - s.ran ≡ 0 = omega arith in
    subst (λ l. Perm l (map some hs))
      (ap (λ l. l ++ (held ts ++ (called (pending s) ++ invoked s))) (living-dropped r here)
        ∙ ap (λ l. held l ++ (called (pending s) ++ invoked s)) quiet
        ∙ ap (λ n. called (take n ps) ++ invoked s) none_left)
      (Lives-handlers r)

-- While the client is there, whatever libcurl calls back, whatever handlers do and in whatever order
-- the io_context runs things: the pool is within its cap, and every easy handle made and not freed is
-- in one node; an armed
-- timer has a wait at its deadline or one that is over, and a kick is posted exactly while one is
-- pending; and a socket has one wait outstanding for each direction that is armed, and none for others.
pub Lives-parts :
    {cap : ℕ} {blank : SocketState} {hs : List Handler} {s : System}
    → Lives cap blank hs s
    → s.client.alive ≡ true
    → Invariant.Inv s.client.flights × Wake.Inv s.client.timers × Armed.Inv s.client.sockets
Lives-parts r here = elim (Lives-Whole r) [
  | inl (w, d) ↦ (Reach-Inv w.flights, w.timers, w.sockets)
  | inr g ↦ absurd (true_is_false (sym here ∙ g.dead))
]

pub Lives-Owned :
    {cap : ℕ} {blank : SocketState} {hs : List Handler} {s : System}
    → Lives cap blank hs s
    → s.client.alive ≡ true
    → Owned s.client.given s.client.sockets
Lives-Owned r here = elim (Lives-Whole r) [
  | inl (w, d) ↦ w.owned
  | inr g ↦ absurd (true_is_false (sym here ∙ g.dead))
]

-- The destructor closes each socket that the client has made until then, and each that it has in its map
-- at the end because libcurl has opened or borrowed it in the destructor, whatever happened before and
-- whatever libcurl calls back meanwhile.
pub Lives-shut :
    {cap : ℕ} {blank : SocketState} {hs : List Handler} {s : System} (p : ℕ) (ks : List Callback)
    (ts : List (ℕ × ℤ))
    → Lives cap blank hs s
    → s.client.alive ≡ true
    → (p < s.client.sockets.next)
      ⊎ (has_state p (callbacks ks (destroy s.client).sockets).sockets ≡ true)
    → ((finish ks ts s.client).sockets.states p).is_open ≡ false
Lives-shut {s} p ks ts r here known = finish-shut s.client p ks ts (Lives-Owned r here) known

-- Once the client is gone, every easy handle has been freed as often as it was made, be its transfer in
-- flight or its node idle when the client ended, or freed before.
pub Lives-freed :
    {cap : ℕ} {blank : SocketState} {hs : List Handler} {s : System} (e : ℕ)
    → Lives cap blank hs s
    → s.client.alive ≡ false
    → Invariant.made e s.client.flights.calls ≡ Invariant.cleaned e s.client.flights.calls
Lives-freed e r gone = elim (Lives-Whole r) [
  | inl (w, d) ↦ absurd (true_is_false (sym w.living ∙ gone))
  | inr g ↦ g.cleaned_up e
]

-- While the client is there each header list that it has built is with a transfer in flight, which has
-- just this list, or has been freed, once.
pub Lives-Accounted :
    {cap : ℕ} {blank : SocketState} {hs : List Handler} {s : System}
    → Lives cap blank hs s
    → s.client.alive ≡ true
    → Accounted s.client.flights
Lives-Accounted r here = elim (Lives-Whole r) [
  | inl (w, d) ↦ Reach-Accounted w.flights
  | inr g ↦ absurd (true_is_false (sym here ∙ g.dead))
]

-- Once the client is gone each header list that it has built has been freed, once, be its transfer done
-- or in flight when the client ended.
pub Lives-lists :
    {cap : ℕ} {blank : SocketState} {hs : List Handler} {s : System}
    → Lives cap blank hs s
    → s.client.alive ≡ false
    → Perm (freed s.client.flights.calls) (built s.client.flights.calls)
Lives-lists r gone = elim (Lives-Whole r) [
  | inl (w, d) ↦ absurd (true_is_false (sym w.living ∙ gone))
  | inr g ↦ g.lists
]

-- In every state of a client and its io_context, also when the client is gone, each completion, posted or
-- called, has an error code that tests true exactly when its response has a CURLcode other than
-- CURLE_OK, and whose message, if it is in curl_category, is what the response's `error()` gives.
pub Lives-AllTold :
    {cap : ℕ} {blank : SocketState} {hs : List Handler} {s : System} (strerror : ℕ → Bytes)
    → Lives cap blank hs s
    → AllTold strerror s.client.flights
Lives-AllTold strerror r = elim (Lives-Whole r) [
  | inl (w, d) ↦ Reach-AllTold strerror w.flights
  | inr g ↦ g.told strerror
]
