-- ===== src/Baseline/Watched.antt =====
-- The epoll set follows what libcurl asks for.
use cofetch.Base.{
  ℕ, ◌≡◌, refl, ap, ◌∙◌, Bool, true, false, List, [], ◌∷◌, Option, none, some, ◌==◌, if◌then◌else◌,
  arith, zero, suc, All, Bool-cases, inl, inr, ◌+◌, ◌/◌, ◌%◌, ◌≤◌, ◌<◌,
}
use cofetch.Baseline.{
  EpollCall, ctl_add, ctl_mod, ctl_del, Http, poll_remove, epollin, epollout, e_table, has, erase,
  socket_fn, init,
}

abbrev added : ℕ → Option ℕ → Option ℕ
added ev none = some ev
added ev (some old) = some old

abbrev modified : ℕ → Option ℕ → Option ℕ
modified ev none = none
modified ev (some old) = some ev

-- The events that the epoll instance has for this descriptor. EPOLL_CTL_ADD fails for one that it
-- has, and EPOLL_CTL_MOD for one that it does not have.
abbrev pub interest : ℕ → List EpollCall → Option ℕ
interest s [] = none
interest s (ctl_add t ev ∷ cs) = if t == s then added ev (interest s cs) else interest s cs
interest s (ctl_mod t ev ∷ cs) = if t == s then modified ev (interest s cs) else interest s cs
interest s (ctl_del t ∷ cs) = if t == s then none else interest s cs

-- libcurl's calls of socket_fn, the first one first.
unfoldable pub run : List (ℕ × ℕ) → Http → Http
unfolding socket_fn
run [] http = http
run ((s, epe) ∷ tells) http = run tells (socket_fn s epe http)

-- The events for an interest of libcurl: EPOLLIN if it has the bit CURL_POLL_IN, and EPOLLOUT if it has
-- the bit CURL_POLL_OUT.
abbrev pub events : ℕ → ℕ
events epe = (if epe % 2 == 1 then epollin else 0) + (if epe / 2 % 2 == 1 then epollout else 0)

-- The events that libcurl wants for a descriptor by its last call for it, or `old` if there is none.
abbrev pub wanted : ℕ → List (ℕ × ℕ) → Option ℕ → Option ℕ
wanted s [] old = old
wanted s ((t, epe) ∷ tells) old =
    wanted s tells
      (if t == s then (if epe == poll_remove then none else some (events epe)) else old)

-- An interest that libcurl has.
abbrev pub IsInterest : ℕ × ℕ → Type 0
IsInterest (s, epe) = epe ≤ poll_remove

e_table_lem : (epe : ℕ) → epe < poll_remove → e_table epe ≡ events epe
unfolding e_table
e_table_lem zero h = refl
e_table_lem (suc zero) h = refl
e_table_lem (suc (suc zero)) h = refl
e_table_lem (suc (suc (suc zero))) h = refl
e_table_lem (suc (suc (suc (suc epe)))) h = absurd (omega arith)

abbrev is_some : Option ℕ → Bool
is_some none = false
is_some (some ev) = true

-- `fd_set_` has the descriptors that the epoll instance has.
abbrev Agrees : Http → Type 0
Agrees http = (s : ℕ) → has s http.fd_set ≡ is_some (interest s http.calls)

has-erase : (s t : ℕ) (ks : List ℕ) → has s (erase t ks) ≡ (if t == s then false else has s ks)
unfolding has erase
has-erase s t [] = ground arith
has-erase s t (k ∷ ks) = ground (arith, has-erase s t ks)

socket_fn-Agrees : (t epe : ℕ) (http : Http) → Agrees http → Agrees (socket_fn t epe http)
unfolding socket_fn has
socket_fn-Agrees t epe http a s = ground (arith, a s, a t, has-erase s t http.fd_set)

interest-socket_fn :
    (s t epe : ℕ) (http : Http)
    → epe ≤ poll_remove
    → Agrees http
    → interest s (socket_fn t epe http).calls ≡ (
        if t == s
        then (if epe == poll_remove then none else some (events epe))
        else interest s http.calls)
unfolding socket_fn
interest-socket_fn s t epe http h a = elim (Bool-cases (epe == poll_remove)) [
  | inl remove ↦ ground (arith, a s, a t)
  | inr keep ↦ rw⁻¹ (e_table_lem epe (ground arith)) (ground (arith, a s, a t))
]

interest-run :
    (s : ℕ) (tells : List (ℕ × ℕ)) (http : Http)
    → All IsInterest tells
    → Agrees http
    → interest s (run tells http).calls ≡ wanted s tells (interest s http.calls)
unfolding run
interest-run s [] http hs a = refl
interest-run s ((t, epe) ∷ tells) http (h, hs) a =
    interest-run s tells (socket_fn t epe http) hs (socket_fn-Agrees t epe http a)
    ∙ ap (wanted s tells) (interest-socket_fn s t epe http h a)

-- After any calls of socket_fn, each with an interest that libcurl has, the epoll instance has each
-- descriptor with the events of libcurl's last call for it, EPOLLIN for CURL_POLL_IN and EPOLLOUT for
-- CURL_POLL_OUT, and does not have one that libcurl never named or removed last.
pub run-wanted :
    (s : ℕ) (tells : List (ℕ × ℕ))
    → All IsInterest tells
    → interest s (run tells init).calls ≡ wanted s tells none
unfolding init has
run-wanted s tells hs = interest-run s tells init hs (λ t. refl)
