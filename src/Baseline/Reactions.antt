-- ===== src/Baseline/Reactions.antt =====
-- The epoll client's requests through the calls that a callback makes.
use mathlib.Core.List.{Nodup, Nodup-cons, mem-cons_self, mem-cons_of_mem}
use mathlib.Core.List.Nodup
use mathlib.Core.List.Perm
use mathlib.Core.Path.{subst}
use cofetch.Base.{
  ℕ, ◌≡◌, sym, ◌∙◌, List, [], ◌∷◌, ◌++◌, some, ◌==◌, Bool-cases, inl, inr, Perm, Mem, ==_iff, false,
}
use cofetch.Baseline.Polls.{
  UserCall, asks, sets_headers, sets_body, enables_headers, sends, user_call, user_calls,
}
use cofetch.Baseline.Requests.{
  RequestInfo, Requests, request, request_from, prepare, enable_response_headers,
}
use cofetch.Baseline.Kept.{
  in_use, found, Keeps, made_by, fns_by, Fresh, user_call-Keeps, set_headers-Same, set_body-Same,
  send-Same,
}

found-Mem : (e : ℕ) (t : ℕ × ℕ) (is : List RequestInfo) → found e is ≡ some t → Mem e (in_use is)
found-Mem e t [] h = cc
found-Mem e t (i ∷ is) h = elim (Bool-cases (i.eh == e)) [
  | inl hit ↦ subst (λ x. Mem x (in_use (i ∷ is))) ((==_iff i.eh e).0 hit) mem-cons_self
  | inr miss ↦ mem-cons_of_mem i.eh (found-Mem e t is (rw miss at h))
]

-- No request that is there has the handle of the request in front.
front_alone :
    {made : List ℕ} (eh e : ℕ) (t : ℕ × ℕ) (is : List RequestInfo) (pool : List ℕ)
    → Perm (eh ∷ (in_use is ++ pool)) made
    → Nodup made
    → found e is ≡ some t
    → (eh == e) ≡ false
front_alone eh e t is pool p d h = elim (Bool-cases (eh == e)) [
  | inl hit ↦
      let all : Nodup ((eh ∷ in_use is) ++ pool) = (Perm.Nodup-iff p).1 d in
      let (alone, rest) = Nodup-cons.0 (Nodup.of_append_left pool all) in
      absurd
        (alone (subst (λ x. Mem x (in_use is)) (sym ((==_iff eh e).0 hit)) (found-Mem e t is h)))
  | inr miss ↦ miss
]

-- A request of a callback does not hide the request whose callback it is.
request_from-found :
    {made : List ℕ} {fns : List (ℕ × ℕ)} (http : Requests) (ehs : List ℕ) (fresh : ℕ) (u : List ℕ)
    (fn d e : ℕ) (t : ℕ × ℕ)
    → Keeps made fns (request_from ehs fresh u fn d http)
    → found e http.request_infos ≡ some t
    → found e (request_from ehs fresh u fn d http).request_infos ≡ some t
unfolding request_from prepare
request_from-found http [] fresh u fn d e t k h =
    rw (front_alone fresh e t http.request_infos _ k.handles_kept k.distinct h) h
request_from-found http (eh ∷ ehs) fresh u fn d e t k h =
    rw (front_alone eh e t http.request_infos _ k.handles_kept k.distinct h) h

user_call-found :
    {made : List ℕ} {fns : List (ℕ × ℕ)} (http : Requests) (u : UserCall) (e : ℕ) (t : ℕ × ℕ)
    → Keeps made fns (user_call u http)
    → found e http.request_infos ≡ some t
    → found e (user_call u http).request_infos ≡ some t
unfolding user_call request enable_response_headers
user_call-found http (asks fresh u fn d) e t k h =
    request_from-found http http.eh_pool fresh u fn d e t k h
user_call-found http (sets_headers x headers) e t k h =
    (set_headers-Same x headers http).found_same e ∙ h
user_call-found http (sets_body x fields) e t k h = (set_body-Same x fields http).found_same e ∙ h
user_call-found http (enables_headers x) e t k h = h
user_call-found http (sends v x a ready) e t k h = (send-Same v x a ready http).found_same e ∙ h

-- The same for what a list of calls makes.
abbrev pub made_by_all : List UserCall → Requests → List ℕ → List ℕ
made_by_all [] http made = made
made_by_all (u ∷ us) http made = made_by_all us (user_call u http) (made_by u http made)

abbrev pub fns_by_all : List UserCall → List (ℕ × ℕ) → List (ℕ × ℕ)
fns_by_all [] fns = fns
fns_by_all (u ∷ us) fns = fns_by_all us (fns_by u fns)

abbrev pub AllFresh : List UserCall → Requests → List ℕ → Type 0
AllFresh [] http made = Unit
AllFresh (u ∷ us) http made = Fresh u made × AllFresh us (user_call u http) (made_by u http made)

pub user_calls-Keeps :
    (us : List UserCall) (made : List ℕ) (fns : List (ℕ × ℕ)) (http : Requests)
    → AllFresh us http made
    → Keeps made fns http
    → Keeps (made_by_all us http made) (fns_by_all us fns) (user_calls us http)
unfolding user_calls
user_calls-Keeps [] made fns http new k = k
user_calls-Keeps (u ∷ us) made fns http new k =
    user_calls-Keeps us _ _ _ new.1 (user_call-Keeps u new.0 k)

pub user_calls-found :
    (us : List UserCall) (made : List ℕ) (fns : List (ℕ × ℕ)) (http : Requests) (e : ℕ) (t : ℕ × ℕ)
    → AllFresh us http made
    → Keeps made fns http
    → found e http.request_infos ≡ some t
    → found e (user_calls us http).request_infos ≡ some t
unfolding user_calls
user_calls-found [] made fns http e t new k h = h
user_calls-found (u ∷ us) made fns http e t new k h =
    let k' = user_call-Keeps u new.0 k in
    user_calls-found us _ _ (user_call u http) e t new.1 k' (user_call-found http u e t k' h)

-- One request more, before a list of calls or behind it.
pub fns_by_all-perm :
    (us : List UserCall) (a b : List (ℕ × ℕ)) → Perm a b → Perm (fns_by_all us a) (fns_by_all us b)
fns_by_all-perm [] a b p = p
fns_by_all-perm (asks fresh u fn d ∷ us) a b p = fns_by_all-perm us _ _ (Perm.cons (fn, d) p)
fns_by_all-perm (sets_headers e headers ∷ us) a b p = fns_by_all-perm us a b p
fns_by_all-perm (sets_body e fields ∷ us) a b p = fns_by_all-perm us a b p
fns_by_all-perm (enables_headers e ∷ us) a b p = fns_by_all-perm us a b p
fns_by_all-perm (sends v e x ready ∷ us) a b p = fns_by_all-perm us a b p

pub fns_by_all-cons :
    (us : List UserCall) (t : ℕ × ℕ) (fns : List (ℕ × ℕ))
    → Perm (fns_by_all us (t ∷ fns)) (t ∷ fns_by_all us fns)
fns_by_all-cons [] t fns = Perm.refl _
fns_by_all-cons (asks fresh u fn d ∷ us) t fns =
    Perm.trans (fns_by_all-perm us _ _ (Perm.swap t (fn, d) fns)) (fns_by_all-cons us t _)
fns_by_all-cons (sets_headers e headers ∷ us) t fns = fns_by_all-cons us t fns
fns_by_all-cons (sets_body e fields ∷ us) t fns = fns_by_all-cons us t fns
fns_by_all-cons (enables_headers e ∷ us) t fns = fns_by_all-cons us t fns
fns_by_all-cons (sends v e x ready ∷ us) t fns = fns_by_all-cons us t fns
