-- ===== src/Baseline/Served.antt =====
-- The requests of the epoll client and their callbacks.
use mathlib.Core.List.{perm_middle, Nodup}
use mathlib.Core.List.Perm
use mathlib.Core.Path.{subst}
use cofetch.Base.{
  ℕ, ◌≡◌, refl, ◌∙◌, List, [], ◌∷◌, map, Option, none, some, ◌==◌, Bool-cases, Option-cases, inl,
  inr, Perm, ==_iff, ℤ,
}
use cofetch.Baseline.Polls.{
  UserCall, user_call, user_calls, find_info, erase_info, call_back, release, Message, deliver,
}
use cofetch.Baseline.Requests.{RequestInfo, Requests, Ready, process_events, init}
use cofetch.Baseline.Kept.{
  target, waiting, answered, callbacks, easy_handles, found, Keeps, Same-Keeps, update-Same,
  process_events-Same, made_by, fns_by, Fresh, user_call-Keeps,
}
use cofetch.Baseline.Reactions.{
  made_by_all, fns_by_all, AllFresh, user_calls-Keeps, user_calls-found, fns_by_all-cons,
}

found-find :
    (e : ℕ) (t : ℕ × ℕ) (is : List RequestInfo)
    → found e is ≡ some t
    → (i : RequestInfo) × (find_info e is ≡ some i) × (target i ≡ t)
unfolding find_info
found-find e t [] h = cc
found-find e t (i ∷ is) h = elim (Bool-cases (i.eh == e)) [
  | inl hit ↦ let same : target i ≡ t = cc (rw hit at h) in (i, rw hit refl, same)
  | inr miss ↦ rw miss (found-find e t is (rw miss at h))
]

find-found :
    (e : ℕ) (i : RequestInfo) (is : List RequestInfo)
    → find_info e is ≡ some i
    → (found e is ≡ some (target i)) × (i.eh ≡ e)
unfolding find_info
find-found e i [] h = cc
find-found e i (j ∷ is) h = elim (Bool-cases (j.eh == e)) [
  | inl hit ↦
      let same : j ≡ i = cc (rw hit at h) in
      subst (λ k. (found e (j ∷ is) ≡ some (target k)) × (k.eh ≡ e)) same
        (rw hit refl, (==_iff j.eh e).0 hit)
  | inr miss ↦ rw miss (find-found e i is (rw miss at h))
]

-- What a request has moves from the requests to the end of the list.
erase_info-perm :
    {B : Type 0} (f : RequestInfo → B) (e : ℕ) (i : RequestInfo) (is : List RequestInfo)
    → find_info e is ≡ some i
    → Perm (map f is) (f i ∷ map f (erase_info e is))
unfolding find_info erase_info
erase_info-perm f e i [] h = cc
erase_info-perm f e i (j ∷ is) h = elim (Bool-cases (j.eh == e)) [
  | inl hit ↦
      let same : j ≡ i = cc (rw hit at h) in
      rw hit (subst (λ k. Perm (f j ∷ map f is) (f k ∷ map f is)) same (Perm.refl _))
  | inr miss ↦ rw miss (
      Perm.trans (Perm.cons (f j) (erase_info-perm f e i is (rw miss at h)))
        (Perm.swap (f i) (f j) _))
]

call_back-Keeps :
    {made : List ℕ} {fns : List (ℕ × ℕ)} {http : Requests} (code : ℕ) (status : ℤ) (i : RequestInfo)
    → Keeps made fns http
    → Keeps made (target i ∷ fns) (call_back code status i http)
unfolding call_back
call_back-Keeps {http} code status i k =
    let s =
      update-Same i.eh (λ j. record j { buffer = []; header_buffer = [] }) http (λ j. refl)
        (λ j. refl) in
    let k' = Same-Keeps s k in
    record {
      callbacks_kept = Perm.trans (perm_middle _ _) (Perm.cons (target i) k'.callbacks_kept);
      handles_kept = k'.handles_kept;
      distinct = k.distinct;
    }

call_back-found :
    (code : ℕ) (status : ℤ) (i : RequestInfo) (http : Requests) (e : ℕ)
    → found e (call_back code status i http).request_infos ≡ found e http.request_infos
unfolding call_back
call_back-found code status i http e =
    (update-Same i.eh (λ j. record j { buffer = []; header_buffer = [] }) http (λ j. refl)
        (λ j. refl)).found_same
      e

release-Keeps :
    {made : List ℕ} {fns : List (ℕ × ℕ)} (http : Requests) (e : ℕ) (t : ℕ × ℕ)
    → found e http.request_infos ≡ some t
    → Keeps made (t ∷ fns) http
    → Keeps made fns (release e http)
unfolding release
release-Keeps {made} {fns} http e t h k =
    let (i, there, same) = found-find e t http.request_infos h in
    let p = erase_info-perm target e i http.request_infos there in
    let q = erase_info-perm (λ j. j.eh) e i http.request_infos there in
    let p' =
      subst (λ x. Perm (waiting http.request_infos) (x ∷ waiting (erase_info e http.request_infos)))
        same p in
    rw (there, release)
      (record {
        callbacks_kept =
            Perm.cons_inv (
              Perm.trans (Perm.symm (Perm.append_right (answered http.called) p'))
                k.callbacks_kept);
        handles_kept =
            Perm.trans (perm_middle _ _)
              (Perm.trans (Perm.symm (Perm.append_right http.eh_pool q)) k.handles_kept);
        distinct = k.distinct;
      })

-- What the callbacks of a list of messages make and start.
abbrev made_by_reaction : Option RequestInfo → Message → Requests → List ℕ → List ℕ
made_by_reaction none m http made = made
made_by_reaction (some i) m http made =
    made_by_all m.reaction (call_back m.curl_code m.http_code i http) made

abbrev fns_by_reaction : Option RequestInfo → Message → List (ℕ × ℕ) → List (ℕ × ℕ)
fns_by_reaction none m fns = fns
fns_by_reaction (some i) m fns = fns_by_all m.reaction fns

abbrev FreshReaction : Option RequestInfo → Message → Requests → List ℕ → Type 0
FreshReaction none m http made = Unit
FreshReaction (some i) m http made =
    AllFresh m.reaction (call_back m.curl_code m.http_code i http) made

abbrev pub receiver : Message → Requests → Option RequestInfo
receiver m http = find_info m.handle http.request_infos

deliver-Keeps :
    {made : List ℕ} {fns : List (ℕ × ℕ)} (m : Message) (http : Requests)
    → FreshReaction (receiver m http) m http made
    → Keeps made fns http
    → Keeps
        (made_by_reaction (receiver m http) m http made)
        (fns_by_reaction (receiver m http) m fns)
        (deliver m http)
unfolding deliver
deliver-Keeps {made} {fns} m http new k = elim (Option-cases (receiver m http)) [
  | inl gone ↦ rw (gone, deliver) k
  | inr (i, there) ↦
      let after = call_back m.curl_code m.http_code i http in
      let new' : AllFresh m.reaction after made = rw there at new in
      let k' = call_back-Keeps m.curl_code m.http_code i k in
      let h =
        call_back-found m.curl_code m.http_code i http m.handle
        ∙ (find-found m.handle i http.request_infos there).0 in
      let all = user_calls-Keeps m.reaction made _ after new' k' in
      let still = user_calls-found m.reaction made _ after m.handle (target i) new' k' h in
      let counted : Keeps (made_by_all m.reaction after made) (target i ∷ fns_by_all m.reaction fns)
          (user_calls m.reaction after) =
        record {
          callbacks_kept =
              Perm.trans all.callbacks_kept (fns_by_all-cons m.reaction (target i) fns);
          handles_kept = all.handles_kept;
          distinct = all.distinct;
        } in
      rw (there, deliver) (release-Keeps _ m.handle (target i) still counted)
]

-- `Serves pool made fns http`: from a new client with this pool to `http`, where `made` are the pool's
-- handles and those made since, and `fns` the callbacks of the requests, each with its custom data,
-- newest first. What `curl_easy_init` makes is new.
pub data Serves (pool : List ℕ) : List ℕ → List (ℕ × ℕ) → Requests → Type 0 where
  initial : Nodup pool → Serves pool pool [] (init pool)
  used :
      {made : List ℕ} {fns : List (ℕ × ℕ)} {http : Requests} (u : UserCall)
      → Serves pool made fns http
      → Fresh u made
      → Serves pool (made_by u http made) (fns_by u fns) (user_call u http)
  ready :
      {made : List ℕ} {fns : List (ℕ × ℕ)} {http : Requests} (r : Ready)
      → Serves pool made fns http
      → Serves pool made fns (process_events r http)
  read :
      {made : List ℕ} {fns : List (ℕ × ℕ)} {http : Requests} (m : Message)
      → Serves pool made fns http
      → FreshReaction (receiver m http) m http made
      → Serves pool
          (made_by_reaction (receiver m http) m http made)
          (fns_by_reaction (receiver m http) m fns)
          (deliver m http)

Serves-Keeps :
    {pool made : List ℕ} {fns : List (ℕ × ℕ)} {http : Requests}
    → Serves pool made fns http
    → Keeps made fns http
unfolding init
Serves-Keeps (initial d) = record {
  callbacks_kept = Perm.refl _;
  handles_kept = Perm.refl _;
  distinct = d;
}
Serves-Keeps (used u r new) = user_call-Keeps u new (Serves-Keeps r)
Serves-Keeps (ready {http} x r) = Same-Keeps (process_events-Same x http) (Serves-Keeps r)
Serves-Keeps (read {http} m r new) = deliver-Keeps m http new (Serves-Keeps r)

-- In every state that the epoll client's requests lead to, whatever requests callbacks make while a
-- message is read, the callback of each request is either with its request or called, once, and with
-- the custom data that came with it. Each easy handle of the first pool or made since is in the pool
-- or with one request.
pub Serves-callbacks :
    {pool made : List ℕ} {fns : List (ℕ × ℕ)} {http : Requests}
    → Serves pool made fns http
    → Perm (callbacks http) fns × Perm (easy_handles http) made
Serves-callbacks r = let k = Serves-Keeps r in (k.callbacks_kept, k.handles_kept)
