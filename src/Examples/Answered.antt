-- ===== src/Examples/Answered.antt =====
-- The completion of one request among those that a program has started, when all are over.
use mathlib.Core.HLevel.{⊥_prop}
use mathlib.Core.List.Perm
use mathlib.Core.Path.{subst}
use mathlib.Core.List.{
  map-append, mem-map_of_mem, mem-cons_of_mem, not-mem-nil, mem-cons_self, eq-or-mem_of_mem-cons,
}
use mathlib.Core.Logic.Or
use cofetch.Base.{
  map, ℕ, ◌-◌, ◌≡◌, refl, sym, ap, ◌∙◌, true, false, not, List, [], ◌∷◌, Option, none, some, ◌==◌,
  if◌then◌else◌, arith, Bool-cases, Option-cases, inl, inr, Mem, All, All-append, All-drop, All-map,
  length, ◌⊎◌,
}
use cofetch.Client.Once.{Lives-complete, Lives-AllTold}
use cofetch.Client.System.{System, Lives, ran_posts}
use cofetch.Examples.Sync.{handler_of, calls_made, find_answer}
use cofetch.Response.{curle_ok}
use cofetch.Sockets.{SocketState}
use cofetch.Transfers.Completions.{called}
use cofetch.Transfers.Errors.{truthy, Told}
use cofetch.Transfers.{Handler, Completion}

-- Nothing is in flight, and every post has run.
abbrev pub Quiet : System → Type 0
Quiet s = (s.client.flights.transfers ≡ []) × (s.ran ≡ length s.client.flights.posted)

-- From this state `io_context::run` only runs what is queued, and returns when nothing is in flight and
-- every post has run.
abbrev pub Drains : ℕ → SocketState → List Handler → (System → System) → System → Type 0
Drains cap blank hs drain t =
    Lives cap blank hs t
    → t.client.alive ≡ true
    → Lives cap blank hs (drain t) × ((drain t).client.alive ≡ true) × Quiet (drain t)

-- The completion of the request n: that of a handler with its name.
abbrev pub IsAnswer : ℕ → Completion → Type 0
IsAnswer n p = (h : Handler) × (p.handler ≡ some h) × (h.name ≡ n)

abbrev Absent : ℕ → List Completion → Type 0
Absent n ps = (h : Handler) → h.name ≡ n → Mem (some h) (called ps) → ⊥

abbrev Answered : (Completion → Type 0) → ℕ → List Completion → Type 0
Answered P n ps =
    Absent n ps ⊎ ((p : Completion) × (find_answer n ps ≡ some p) × P p × IsAnswer n p)

-- A completion that is not that of the request changes nothing.
Answered-skip :
    (P : Completion → Type 0) (n : ℕ) (p : Completion) (ps : List Completion)
    → ((h : Handler) → h.name ≡ n → some h ≡ p.handler → ⊥)
    → find_answer n (p ∷ ps) ≡ find_answer n ps
    → Answered P n ps
    → Answered P n (p ∷ ps)
Answered-skip P n p ps other e (inl absent) =
    inl (λ h k m. Or.elim ⊥_prop (eq-or-mem_of_mem-cons m) (other h k) (absent h k))
Answered-skip P n p ps other e (inr (q, found, told, mine)) = inr (q, e ∙ found, told, mine)

find_answer-none :
    (n : ℕ) (p : Completion) (ps : List Completion)
    → p.handler ≡ none
    → find_answer n (p ∷ ps) ≡ find_answer n ps
unfolding find_answer
find_answer-none n p ps e = rw e refl

find_answer-some :
    (n : ℕ) (p : Completion) (ps : List Completion) (h : Handler)
    → p.handler ≡ some h
    → find_answer n (p ∷ ps) ≡ (if h.name == n then some p else find_answer n ps)
unfolding find_answer
find_answer-some n p ps h e = ground arith

abbrev name_of : ℕ → Option Handler → ℕ
name_of d none = d
name_of d (some h) = h.name

find_answer-Answered :
    (P : Completion → Type 0) (n : ℕ) (ps : List Completion) → All P ps → Answered P n ps
find_answer-Answered P n [] told = inl (λ h e m. not-mem-nil m)
find_answer-Answered P n (p ∷ ps) told = elim (Option-cases p.handler) [
  | inl e ↦
      Answered-skip P n p ps (λ h k same. some_is_none (same ∙ e)) (find_answer-none n p ps e)
        (find_answer-Answered P n ps told.1)
  | inr (h, e) ↦ elim (Bool-cases (h.name == n)) [
    | inl hit ↦ inr (p, find_answer-some n p ps h e ∙ rw hit refl, told.0, (h, e, ground arith))
    | inr miss ↦
        Answered-skip P n p ps
          (λ g k same. other_name g.name n h.name k (ap (name_of 0) (same ∙ e)) miss)
          (find_answer-some n p ps h e ∙ rw miss refl) (find_answer-Answered P n ps told.1)
  ]
]
  where
    some_is_none : {h : Handler} → ◌≡◌ {A = Option Handler} (some h) none → ⊥
    some_is_none q = cc

    other_name : (g m k : ℕ) → g ≡ m → g ≡ k → (k == m) ≡ false → ⊥
    other_name g m k e f miss = ground arith

-- The error code tests true exactly when the CURLcode is not CURLE_OK.
abbrev pub Good : Completion → Type 0
Good p = truthy p.error ≡ not (p.response.curl_code == curle_ok)

Told-Good : (ps : List Completion) → All (Told (λ code. [])) ps → All Good ps
Told-Good ps h = All-map (Told (λ code. [])) Good ps (λ p t. t.0) h

calls-Good :
    {cap : ℕ} {blank : SocketState} {hs : List Handler} {s : System}
    → Lives cap blank hs s
    → All Good (calls_made s)
calls-Good {s} r =
    let (posted, delivered) = Lives-AllTold (λ code. []) r in
    let behind = length s.client.flights.posted - s.ran in
    All-append Good (ran_posts s) s.client.flights.delivered
      (All-drop Good behind s.client.flights.posted (Told-Good s.client.flights.posted posted))
      (Told-Good s.client.flights.delivered delivered)

pub found-Mem :
    {B : Type 0} (f : Completion → B) (n : ℕ) (ps : List Completion) (p : Completion)
    → find_answer n ps ≡ some p
    → Mem (f p) (map f ps)
unfolding find_answer
found-Mem f n [] p e = cc
found-Mem f n (q ∷ ps) p e = elim (Option-cases q.handler) [
  | inl k ↦ mem-cons_of_mem (f q) (found-Mem f n ps p (sym (find_answer-none n q ps k) ∙ e))
  | inr (h, k) ↦ elim (Bool-cases (h.name == n)) [
    | inl hit ↦
        let same : q ≡ p = cc (rw hit at (sym (find_answer-some n q ps h k) ∙ e)) in
        subst (λ c. Mem (f c) (f q ∷ map f ps)) same mem-cons_self
    | inr miss ↦
        mem-cons_of_mem (f q)
          (found-Mem f n ps p (rw miss at (sym (find_answer-some n q ps h k) ∙ e)))
  ]
]

-- When everything is over, each request that was started has one completion that is found.
pub found_when-Quiet :
    {cap : ℕ} {blank : SocketState} {hs : List Handler} {s : System} (n : ℕ)
    → Lives cap blank hs s
    → s.client.alive ≡ true
    → Quiet s
    → Mem (handler_of n) hs
    → (p : Completion) × (find_answer n (calls_made s) ≡ some p) × Good p × IsAnswer n p
found_when-Quiet {s} n r here quiet m =
    let called_all = Lives-complete r here quiet.0 quiet.1 in
    elim (find_answer-Answered Good n (calls_made s) (calls-Good r)) [
      | inl absent ↦ absurd (
          absent (handler_of n) refl (
            subst (Mem (some (handler_of n)))
              (sym (map-append (λ p. p.handler) (ran_posts s) s.client.flights.delivered))
              ((Perm.mem_iff called_all).1 (mem-map_of_mem some m))))
      | inr found ↦ found
    ]
