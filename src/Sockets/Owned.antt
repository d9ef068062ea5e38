-- ===== src/Sockets/Owned.antt =====
-- Which states the map has, which descriptors they hold and which are open.
use cofetch.Base.{
  ℕ, ◌≡◌, ◌≢◌, ◌<◌, sym, ap, ◌∙◌, Bool, true, false, ◌&&◌, ◌||◌, List, [], ◌∷◌, Option, none, some,
  ◌==◌, arith, Bool-cases, inl, inr, ==_refl,
}
use cofetch.Sockets.Closing.{Sound}
use cofetch.Sockets.Keys.{DistinctKeys, DistinctKeys-put, DistinctKeys-erase, find-put, find-erase}
use cofetch.Sockets.{Sockets, SocketState, SocketCall, dup_fd, register, find, erase}

-- The state at address p is made, open, named by the descriptor, and holds it or another one that is
-- its dup.
pub record Backs (fd n p : ℕ) (s : SocketState) : Type 0 where
  pub known : p < n
  pub same_fd : s.fd ≡ fd
  pub own : s.borrowed ≡ false → s.native ≡ fd
  pub lent : s.borrowed ≡ true → s.native ≢ fd
  pub still_open : s.is_open ≡ true

pub Backs-Sound : {fd n p : ℕ} {s : SocketState} → Backs fd n p s → Sound fd s
Backs-Sound b = record { own = b.own; lent = b.lent; still_open = b.still_open }

-- fcntl has dupped this descriptor to that one.
abbrev pub dups : ℕ → ℕ → List SocketCall → Bool
dups fd d [] = false
dups fd d (dup_fd g e ∷ cs) = (g == fd && e == d) || dups fd d cs
dups fd d (_ ∷ cs) = dups fd d cs

-- What was dupped in the one list of calls was in the other.
abbrev pub AllDups : List SocketCall → List SocketCall → Type 0
AllDups cs ds = (fd d : ℕ) → dups fd d cs ≡ true → dups fd d ds ≡ true

-- `given` is what curl_multi_assign has given libcurl for a descriptor that it watches. What the map
-- has for a descriptor backs it, and is what libcurl was given. Every state that is open is in the
-- map, so that no descriptor is lost. A borrowed state that is open holds a dup of its descriptor.
pub record Owned (given : ℕ → Option ℕ) (c : Sockets) : Type 0 where
  pub backed : (fd p : ℕ) → find fd c.sockets ≡ some p → Backs fd c.next p (c.states p)
  pub kept :
      (p : ℕ) → p < c.next → (c.states p).is_open ≡ true → find (c.states p).fd c.sockets ≡ some p
  pub assigned : (fd p : ℕ) → given fd ≡ some p → find fd c.sockets ≡ some p
  pub distinct : DistinctKeys c.sockets
  pub dupped :
      (p : ℕ)
      → p < c.next
      → (c.states p).is_open ≡ true
      → (c.states p).borrowed ≡ true
      → dups (c.states p).fd (c.states p).native c.calls ≡ true

pub register-Owned :
    {given : ℕ → Option ℕ} {c : Sockets} (fd native : ℕ) (borrowed : Bool)
    → find fd c.sockets ≡ none
    → (borrowed ≡ false → native ≡ fd)
    → (borrowed ≡ true → native ≢ fd)
    → (borrowed ≡ true → dups fd native c.calls ≡ true)
    → Owned given c
    → Owned given (register fd native borrowed c)
unfolding register
register-Owned {given} {c} fd native borrowed new own lent copied o = record {
  backed = λ g p e. ground (arith, find-put g fd c.next c.sockets, o.backed g p, own, lent);
  kept = λ p h e. ground (
    arith,
    find-put (c.states p).fd fd c.next c.sockets,
    find-put fd fd c.next c.sockets,
    o.kept p,
    ==_refl fd,
  );
  assigned = λ g p e. ground (arith, find-put g fd c.next c.sockets, o.assigned g p);
  distinct = DistinctKeys-put fd c.next c.sockets o.distinct;
  dupped = λ p h e k. ground (arith, o.dupped p, copied);
}

-- Two states agree but for what is watched and armed.
pub record Same (s t : SocketState) : Type 0 where
  pub fds : s.fd ≡ t.fd
  pub natives : s.native ≡ t.native
  pub borroweds : s.borrowed ≡ t.borrowed
  pub opens : s.is_open ≡ t.is_open

Backs-Same : {fd n m p : ℕ} {s t : SocketState} → Same s t → m ≡ n → Backs fd n p t → Backs fd m p s
Backs-Same a e b = record {
  known = omega (arith, b.known);
  same_fd = a.fds ∙ b.same_fd;
  own = λ h. a.natives ∙ b.own (sym a.borroweds ∙ h);
  lent = λ h k. b.lent (sym a.borroweds ∙ h) (sym a.natives ∙ k);
  still_open = a.opens ∙ b.still_open;
}

Same-dups :
    {s t : SocketState} (cs ds : List SocketCall)
    → Same s t
    → AllDups cs ds
    → dups t.fd t.native cs ≡ true
    → dups s.fd s.native ds ≡ true
Same-dups {s} {t} cs ds a more e =
    ap (λ f. dups f s.native ds) a.fds ∙ ap (λ n. dups t.fd n ds) a.natives ∙ more t.fd t.native e

pub native_fixed :
    {given : ℕ → Option ℕ} {c d : Sockets}
    → ((p : ℕ) → Same (d.states p) (c.states p))
    → d.next ≡ c.next
    → d.sockets ≡ c.sockets
    → AllDups c.calls d.calls
    → Owned given c
    → Owned given d
native_fixed {c} {d} same next map more o = record {
  backed = λ fd p e. Backs-Same (same p) next (o.backed fd p (sym (ap (find fd) map) ∙ e));
  kept = λ p h e.
      let s = same p in
      ap (λ f. find f d.sockets) s.fds
      ∙ ap (find (c.states p).fd) map
      ∙ o.kept p (omega (arith, next)) (sym s.opens ∙ e);
  assigned = λ fd p e. rw map (o.assigned fd p e);
  distinct = rw map o.distinct;
  dupped = λ p h e k.
      Same-dups c.calls d.calls (same p) more
        (o.dupped p (omega (arith, next)) (sym (same p).opens ∙ e) (sym (same p).borroweds ∙ k));
}

found-erase :
    (g fd q : ℕ) (m : List (ℕ × ℕ))
    → DistinctKeys m
    → find g (erase fd m) ≡ some q
    → (fd ≢ g) × (find g m ≡ some q)
found-erase g fd q m d e = elim (Bool-cases (fd == g)) [
  | inl hit ↦ absurd (none_is_some (sym (find-erase g fd m d ∙ rw hit) ∙ e))
  | inr miss ↦ (ground arith, sym (find-erase g fd m d ∙ rw miss) ∙ e)
]
  where
    none_is_some : ◌≡◌ {A = Option ℕ} none (some q) → ⊥
    none_is_some h = cc

find-erase_ne :
    (g fd : ℕ) (m : List (ℕ × ℕ)) → DistinctKeys m → fd ≢ g → find g (erase fd m) ≡ find g m
find-erase_ne g fd m d n = find-erase g fd m d ∙ ground arith

same_address : (p q : ℕ) → ◌≡◌ {A = Option ℕ} (some p) (some q) → p ≡ q
same_address p q e = cc

true_is_false : true ≡ false → ⊥
true_is_false e = cc

-- The state at p is closed and leaves the map.
pub gone_Owned :
    {given given' : ℕ → Option ℕ} {c d : Sockets} (fd p : ℕ)
    → find fd c.sockets ≡ some p
    → ((q : ℕ) → q ≢ p → Same (d.states q) (c.states q))
    → (d.states p).is_open ≡ false
    → d.next ≡ c.next
    → d.sockets ≡ erase fd c.sockets
    → ((g q : ℕ) → given' g ≡ some q → (g ≢ fd) × (given g ≡ some q))
    → AllDups c.calls d.calls
    → Owned given c
    → Owned given' d
gone_Owned {given} {given'} {c} {d} fd p at same shut next map fewer more o = record {
  backed = λ g q e.
      let (other, here) = found-erase g fd q c.sockets o.distinct (sym (ap (find g) map) ∙ e) in
      let apart : q ≢ p = λ h. other (
        sym (o.backed fd p at).same_fd
        ∙ ap (λ x. (c.states x).fd) (sym h)
        ∙ (o.backed g q here).same_fd) in
      Backs-Same (same q apart) next (o.backed g q here);
  kept = λ q h e.
      let apart : q ≢ p = λ x. true_is_false (sym e ∙ ap (λ y. (d.states y).is_open) x ∙ shut) in
      let s = same q apart in
      let here = o.kept q (omega (arith, next)) (sym s.opens ∙ e) in
      let other : fd ≢ (c.states q).fd =
        λ x. apart (same_address q p (sym here ∙ ap (λ g. find g c.sockets) (sym x) ∙ at)) in
      ap (λ f. find f d.sockets) s.fds
      ∙ ap (find (c.states q).fd) map
      ∙ find-erase_ne (c.states q).fd fd c.sockets o.distinct other
      ∙ here;
  assigned = λ g q e.
      let (other, old) = fewer g q e in
      ap (find g) map
      ∙ find-erase_ne g fd c.sockets o.distinct (λ x. other (sym x))
      ∙ o.assigned g q old;
  distinct = rw map (DistinctKeys-erase fd c.sockets o.distinct);
  dupped = λ q h e k.
      let apart : q ≢ p = λ x. true_is_false (sym e ∙ ap (λ y. (d.states y).is_open) x ∙ shut) in
      let s = same q apart in
      Same-dups c.calls d.calls s more
        (o.dupped q (omega (arith, next)) (sym s.opens ∙ e) (sym s.borroweds ∙ k));
}
