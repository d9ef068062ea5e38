-- ===== src/Sockets/Keys.antt =====
-- The map from descriptors: its keys are distinct, and what is found behind a change of it.
use cofetch.Base.{
  ℕ, ◌≡◌, ◌≢◌, refl, List, [], ◌∷◌, none, some, ◌==◌, if◌then◌else◌, arith, Bool-cases, inl, inr,
  ==_iff,
}
use cofetch.Sockets.{find, erase, put}

-- No two entries of the map have the same key.
abbrev pub Absent : ℕ → List (ℕ × ℕ) → Type 0
Absent fd [] = Unit {0}
Absent fd ((k, p) ∷ m) = (k ≢ fd) × Absent fd m

abbrev pub DistinctKeys : List (ℕ × ℕ) → Type 0
DistinctKeys [] = Unit {0}
DistinctKeys ((k, p) ∷ m) = Absent k m × DistinctKeys m

find-Absent : (fd : ℕ) (m : List (ℕ × ℕ)) → Absent fd m → find fd m ≡ none
unfolding find
find-Absent fd [] a = refl
find-Absent fd ((k, p) ∷ m) a = ground (arith, find-Absent fd m a.1)

pub find-put :
    (g fd p : ℕ) (m : List (ℕ × ℕ)) → find g (put fd p m) ≡ (if fd == g then some p else find g m)
unfolding find put
find-put g fd p [] = refl
find-put g fd p ((k, q) ∷ m) = ground (arith, find-put g fd p m)

pub find-erase :
    (g fd : ℕ) (m : List (ℕ × ℕ))
    → DistinctKeys m
    → find g (erase fd m) ≡ (if fd == g then none else find g m)
unfolding find erase
find-erase g fd [] d = ground arith
find-erase g fd ((k, q) ∷ m) d = elim (Bool-cases (k == fd)) [
  | inl hit ↦
      let same : k ≡ fd = (==_iff k fd).0 hit in rw hit (ground (arith, find-Absent k m d.0))
  | inr miss ↦ rw miss (ground (arith, find-erase g fd m d.1))
]

Absent-put : (g fd p : ℕ) (m : List (ℕ × ℕ)) → fd ≢ g → Absent g m → Absent g (put fd p m)
unfolding put
Absent-put g fd p [] n a = (n, tt)
Absent-put g fd p ((k, q) ∷ m) n a = ground (arith, Absent-put g fd p m n a.1)

pub DistinctKeys-put : (fd p : ℕ) (m : List (ℕ × ℕ)) → DistinctKeys m → DistinctKeys (put fd p m)
unfolding put
DistinctKeys-put fd p [] d = (tt, tt)
DistinctKeys-put fd p ((k, q) ∷ m) d = elim (Bool-cases (k == fd)) [
  | inl hit ↦ let same : k ≡ fd = (==_iff k fd).0 hit in rw hit (ground arith)
  | inr miss ↦ rw miss (Absent-put k fd p m (ground arith) d.0, DistinctKeys-put fd p m d.1)
]

Absent-erase : (g fd : ℕ) (m : List (ℕ × ℕ)) → Absent g m → Absent g (erase fd m)
unfolding erase
Absent-erase g fd [] a = tt
Absent-erase g fd ((k, q) ∷ m) a = ground (arith, Absent-erase g fd m a.1)

pub DistinctKeys-erase : (fd : ℕ) (m : List (ℕ × ℕ)) → DistinctKeys m → DistinctKeys (erase fd m)
unfolding erase
DistinctKeys-erase fd [] d = tt
DistinctKeys-erase fd ((k, q) ∷ m) d = elim (Bool-cases (k == fd)) [
  | inl hit ↦ rw hit d.1
  | inr miss ↦ rw miss (Absent-erase k fd m d.0, DistinctKeys-erase fd m d.1)
]
