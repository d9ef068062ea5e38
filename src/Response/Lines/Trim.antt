-- ===== src/Response/Lines/Trim.antt =====
-- trim takes the blanks off both ends.
use cofetch.Base.{
  ℕ, zero, suc, ◌+◌, ◌-◌, ◌<◌, ◌≡◌, refl, sym, ap, ◌∙◌, false, [], ◌∷◌, none, some, take, drop,
  length, arith, ◌≢◌, Bool-cases, inl, inr, ◌⊎◌,
}
use cofetch.Response.Views.{
  elem, first_not_of_at, last_not_of_at, find_first_not_of, find_last_not_of,
}
use cofetch.Response.Fields.{blanks, trim, trim_between}
use cofetch.Response.Lines.{strip_left, strip_right, strip}
use cofetch.Response.{Bytes}

first_not_of_at_lem :
    (i : ℕ) (s : Bytes)
    → ((first_not_of_at blanks i s ≡ none) × (strip_left s ≡ []))
      ⊎ ((k j x : ℕ) × (t : Bytes) × (j ≡ i + k)
          × (first_not_of_at blanks i s ≡ some j)
          × (drop k s ≡ x ∷ t)
          × (elem x blanks ≡ false)
          × (strip_left s ≡ x ∷ t))
unfolding first_not_of_at
first_not_of_at_lem i [] = inl (refl, refl)
first_not_of_at_lem i (x ∷ s) = elim (Bool-cases (elem x blanks)) [
  | inr stop ↦ inr (0, i, x, s, omega arith, rw stop, refl, stop, rw stop)
  | inl blank ↦ elim (first_not_of_at_lem (i + 1) s) [
    | inl (e, f) ↦ inl (rw blank e, rw blank f)
    | inr (k, j, y, t, at, e, d, n, f) ↦
        inr (suc k, j, y, t, omega arith, rw blank e, d, n, rw blank f)
  ]
]

strip_right-cons :
    (x k : ℕ) (s : Bytes)
    → k < length s
    → strip_right s ≡ take (suc k) s
    → strip_right (x ∷ s) ≡ x ∷ take (suc k) s
strip_right-cons x k [] h e = absurd (omega arith)
strip_right-cons x k (y ∷ s) h e = rw e

last_not_of_at_lem :
    (i : ℕ) (s : Bytes)
    → ((last_not_of_at blanks i s ≡ none) × (strip_right s ≡ []))
      ⊎ ((k j : ℕ) × (j ≡ i + k)
          × (k < length s)
          × (last_not_of_at blanks i s ≡ some j)
          × (strip_right s ≡ take (suc k) s))
unfolding last_not_of_at
last_not_of_at_lem i [] = inl (refl, refl)
last_not_of_at_lem i (x ∷ s) = elim (last_not_of_at_lem (i + 1) s) [
  | inl (e, f) ↦ elim (Bool-cases (elem x blanks)) [
    | inl blank ↦ inl (rw (e, blank), rw (f, blank))
    | inr stop ↦ inr (0, i, omega arith, omega arith, rw (e, stop), rw (f, stop))
  ]
  | inr (k, j, at, within, e, f) ↦
      inr (suc k, j, omega arith, omega arith, rw e, strip_right-cons x k s within f)
]

-- The last byte that is not blank is the same seen from the first one that is not.
last_not_of_at-drop :
    (b i m j : ℕ) (s : Bytes)
    → i + b ≡ m
    → last_not_of_at blanks m (drop b s) ≡ some j
    → last_not_of_at blanks i s ≡ some j
unfolding last_not_of_at
last_not_of_at-drop zero i m j s p e = let q : i ≡ m = omega arith in rw q e
last_not_of_at-drop (suc b) i m j [] p e = cc
last_not_of_at-drop (suc b) i m j (x ∷ s) p e =
    rw (last_not_of_at-drop b (i + 1) m j s (omega arith) e, last_not_of_at)

strip_right_stop : (x : ℕ) (s : Bytes) → elem x blanks ≡ false → strip_right (x ∷ s) ≢ []
strip_right_stop x s stop e = ground arith

-- A header's name and value lose the blanks at both ends, and no others.
pub trim-strip : (s : Bytes) → trim s ≡ strip s
unfolding trim trim_between find_first_not_of find_last_not_of
trim-strip s = elim (first_not_of_at_lem 0 s) [
  | inl (e, f) ↦ rw (e, f)
  | inr (k, j, x, t, at, e, d, stop, f) ↦ elim (last_not_of_at_lem k (drop k s)) [
    | inl (g, m) ↦ absurd (strip_right_stop x t stop (rw d at m))
    | inr (l, p, q, within, g, m) ↦
        let j' : j ≡ k = omega arith in
        let count : p - k + 1 ≡ suc l = omega arith in
        rw (e, last_not_of_at-drop k 0 k p s (omega arith) g, j', count, f)
          (sym m ∙ ap strip_right d)
  ]
]
