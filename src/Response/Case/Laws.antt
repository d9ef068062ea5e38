-- ===== src/Response/Case/Laws.antt =====
-- CiEqual is the equality of the lower-case names, and CiHash agrees with it.
use cofetch.Base.{
  ℕ, zero, suc, ◌+◌, ◌*◌, ◌%◌, ◌≡◌, ◌↔◌, refl, sym, ap, ◌∙◌, true, [], ◌∷◌, length, get_or, map,
  arith, drop,
}
use cofetch.Response.{Bytes}
use cofetch.Response.Case.{ascii_lower, hash_from, ci_hash, size_mod, equal_from, ci_equal}

abbrev pub lower : Bytes → Bytes
lower = map ascii_lower

get_or-drop :
    (s : Bytes) (i : ℕ) (x : ℕ) (t : Bytes)
    → drop i s ≡ x ∷ t
    → (get_or s i 0 ≡ x) × (drop (i + 1) s ≡ t)
get_or-drop [] zero x t e = cc
get_or-drop [] (suc i) x t e = cc
get_or-drop (y ∷ s) zero x t e = (ground arith, ground arith)
get_or-drop (y ∷ s) (suc i) x t e = ground (arith, get_or-drop s i x t e)

equal_from_iff :
    (i : ℕ) (a b s t : Bytes)
    → drop i a ≡ s
    → drop i b ≡ t
    → length s ≡ length t
    → (equal_from (length s) i a b ≡ true) ↔ (lower s ≡ lower t)
unfolding equal_from
equal_from_iff i a b [] [] p q e = (λ _. refl, λ _. refl)
equal_from_iff i a b [] (y ∷ t) p q e = absurd (omega arith)
equal_from_iff i a b (x ∷ s) [] p q e = absurd (omega arith)
equal_from_iff i a b (x ∷ s) (y ∷ t) p q e =
    let (ax, as') = get_or-drop a i x s p in
    let (by, bs) = get_or-drop b i y t q in
    let ih = equal_from_iff (i + 1) a b s t as' bs (omega arith) in
    rw (ax, by) (λ h. ground (arith, ih.0), λ h. ground (arith, ih.1))

length-lower : (a : Bytes) → length (lower a) ≡ length a
length-lower [] = refl
length-lower (x ∷ a) = ap suc (length-lower a)

-- CiEqual holds of two names exactly when they are the same name in lower case.
pub ci_equal_iff : (a b : Bytes) → (ci_equal a b ≡ true) ↔ (lower a ≡ lower b)
unfolding ci_equal
ci_equal_iff a b = (forward, backward)
  where
    forward : ci_equal a b ≡ true → lower a ≡ lower b
    forward h = (equal_from_iff 0 a b a b refl refl (ground arith)).0 (ground arith)

    backward : lower a ≡ lower b → ci_equal a b ≡ true
    backward h =
        let same : length a ≡ length b = sym (length-lower a) ∙ ap length h ∙ length-lower b in
        ground (arith, (equal_from_iff 0 a b a b refl refl same).1 h)

hash_from-lower : (h : ℕ) (a b : Bytes) → lower a ≡ lower b → hash_from h a ≡ hash_from h b
unfolding hash_from
hash_from-lower h [] [] e = refl
hash_from-lower h [] (y ∷ b) e = cc
hash_from-lower h (x ∷ a) [] e = cc
hash_from-lower h (x ∷ a) (y ∷ b) e =
    rw (head_eq e) (hash_from-lower ((h * 31 + ascii_lower y) % size_mod) a b (tail_eq e))
  where
    head_eq : lower (x ∷ a) ≡ lower (y ∷ b) → ascii_lower x ≡ ascii_lower y
    head_eq p = cc

    tail_eq : lower (x ∷ a) ≡ lower (y ∷ b) → lower a ≡ lower b
    tail_eq p = cc

-- Names that CiEqual takes for equal have the same hash, as an unordered_map wants it.
pub ci_hash-ci_equal : (a b : Bytes) → ci_equal a b ≡ true → ci_hash a ≡ ci_hash b
unfolding ci_hash
ci_hash-ci_equal a b e = hash_from-lower 0 a b ((ci_equal_iff a b).0 e)

-- CiEqual is an equivalence.
pub ci_equal_refl : (a : Bytes) → ci_equal a a ≡ true
ci_equal_refl a = (ci_equal_iff a a).1 refl

pub ci_equal_symm : (a b : Bytes) → ci_equal a b ≡ ci_equal b a
ci_equal_symm a b =
    ground (
      arith,
      (ci_equal_iff a b).0,
      (ci_equal_iff a b).1,
      (ci_equal_iff b a).0,
      (ci_equal_iff b a).1,
    )

-- Names that are equal are equal to the same names.
pub ci_equal_cong : (a b c : Bytes) → ci_equal a b ≡ true → ci_equal a c ≡ ci_equal b c
ci_equal_cong a b c e =
    let same = (ci_equal_iff a b).0 e in
    ground (
      arith,
      same,
      (ci_equal_iff a c).0,
      (ci_equal_iff a c).1,
      (ci_equal_iff b c).0,
      (ci_equal_iff b c).1,
    )
