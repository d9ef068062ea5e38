-- ===== src/Response/Lines/Find.antt =====
-- A search by position finds where `cut` cuts.
use cofetch.Base.{
  ℕ, suc, ◌+◌, ◌<◌, ◌≡◌, refl, [], ◌∷◌, none, some, ◌==◌, take, drop, length, arith, Bool-cases,
  Option-cases, inl, inr, ◌⊎◌,
}
use cofetch.Response.Views.{find_at}
use cofetch.Response.Lines.{lines, cut}
use cofetch.Response.{Bytes}

abbrev pub FindsCut : ℕ → ℕ → Bytes → Type 0
FindsCut c i s =
    ((find_at c i s ≡ none) × (cut c s ≡ none))
    ⊎ ((k j : ℕ) × (j ≡ i + k)
        × (k < length s)
        × (find_at c i s ≡ some j)
        × (cut c s ≡ some (take k s, drop (suc k) s)))

pub find_at-FindsCut : (c i : ℕ) (s : Bytes) → FindsCut c i s
unfolding find_at
find_at-FindsCut c i [] = inl (refl, refl)
find_at-FindsCut c i (x ∷ s) = elim (Bool-cases (x == c)) [
  | inl hit ↦ inr (0, i, omega arith, omega arith, rw hit, rw hit)
  | inr miss ↦ elim (find_at-FindsCut c (i + 1) s) [
    | inl (e, f) ↦ inl (rw miss e, rw (miss, f))
    | inr (k, j, at, within, e, f) ↦
        inr (suc k, j, omega arith, omega arith, rw miss e, rw (miss, f))
  ]
]

-- The lines of a text, by its first newline.
pub lines-cut-none : (s : Bytes) → cut b'\n' s ≡ none → lines s ≡ s ∷ []
lines-cut-none [] e = refl
lines-cut-none (x ∷ s) e = ground (arith, lines-cut-none s)

pub lines-cut-some : (s a r : Bytes) → cut b'\n' s ≡ some (a, r) → lines s ≡ a ∷ lines r
lines-cut-some [] a r e = cc
lines-cut-some (x ∷ s) a r e = elim (Option-cases (cut b'\n' s)) [
  | inl f ↦ ground arith
  | inr ((b, q), f) ↦ ground (arith, lines-cut-some s b q)
]
