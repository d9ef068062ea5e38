-- ===== src/Response/Lines/Blocks.antt =====
-- The last status line, found by position, opens the final block of lines.
use cofetch.Base.{
  ℕ, suc, ◌+◌, ◌≡◌, refl, sym, true, false, ◌&&◌, ◌||◌, List, [], ◌∷◌, none, some, ◌==◌, drop,
  arith, Bool-cases, inl, inr, ◌⊎◌,
}
use cofetch.Response.Views.{elem, starts_with, rfind_at, rfind}
use cofetch.Response.Fields.{status_mark}
use cofetch.Response.Lines.{lines, extend_first, http_slash, is_status, has_status, final_block}
use cofetch.Response.{Bytes}

abbrev first : List Bytes → Bytes
first [] = []
first (l ∷ ls) = l

abbrev rest : List Bytes → List Bytes
rest [] = []
rest (l ∷ ls) = ls

first-extend_first : (c : ℕ) (ls : List Bytes) → first (extend_first c ls) ≡ c ∷ first ls
first-extend_first c [] = refl
first-extend_first c (l ∷ ls) = refl

starts_with-first :
    (p s : Bytes) → elem b'\n' p ≡ false → starts_with p s ≡ starts_with p (first (lines s))
unfolding starts_with elem
starts_with-first [] s h = refl
starts_with-first (q ∷ p) [] h = refl
starts_with-first (q ∷ p) (x ∷ s) h =
    ground (arith, first-extend_first x (lines s), starts_with-first p s)

is_status-lines : (s : Bytes) → starts_with http_slash s ≡ is_status (first (lines s))
unfolding elem
is_status-lines s = starts_with-first http_slash s refl

has_status-rest : (ls : List Bytes) → has_status ls ≡ (is_status (first ls) || has_status (rest ls))
unfolding starts_with
has_status-rest [] = refl
has_status-rest (l ∷ ls) = refl

final_block_no_status : (ls : List Bytes) → has_status (rest ls) ≡ false → final_block ls ≡ ls
final_block_no_status [] h = refl
final_block_no_status (l ∷ ls) h = rw h

final_block-extend_first :
    (c : ℕ) (ls : List Bytes)
    → has_status (rest ls) ≡ true
    → final_block (extend_first c ls) ≡ final_block ls
final_block-extend_first c [] h = cc
final_block-extend_first c (l ∷ ls) h = rw h

rest-extend_first : (c : ℕ) (ls : List Bytes) → rest (extend_first c ls) ≡ rest ls
rest-extend_first c [] = refl
rest-extend_first c (l ∷ ls) = refl

abbrev FindsBlock : ℕ → Bytes → Type 0
FindsBlock i s =
    ((rfind_at status_mark i s ≡ none) × (has_status (rest (lines s)) ≡ false))
    ⊎ ((k j : ℕ) × (j ≡ i + k)
        × (rfind_at status_mark i s ≡ some j)
        × (has_status (rest (lines s)) ≡ true)
        × (lines (drop (suc k) s) ≡ final_block (lines s)))

starts_with-status_mark :
    (x : ℕ) (s : Bytes)
    → starts_with status_mark (x ∷ s) ≡ (b'\n' == x && is_status (first (lines s)))
unfolding starts_with
starts_with-status_mark x s = rw (← is_status-lines s)

FindsBlock-cons : (i x : ℕ) (s : Bytes) → FindsBlock (i + 1) s → FindsBlock i (x ∷ s)
unfolding rfind_at
FindsBlock-cons i x s (inr (k, j, at, e, h, f)) = inr (
  suc k,
  j,
  omega arith,
  rw e,
  ground (arith, has_status-rest (lines s), rest-extend_first x (lines s)),
  ground (arith, has_status-rest (lines s), final_block-extend_first x (lines s)),
)
FindsBlock-cons i x s (inl (e, h)) = elim (Bool-cases (b'\n' == x && is_status (first (lines s)))) [
  | inl hit ↦ inr (
    0,
    i,
    omega arith,
    rw (e, starts_with-status_mark x s, hit),
    ground (arith, has_status-rest (lines s)),
    ground (arith, has_status-rest (lines s), final_block_no_status (lines s)),
  )
  | inr miss ↦ inl (
    rw (e, starts_with-status_mark x s, miss),
    ground (arith, has_status-rest (lines s), rest-extend_first x (lines s)),
  )
]

rfind_at-FindsBlock : (i : ℕ) (s : Bytes) → FindsBlock i s
unfolding rfind_at starts_with
rfind_at-FindsBlock i [] = inl (refl, refl)
rfind_at-FindsBlock i (x ∷ s) = FindsBlock-cons i x s (rfind_at-FindsBlock (i + 1) s)

-- Where for_each_field begins, the lines are those of the final block.
pub lines-rfind :
    (s : Bytes)
    → ((rfind status_mark s ≡ none) × (lines s ≡ final_block (lines s)))
      ⊎ ((k : ℕ) × (rfind status_mark s ≡ some k)
          × (lines (drop (k + 1) s) ≡ final_block (lines s)))
unfolding rfind
lines-rfind s = elim (rfind_at-FindsBlock 0 s) [
  | inl (e, h) ↦ inl (e, sym (final_block_no_status (lines s) h))
  | inr (k, j, at, e, h, f) ↦ inr (j, e, let p : j + 1 ≡ suc k = omega arith in rw p f)
]
