-- ===== src/Base/Parts.antt =====
-- Lists and their lengths up to order, and parts of a list.
use Prim.Native.Nat.{ℕ, suc, ◌+◌}
use mathlib.Core.List.Perm
use mathlib.Core.List.{List, [], ◌∷◌, ◌++◌, Perm, foldr}
use mathlib.Core.Bool.{Bool}
use cofetch.Base.Tests.{if◌then◌else◌}
use mathlib.Core.Path.{◌≡◌, refl, sym, ap, ◌∙◌}
use native.Mathlib.Omega.{arith}
use cofetch.Base.Lists.{length, length-append}

abbrev one_more : {A : Type 0} → A → ℕ → ℕ
one_more x n = suc n

length-foldr : {A : Type 0} (xs : List A) → length xs ≡ foldr one_more 0 xs
length-foldr [] = refl
length-foldr (x ∷ xs) = ap suc (length-foldr xs)

ℕ_set : IsSet ℕ
ℕ_set = hlevel

pub length-Perm : {A : Type 0} {xs ys : List A} → Perm xs ys → length xs ≡ length ys
length-Perm {A} {xs} {ys} p =
    length-foldr xs
    ∙ Perm.foldr-eq ℕ_set (one_more {A = A}) (λ x y n. refl) p 0
    ∙ sym (length-foldr ys)

-- How many entries pass a test.
abbrev pub count_where : {A : Type 0} → (A → Bool) → List A → ℕ
count_where test = foldr (λ x n. (if test x then 1 else 0) + n) 0

pub count_where-Perm :
    {A : Type 0} {xs ys : List A} (test : A → Bool)
    → Perm xs ys
    → count_where test xs ≡ count_where test ys
count_where-Perm {A} {xs} {ys} test p =
    Perm.foldr-eq ℕ_set (λ (x : A) (n : ℕ). (if test x then 1 else 0) + n) (λ x y n. omega arith) p
      0

pub length-parts :
    {A : Type 0} (xs ys zs ds : List A) {es : List A}
    → Perm (xs ++ (ys ++ (zs ++ ds))) es
    → length xs + (length ys + (length zs + length ds)) ≡ length es
length-parts xs ys zs ds p = omega (
  arith,
  length-Perm p,
  length-append xs (ys ++ (zs ++ ds)),
  length-append ys (zs ++ ds),
  length-append zs ds,
)

-- A part that is as long as the whole is the whole.
pub last_part :
    {A : Type 0} (xs ys zs ds : List A) {es : List A}
    → Perm (xs ++ (ys ++ (zs ++ ds))) es
    → length ds ≡ length es
    → Perm ds es
last_part [] [] [] ds p e = p
last_part (x ∷ xs) ys zs ds p e = absurd (omega (arith, length-parts (x ∷ xs) ys zs ds p))
last_part [] (y ∷ ys) zs ds p e = absurd (omega (arith, length-parts [] (y ∷ ys) zs ds p))
last_part [] [] (z ∷ zs) ds p e = absurd (omega (arith, length-parts [] [] (z ∷ zs) ds p))
