-- ===== src/Bench/Cells.antt =====
-- A row of comma-separated values, read back: its columns are what run_bench.sh gets.

use cofetch.Base.{ℕ, ◌≡◌, refl, ap, false, List, [], ◌∷◌, ◌++◌, ◌==◌, if◌then◌else◌, arith}
use cofetch.Response.{Bytes}
use cofetch.Response.Views.{elem}

-- The first column gets this byte in front.
abbrev push : ℕ → List Bytes → List Bytes
push x [] = (x ∷ []) ∷ []
push x (c ∷ cs) = (x ∷ c) ∷ cs

-- The columns of a text's first line.
abbrev pub read_row : Bytes → List Bytes
read_row [] = [] ∷ []
read_row (x ∷ s) =
    let rest = read_row s in
    if x == b',' then [] ∷ rest else if x == b'\n' then [] ∷ [] else push x rest

-- The text has no comma and no newline.
abbrev pub IsCell : Bytes → Type 0
IsCell t = (elem b',' t ≡ false) × (elem b'\n' t ≡ false)

IsCell-cons :
    (x : ℕ) (t : Bytes) → IsCell (x ∷ t) → ((x == b',') ≡ false) × ((x == b'\n') ≡ false) × IsCell t
unfolding elem
IsCell-cons x t h = ground arith

pub read_row-comma : (t rest : Bytes) → IsCell t → read_row (t ++ b',' ∷ rest) ≡ t ∷ read_row rest
unfolding elem
read_row-comma [] rest h = refl
read_row-comma (x ∷ t) rest h =
    let (no_comma, no_newline, more) = IsCell-cons x t h in
    rw (no_comma, no_newline) (ap (push x) (read_row-comma t rest more))

pub read_row-newline : (t rest : Bytes) → IsCell t → read_row (t ++ b'\n' ∷ rest) ≡ t ∷ []
unfolding elem
read_row-newline [] rest h = refl
read_row-newline (x ∷ t) rest h =
    let (no_comma, no_newline, more) = IsCell-cons x t h in
    rw (no_comma, no_newline) (ap (push x) (read_row-newline t rest more))

pub IsCell-append : (s t : Bytes) → IsCell s → IsCell t → IsCell (s ++ t)
unfolding elem
IsCell-append [] t h k = k
IsCell-append (x ∷ s) t h k =
    let (_, _, more) = IsCell-cons x s h in let (a, b) = IsCell-append s t more k in ground arith
