-- ===== src/Response/Lines.antt =====
-- What Response::for_each_field is meant to read, described line by line and with no positions.
pub mod Find
pub mod Trim
pub mod Blocks
pub mod Refine
pub mod RoundTrip
use cofetch.Base.{ℕ, Bool, false, ◌||◌, List, [], ◌∷◌, Option, none, some, ◌==◌, if◌then◌else◌}
use cofetch.Response.Views.{elem, starts_with}
use cofetch.Response.Fields.{blanks, remove_cr}
use cofetch.Response.{Bytes}

-- The first line grows by a byte.
abbrev pub extend_first : ℕ → List Bytes → List Bytes
extend_first c [] = (c ∷ []) ∷ []
extend_first c (l ∷ ls) = (c ∷ l) ∷ ls

-- The pieces between newlines, the last of them empty if the text ends in a newline.
abbrev pub lines : Bytes → List Bytes
lines [] = [] ∷ []
lines (c ∷ s) = if c == b'\n' then [] ∷ lines s else extend_first c (lines s)

-- "HTTP/"
abbrev pub http_slash : Bytes
http_slash = b'H' ∷ b'T' ∷ b'T' ∷ b'P' ∷ b'/' ∷ []

abbrev pub is_status : Bytes → Bool
is_status l = starts_with http_slash l

abbrev pub has_status : List Bytes → Bool
has_status [] = false
has_status (l ∷ ls) = is_status l || has_status ls

-- The lines from the last status line on, or all lines if no line but the first is one.
abbrev pub final_block : List Bytes → List Bytes
final_block [] = []
final_block (l ∷ ls) = if has_status ls then final_block ls else l ∷ ls

abbrev pub extend_left : ℕ → Option (Bytes × Bytes) → Option (Bytes × Bytes)
extend_left x none = none
extend_left x (some (a, b)) = some (x ∷ a, b)

-- What stands before and behind the first `c`.
abbrev pub cut : ℕ → Bytes → Option (Bytes × Bytes)
cut c [] = none
cut c (x ∷ s) = if x == c then some ([], s) else extend_left x (cut c s)

abbrev pub strip_left : Bytes → Bytes
strip_left [] = []
strip_left (x ∷ s) = if elem x blanks then strip_left s else x ∷ s

abbrev pub strip_right : Bytes → Bytes
strip_right [] = []
strip_right (x ∷ s) = elim (strip_right s) [
  | [] ↦ if elem x blanks then [] else x ∷ []
  | y ∷ t ↦ x ∷ y ∷ t
]

-- The text with no blank at either end.
abbrev pub strip : Bytes → Bytes
strip s = strip_right (strip_left s)

abbrev pub strip_both : Option (Bytes × Bytes) → Option (Bytes × Bytes)
strip_both none = none
strip_both (some (n, v)) = some (strip n, strip v)

-- A field's name and value, if the line has a colon.
abbrev pub parse_line : Bytes → Option (Bytes × Bytes)
parse_line line = strip_both (cut b':' (remove_cr line))

abbrev pub keep_field : Option (Bytes × Bytes) → List (Bytes × Bytes) → List (Bytes × Bytes)
keep_field none ps = ps
keep_field (some p) ps = p ∷ ps

abbrev pub fields_of : List Bytes → List (Bytes × Bytes)
fields_of [] = []
fields_of (l ∷ ls) = keep_field (parse_line l) (fields_of ls)

-- The fields of the final response in a block of header data.
abbrev pub final_fields : Bytes → List (Bytes × Bytes)
final_fields s = fields_of (final_block (lines s))

-- A callback run on each field in turn.
abbrev pub run_fields {ℓ} : {S : Type ℓ} → (Bytes → Bytes → S → S) → List (Bytes × Bytes) → S → S
run_fields f [] s = s
run_fields f ((n, v) ∷ ps) s = run_fields f ps (f n v s)
