-- ===== src/Response/Fields.antt =====
-- Response::for_each_field, trim, headers and header of include/cofetch.h.
use cofetch.Base.{
  ℕ, zero, suc, ◌+◌, ◌-◌, not, List, [], ◌∷◌, ◌++◌, Option, none, some, ◌==◌, ltb, if◌then◌else◌,
  drop, length,
}
use cofetch.Response.Case.{ci_equal}
use cofetch.Response.Views.{substr, find, rfind, find_first_not_of, find_last_not_of}
use cofetch.Response.{Bytes, Response}

abbrev pub blanks : Bytes
blanks = b' ' ∷ b'\t' ∷ []

-- `trim`, on the two searches' results. `none` of the second is never met with `some` of the first.
unfoldable pub trim_between : Bytes → Option ℕ → Option ℕ → Bytes
trim_between s none e = []
trim_between s (some b) none = drop b s
trim_between s (some b) (some e) = substr b (e - b + 1) s

unfoldable pub trim : Bytes → Bytes
trim s = trim_between s (find_first_not_of blanks s) (find_last_not_of blanks s)

-- `if (!line.empty() && line.back() == '\r') line.remove_suffix(1)`
unfoldable pub remove_cr : Bytes → Bytes
remove_cr [] = []
remove_cr (c ∷ []) = if c == b'\r' then [] else c ∷ []
remove_cr (c ∷ d ∷ s) = c ∷ remove_cr (d ∷ s)

-- "\nHTTP/"
abbrev pub status_mark : Bytes
status_mark = b'\n' ∷ b'H' ∷ b'T' ∷ b'T' ∷ b'P' ∷ b'/' ∷ []

-- The line that opens at `pos`, up to the newline if one is found, and where the next one opens.
unfoldable pub next_line : Bytes → ℕ → Option ℕ → Bytes × ℕ
next_line sv pos none = (substr pos (length sv - pos) sv, length sv)
next_line sv pos (some nl) = (substr pos (nl - pos) sv, nl + 1)

-- Where the final response begins: behind the newline of the last "\nHTTP/".
unfoldable pub block_start : Option ℕ → ℕ
block_start none = 0
block_start (some last_status) = last_status + 1

module _ {ℓ} {S : Type ℓ} (f : Bytes → Bytes → S → S) where
  -- The callback on the line's name and value, if a colon is found.
  unfoldable pub visit_colon : Bytes → Option ℕ → S → S
  visit_colon line none s = s
  visit_colon line (some colon) s = f (trim (substr 0 colon line)) (trim (drop (colon + 1) line)) s

  unfoldable pub visit_line : Bytes → S → S
  unfolding visit_colon
  visit_line line s = visit_colon (remove_cr line) (find b':' 0 (remove_cr line)) s

  -- `while (pos < sv.size())`. Each round moves `pos` up, so `sv.size()` rounds are enough.
  unfoldable pub field_loop : ℕ → Bytes → ℕ → S → S
  unfolding next_line
  field_loop zero sv pos s = s
  field_loop (suc fuel) sv pos s =
      let line = next_line sv pos (find b'\n' pos sv) in
      let more = field_loop fuel sv line.1 (visit_line line.0 s) in
      if ltb pos (length sv) then more else s

  unfoldable pub for_each_field : Response → S → S
  unfolding block_start
  for_each_field r s =
      field_loop (length r.header_data) r.header_data
        (block_start (rfind status_mark r.header_data)) s

-- ", "
abbrev pub comma : Bytes
comma = b',' ∷ b' ' ∷ []

-- The unordered_map with CiHash and CiEqual, as an association list.
abbrev pub Headers : Type 0
Headers = List (Bytes × Bytes)

-- `try_emplace`, and the append to the value that is there already.
unfoldable pub add_field : Bytes → Bytes → Headers → Headers
add_field name value [] = (name, value) ∷ []
add_field name value ((k, v) ∷ m) =
    if ci_equal k name then (k, v ++ (comma ++ value)) ∷ m else (k, v) ∷ add_field name value m

unfoldable pub headers : Response → Headers
headers r = for_each_field add_field r []

-- The callback of `header`, on what is found so far.
unfoldable pub note_field : Bytes → Bytes → Bytes → Option Bytes → Option Bytes
note_field name field value found =
    if not (ci_equal field name)
    then found
    else elim found [ none ↦ some value | some old ↦ some (old ++ (comma ++ value)) ]

unfoldable pub header : Bytes → Response → Option Bytes
header name r = for_each_field (note_field name) r none
