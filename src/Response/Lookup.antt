-- ===== src/Response/Lookup.antt =====
-- Response::headers and Response::header agree, and hold the combined values of the final response.
use cofetch.Base.{
  ◌≡◌, refl, ap, ◌∙◌, false, List, [], ◌∷◌, ◌++◌, Option, none, some, if◌then◌else◌, arith,
  Bool-cases, inl, inr,
}
use cofetch.Response.Case.{ci_equal}
use cofetch.Response.Case.Laws.{ci_equal_cong, ci_equal_symm}
use cofetch.Response.Fields.{Headers, comma, add_field, note_field, headers, header}
use cofetch.Response.Lines.{final_fields, run_fields}
use cofetch.Response.Lines.Refine.{for_each_field_lem}
use cofetch.Response.{Bytes, Response}

-- `find(name)` of the map: the entry whose key CiEqual takes for the name.
abbrev pub lookup : Bytes → Headers → Option Bytes
lookup q [] = none
lookup q ((k, v) ∷ m) = if ci_equal k q then some v else lookup q m

lookup-add_field :
    (q n v : Bytes) (m : Headers) → lookup q (add_field n v m) ≡ note_field q n v (lookup q m)
unfolding add_field note_field
lookup-add_field q n v [] = ground arith
lookup-add_field q n v ((k, w) ∷ m) = elim (Bool-cases (ci_equal k n)) [
  | inl hit ↦ rw (hit, ← ci_equal_cong k n q hit) (ground arith)
  | inr miss ↦
      rw miss (ground (arith, lookup-add_field q n v m, ci_equal_cong k q n, ci_equal_symm q n))
]

lookup-run_fields :
    (q : Bytes) (ps : List (Bytes × Bytes)) (m : Headers)
    → lookup q (run_fields add_field ps m) ≡ run_fields (note_field q) ps (lookup q m)
lookup-run_fields q [] m = refl
lookup-run_fields q ((n, v) ∷ ps) m =
    lookup-run_fields q ps (add_field n v m)
    ∙ ap (run_fields (note_field q) ps) (lookup-add_field q n v m)

-- `header(name)` is what a lookup of the name in `headers()` finds.
pub lookup-headers : (r : Response) (name : Bytes) → lookup name (headers r) ≡ header name r
unfolding headers header
lookup-headers r name =
    rw (for_each_field_lem add_field r [], for_each_field_lem (note_field name) r none)
      (lookup-run_fields name (final_fields r.header_data) [])

-- The values of the fields with this name, in order.
abbrev pub values : Bytes → List (Bytes × Bytes) → List Bytes
values q [] = []
values q ((n, v) ∷ ps) = if ci_equal n q then v ∷ values q ps else values q ps

abbrev pub join_onto : Bytes → List Bytes → Bytes
join_onto v [] = v
join_onto v (w ∷ ws) = join_onto (v ++ (comma ++ w)) ws

-- Values joined by ", ", if there is one.
abbrev pub combined : List Bytes → Option Bytes
combined [] = none
combined (v ∷ vs) = some (join_onto v vs)

run_fields-found :
    (q v : Bytes) (ps : List (Bytes × Bytes))
    → run_fields (note_field q) ps (some v) ≡ some (join_onto v (values q ps))
unfolding note_field
run_fields-found q v [] = refl
run_fields-found q v ((n, w) ∷ ps) = elim (Bool-cases (ci_equal n q)) [
  | inl hit ↦ rw hit (run_fields-found q (v ++ (comma ++ w)) ps)
  | inr miss ↦ rw miss (run_fields-found q v ps)
]

run_fields-combined :
    (q : Bytes) (ps : List (Bytes × Bytes))
    → run_fields (note_field q) ps none ≡ combined (values q ps)
unfolding note_field
run_fields-combined q [] = refl
run_fields-combined q ((n, w) ∷ ps) = elim (Bool-cases (ci_equal n q)) [
  | inl hit ↦ rw hit (run_fields-found q w ps)
  | inr miss ↦ rw miss (run_fields-combined q ps)
]

-- `header(name)` gives the values of the fields of the final response whose name is equal to it up
-- to case, joined by ", " in order, and nothing when there is no such field.
pub header-combined :
    (r : Response) (name : Bytes)
    → header name r ≡ combined (values name (final_fields r.header_data))
unfolding header
header-combined r name =
    for_each_field_lem (note_field name) r none
    ∙ run_fields-combined name (final_fields r.header_data)

-- No two entries of the map have names that CiEqual takes for equal.
abbrev pub Absent : Bytes → Headers → Type 0
Absent q [] = Unit {0}
Absent q ((k, v) ∷ m) = (ci_equal k q ≡ false) × Absent q m

abbrev pub Distinct : Headers → Type 0
Distinct [] = Unit {0}
Distinct ((k, v) ∷ m) = Absent k m × Distinct m

Absent-add_field :
    (k n v : Bytes) (m : Headers) → ci_equal n k ≡ false → Absent k m → Absent k (add_field n v m)
unfolding add_field
Absent-add_field k n v [] e h = (e, tt)
Absent-add_field k n v ((j, w) ∷ m) e h = ground (arith, Absent-add_field k n v m e h.1)

Distinct-add_field : (n v : Bytes) (m : Headers) → Distinct m → Distinct (add_field n v m)
unfolding add_field
Distinct-add_field n v [] h = (tt, tt)
Distinct-add_field n v ((k, w) ∷ m) h = elim (Bool-cases (ci_equal k n)) [
  | inl hit ↦ rw hit h
  | inr miss ↦
      rw miss
        (Absent-add_field k n v m (ci_equal_symm n k ∙ miss) h.0, Distinct-add_field n v m h.1)
]

Distinct-run_fields :
    (ps : List (Bytes × Bytes)) (m : Headers) → Distinct m → Distinct (run_fields add_field ps m)
Distinct-run_fields [] m h = h
Distinct-run_fields ((n, v) ∷ ps) m h =
    Distinct-run_fields ps (add_field n v m) (Distinct-add_field n v m h)

-- `headers()` never holds two keys that differ in case only.
pub headers-Distinct : (r : Response) → Distinct (headers r)
unfolding headers
headers-Distinct r =
    rw (for_each_field_lem add_field r []) (Distinct-run_fields (final_fields r.header_data) [] tt)
