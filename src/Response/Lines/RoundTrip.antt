-- ===== src/Response/Lines/RoundTrip.antt =====
-- Header data written out as a server's responses come, and read again by for_each_field.
use cofetch.Base.{
  ◌≡◌, refl, ap, ◌∙◌, true, false, List, [], ◌∷◌, ◌++◌, some, none, All, arith, ◌||◌,
}
use cofetch.Response.Fields.{for_each_field, remove_cr}
use cofetch.Response.Lines.Refine.{for_each_field_lem}
use cofetch.Response.Lines.{
  lines, is_status, has_status, final_block, cut, strip, parse_line, fields_of, final_fields,
  run_fields, http_slash,
}
use cofetch.Response.Views.{elem, starts_with}
use cofetch.Response.{Bytes, Response}

-- One response's head: redirects and interim responses have one each.
pub record Hop : Type 0 where
  pub status : Bytes
  pub fields : List (Bytes × Bytes)

-- A line with its end, before `rest`.
abbrev pub put_line : Bytes → Bytes → Bytes
put_line l rest = l ++ (b'\r' ∷ b'\n' ∷ rest)

abbrev pub field_line : Bytes × Bytes → Bytes
field_line (n, v) = n ++ (b':' ∷ b' ' ∷ v)

abbrev pub put_fields : List (Bytes × Bytes) → Bytes → Bytes
put_fields [] rest = rest
put_fields (p ∷ ps) rest = put_line (field_line p) (put_fields ps rest)

-- A status line, the fields, and an empty line.
abbrev pub put_hop : Hop → Bytes → Bytes
put_hop h rest = put_line h.status (put_fields h.fields (put_line [] rest))

-- The header data of a transfer: that of the responses before the final one, and its own.
abbrev pub wire : List Hop → Hop → Bytes
wire [] final = put_hop final []
wire (h ∷ hs) final = put_hop h (wire hs final)

-- The name has no colon. Neither it nor the value has a newline, or a blank at an end.
pub record IsField (p : Bytes × Bytes) : Type 0 where
  pub no_colon : elem b':' p.0 ≡ false
  pub name_one_line : elem b'\n' p.0 ≡ false
  pub value_one_line : elem b'\n' p.1 ≡ false
  pub name_trimmed : strip p.0 ≡ p.0
  pub value_trimmed : strip p.1 ≡ p.1
  pub no_status : is_status (field_line p) ≡ false

pub record IsHop (h : Hop) : Type 0 where
  pub opens : is_status h.status ≡ true
  pub one_line : elem b'\n' h.status ≡ false
  pub no_colon : elem b':' h.status ≡ false
  pub well_formed : All IsField h.fields

abbrev cr : Bytes → Bytes
cr l = l ++ (b'\r' ∷ [])

lines-put_line :
    (l rest : Bytes) → elem b'\n' l ≡ false → lines (put_line l rest) ≡ cr l ∷ lines rest
unfolding elem
lines-put_line [] rest h = refl
lines-put_line (x ∷ l) rest h = ground (arith, lines-put_line l rest)

elem-append : (l m : Bytes) → elem b'\n' (l ++ m) ≡ (elem b'\n' l || elem b'\n' m)
unfolding elem
elem-append [] m = refl
elem-append (x ∷ l) m = ground (arith, elem-append l m)

remove_cr-cr : (l : Bytes) → remove_cr (cr l) ≡ l
unfolding remove_cr
remove_cr-cr [] = refl
remove_cr-cr (x ∷ []) = refl
remove_cr-cr (x ∷ y ∷ l) = ap (◌∷◌ x) (remove_cr-cr (y ∷ l))

cut-some : (n s : Bytes) → elem b':' n ≡ false → cut b':' (n ++ (b':' ∷ s)) ≡ some (n, s)
unfolding elem
cut-some [] s h = refl
cut-some (x ∷ n) s h = ground (arith, cut-some n s)

cut-none : (s : Bytes) → elem b':' s ≡ false → cut b':' s ≡ none
unfolding elem
cut-none [] h = refl
cut-none (x ∷ s) h = ground (arith, cut-none s)

is_status-cr : (p l : Bytes) → elem b'\r' p ≡ false → starts_with p (cr l) ≡ starts_with p l
unfolding starts_with elem
is_status-cr [] l h = refl
is_status-cr (q ∷ p) [] h = ground (arith)
is_status-cr (q ∷ p) (x ∷ l) h = ground (arith, is_status-cr p l)

is_status_line : (l : Bytes) → is_status (cr l) ≡ is_status l
unfolding elem
is_status_line l = is_status-cr http_slash l refl

field_line_one_line : (p : Bytes × Bytes) → IsField p → elem b'\n' (field_line p) ≡ false
unfolding elem
field_line_one_line (n, v) w =
    ground (arith, elem-append n (b':' ∷ b' ' ∷ v), w.name_one_line, w.value_one_line)

-- The lines that are written, with their returns, before the lines `ls`.
abbrev field_lines : List (Bytes × Bytes) → List Bytes → List Bytes
field_lines [] ls = ls
field_lines (p ∷ ps) ls = cr (field_line p) ∷ field_lines ps ls

abbrev hop_lines : Hop → List Bytes → List Bytes
hop_lines h ls = cr h.status ∷ field_lines h.fields (cr [] ∷ ls)

abbrev wire_lines : List Hop → Hop → List Bytes
wire_lines [] final = hop_lines final ([] ∷ [])
wire_lines (h ∷ hs) final = hop_lines h (wire_lines hs final)

lines-put_fields :
    (ps : List (Bytes × Bytes)) (rest : Bytes)
    → All IsField ps
    → lines (put_fields ps rest) ≡ field_lines ps (lines rest)
lines-put_fields [] rest w = refl
lines-put_fields (p ∷ ps) rest w =
    lines-put_line (field_line p) (put_fields ps rest) (field_line_one_line p w.0)
    ∙ ap (◌∷◌ (cr (field_line p))) (lines-put_fields ps rest w.1)

lines-put_hop :
    (h : Hop) (rest : Bytes) → IsHop h → lines (put_hop h rest) ≡ hop_lines h (lines rest)
unfolding elem
lines-put_hop h rest w =
    lines-put_line h.status (put_fields h.fields (put_line [] rest)) w.one_line
    ∙ ap (◌∷◌ (cr h.status)) (
        lines-put_fields h.fields (put_line [] rest) w.well_formed
        ∙ ap (field_lines h.fields) (lines-put_line [] rest refl))

lines-wire :
    (hs : List Hop) (final : Hop)
    → All IsHop hs
    → IsHop final
    → lines (wire hs final) ≡ wire_lines hs final
lines-wire [] final w v = lines-put_hop final [] v
lines-wire (h ∷ hs) final w v =
    lines-put_hop h (wire hs final) w.0 ∙ ap (hop_lines h) (lines-wire hs final w.1 v)

has_status-field_lines :
    (ps : List (Bytes × Bytes)) (ls : List Bytes)
    → All IsField ps
    → has_status (field_lines ps (cr [] ∷ ls)) ≡ has_status ls
unfolding starts_with
has_status-field_lines [] ls w = refl
has_status-field_lines (p ∷ ps) ls w =
    rw (is_status_line (field_line p), w.0.no_status) (has_status-field_lines ps ls w.1)

has_status-wire_lines :
    (hs : List Hop) (final : Hop)
    → All IsHop hs
    → IsHop final
    → has_status (wire_lines hs final) ≡ true
has_status-wire_lines [] final w v = rw (is_status_line final.status, v.opens) refl
has_status-wire_lines (h ∷ hs) final w v = rw (is_status_line h.status, w.0.opens) refl

final_block-field_lines :
    (ps : List (Bytes × Bytes)) (ls : List Bytes)
    → All IsField ps
    → has_status ls ≡ true
    → final_block (field_lines ps (cr [] ∷ ls)) ≡ final_block ls
final_block-field_lines [] ls w h = rw h
final_block-field_lines (p ∷ ps) ls w h =
    rw (has_status-field_lines ps ls w.1, h) (final_block-field_lines ps ls w.1 h)

final_block-wire_lines :
    (hs : List Hop) (final : Hop)
    → All IsHop hs
    → IsHop final
    → final_block (wire_lines hs final) ≡ hop_lines final ([] ∷ [])
unfolding starts_with
final_block-wire_lines [] final w v =
    rw (has_status-field_lines final.fields ([] ∷ []) v.well_formed) refl
final_block-wire_lines (h ∷ hs) final w v =
    let more = has_status-wire_lines hs final w.1 v in
    rw (has_status-field_lines h.fields (wire_lines hs final) w.0.well_formed, more)
      (final_block-field_lines h.fields (wire_lines hs final) w.0.well_formed more
        ∙ final_block-wire_lines hs final w.1 v)

parse_line-field_line : (p : Bytes × Bytes) → IsField p → parse_line (cr (field_line p)) ≡ some p
unfolding elem
parse_line-field_line (n, v) w =
    rw (remove_cr-cr (field_line (n, v)), cut-some n (b' ' ∷ v) w.no_colon)
      (rw (w.name_trimmed, w.value_trimmed) refl)

fields_of-field_lines :
    (ps : List (Bytes × Bytes)) → All IsField ps → fields_of (field_lines ps (cr [] ∷ [] ∷ [])) ≡ ps
unfolding remove_cr
fields_of-field_lines [] w = refl
fields_of-field_lines (p ∷ ps) w =
    rw (parse_line-field_line p w.0) (ap (◌∷◌ p) (fields_of-field_lines ps w.1))

final_fields-wire :
    (hs : List Hop) (final : Hop)
    → All IsHop hs
    → IsHop final
    → final_fields (wire hs final) ≡ final.fields
final_fields-wire hs final w v =
    rw
      (
        lines-wire hs final w v,
        final_block-wire_lines hs final w v,
        remove_cr-cr final.status,
        cut-none final.status v.no_colon,
      )
      (fields_of-field_lines final.fields v.well_formed)

-- When the header data is that of any number of earlier responses and then the final one,
-- for_each_field runs its callback on the fields of the final response, names and values as they
-- were written, in order, and on no other. Status lines have no colon. Names have no colon. Names
-- and values have no newline and no blank at an end, and no field's line looks like a status line.
pub for_each_field-wire {ℓ} :
    {S : Type ℓ} (f : Bytes → Bytes → S → S) (hs : List Hop) (final : Hop) (r : Response) (s : S)
    → All IsHop hs
    → IsHop final
    → r.header_data ≡ wire hs final
    → for_each_field f r s ≡ run_fields f final.fields s
for_each_field-wire f hs final r s w v e =
    for_each_field_lem f r s
    ∙ ap (λ ps. run_fields f ps s) (ap final_fields e ∙ final_fields-wire hs final w v)

final_fields-status_colon :
    (h : Hop) (a b : Bytes)
    → elem b'\n' h.status ≡ false
    → cut b':' h.status ≡ some (a, b)
    → All IsField h.fields
    → final_fields (wire [] h) ≡ (strip a, strip b) ∷ h.fields
unfolding elem starts_with
final_fields-status_colon h a b one colon w =
    rw
      (
        lines-put_line h.status (put_fields h.fields (put_line [] [])) one,
        lines-put_fields h.fields (put_line [] []) w,
        lines-put_line [] [] refl,
      )
      (rw (has_status-field_lines h.fields ([] ∷ []) w) (
        rw (remove_cr-cr h.status, colon)
          (ap (◌∷◌ (strip a, strip b)) (fields_of-field_lines h.fields w))))

-- When a response is the only one and its status line has a colon, for_each_field takes that line for
-- a field: what is before the colon is its name, and what is behind it the value.
pub for_each_field-status_colon {ℓ} :
    {S : Type ℓ} (f : Bytes → Bytes → S → S) (h : Hop) (a b : Bytes) (r : Response) (s : S)
    → elem b'\n' h.status ≡ false
    → cut b':' h.status ≡ some (a, b)
    → All IsField h.fields
    → r.header_data ≡ wire [] h
    → for_each_field f r s ≡ run_fields f ((strip a, strip b) ∷ h.fields) s
for_each_field-status_colon f h a b r s one colon w e =
    for_each_field_lem f r s
    ∙ ap (λ ps. run_fields f ps s) (ap final_fields e ∙ final_fields-status_colon h a b one colon w)
