-- ===== src/Tests/Wires.antt =====
-- Header data that is written out and read again.
use cofetch.Base.{codes, ◌≡◌, refl, [], ◌∷◌, none, pos}
use cofetch.Examples.Said.{status_line-wire}
use cofetch.Examples.Shown.{status_line}
use cofetch.Response.{Bytes, Response}
use cofetch.Response.Fields.{for_each_field, note_field, add_field}
use cofetch.Response.Lines.{run_fields, strip}
use cofetch.Response.Lines.RoundTrip.{
  IsField, Hop, IsHop, wire, for_each_field-wire, for_each_field-status_colon,
}
use cofetch.Response.Views.{elem, starts_with}

abbrev moved : Hop
moved = record { status = codes "HTTP/1.1 301 Moved"; fields = (codes "Location", codes "/x") ∷ [] }

abbrev answer : Hop
answer = record {
  status = codes "HTTP/2 200";
  fields = (codes "ETag", codes "a: b") ∷ (codes "via", []) ∷ [];
}

abbrev response : Bytes → Response
response bytes = record { curl_code = 0; http_code = pos 200; body = []; header_data = bytes }

location-IsField : IsField (codes "Location", codes "/x")
unfolding elem starts_with
location-IsField = record {
  no_colon = refl;
  name_one_line = refl;
  value_one_line = refl;
  name_trimmed = refl;
  value_trimmed = refl;
  no_status = refl;
}

etag-IsField : IsField (codes "ETag", codes "a: b")
unfolding elem starts_with
etag-IsField = record {
  no_colon = refl;
  name_one_line = refl;
  value_one_line = refl;
  name_trimmed = refl;
  value_trimmed = refl;
  no_status = refl;
}

via-IsField : IsField (codes "via", [])
unfolding elem starts_with
via-IsField = record {
  no_colon = refl;
  name_one_line = refl;
  value_one_line = refl;
  name_trimmed = refl;
  value_trimmed = refl;
  no_status = refl;
}

moved-IsHop : IsHop moved
unfolding elem starts_with
moved-IsHop = record {
  opens = refl;
  one_line = refl;
  no_colon = refl;
  well_formed = (location-IsField, tt);
}

answer-IsHop : IsHop answer
unfolding elem starts_with
answer-IsHop = record {
  opens = refl;
  one_line = refl;
  no_colon = refl;
  well_formed = (etag-IsField, (via-IsField, tt));
}

for_each_field-wire_example :
    for_each_field add_field (response (wire (moved ∷ []) answer)) []
    ≡ run_fields add_field answer.fields []
for_each_field-wire_example =
    for_each_field-wire add_field (moved ∷ []) answer (response (wire (moved ∷ []) answer)) []
      (moved-IsHop, tt) answer-IsHop refl

abbrev faulty : Hop
faulty = record { status = codes "HTTP/1.1 500 Error: disk"; fields = [] }

for_each_field-status_colon_example :
    for_each_field (note_field (codes "HTTP/1.1 500 Error")) (response (wire [] faulty)) none
    ≡ run_fields
        (note_field (codes "HTTP/1.1 500 Error"))
        ((strip (codes "HTTP/1.1 500 Error"), strip (codes " disk")) ∷ [])
        none
unfolding elem
for_each_field-status_colon_example =
    for_each_field-status_colon (note_field (codes "HTTP/1.1 500 Error")) faulty
      (codes "HTTP/1.1 500 Error") (codes " disk") (response (wire [] faulty)) none refl refl tt
      refl

status_line-wire_example :
    status_line (response (wire (moved ∷ []) answer)) ≡ codes "HTTP/1.1 301 Moved"
unfolding elem
status_line-wire_example =
    status_line-wire (moved ∷ []) answer (response (wire (moved ∷ []) answer)) refl refl
