-- ===== src/Tests/Headers.antt =====
-- Header data as libcurl delivers it, after a redirect.
use cofetch.Base.{codes, ◌≡◌, refl, true, [], ◌∷◌, none, some, pos}
use cofetch.Response.{Response, is_ok}
use cofetch.Response.Case.{ci_equal, ci_hash}
use cofetch.Response.Case.Laws.{ci_hash-ci_equal}
use cofetch.Response.Fields.{
  trim, note_field, add_field, for_each_field, headers, header, remove_cr, trim_between, visit_line,
  field_loop,
}
use cofetch.Response.Views.{
  find, rfind, find_at, rfind_at, starts_with, elem, find_first_not_of, find_last_not_of,
  first_not_of_at, last_not_of_at,
}
use cofetch.Response.Lines.{final_fields, run_fields}
use cofetch.Response.Lines.Refine.{for_each_field_lem}
use cofetch.Response.Lookup.{lookup, values, combined, lookup-headers, header-combined}

abbrev redirected : Response
redirected = record {
  curl_code = 0;
  http_code = pos 200;
  body = codes "hi";
  header_data =
      codes
        "HTTP/1.1 301 Moved\r\nLocation: /x\r\n\r\nHTTP/1.1 200 OK\r\nETag:  a1 \r\nvia: p\r\nVIA: q\r\n\r\n";
}

program : Unit {0}
unfolding for_each_field headers header add_field note_field visit_line field_loop remove_cr trim
    trim_between find rfind find_at rfind_at starts_with elem find_first_not_of find_last_not_of
    first_not_of_at last_not_of_at ci_equal is_ok
program = tt

reads :
    (header (codes "etag") redirected ≡ some (codes "a1"))
    × (header (codes "Via") redirected ≡ some (codes "p, q"))
    × (header (codes "location") redirected ≡ none)
    × (headers redirected ≡ (codes "ETag", codes "a1") ∷ (codes "via", codes "p, q") ∷ [])
    × (is_ok redirected ≡ true)
unfolding program
reads = (refl, refl, refl, refl, refl)

ci_hash-ci_equal_example : ci_hash (codes "ETag") ≡ ci_hash (codes "etag")
unfolding program
ci_hash-ci_equal_example = ci_hash-ci_equal (codes "ETag") (codes "etag") refl

for_each_field_lem_example :
    for_each_field (note_field (codes "via")) redirected none
    ≡ run_fields (note_field (codes "via")) (final_fields redirected.header_data) none
for_each_field_lem_example = for_each_field_lem (note_field (codes "via")) redirected none

lookup-headers_example : lookup (codes "Via") (headers redirected) ≡ header (codes "Via") redirected
lookup-headers_example = lookup-headers redirected (codes "Via")

header-combined_example :
    header (codes "Via") redirected
    ≡ combined (values (codes "Via") (final_fields redirected.header_data))
header-combined_example = header-combined redirected (codes "Via")
