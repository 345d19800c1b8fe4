-- ===== src/Http/HeaderTests.antt =====
-- Tests and concrete instances of the header map's theorems.
use blinkit.Prelude.{◌≡◌, refl, [], ◌∷◌, codes, bytes_eq}
use blinkit.Http.HeaderMap.{
  HeaderMap, canonize_loop, canonize_header_name, get, set, get_all_for_request,
}
use blinkit.Http.HeaderMap.Lookup.{get-set}
use blinkit.Http.Ascii.Table.{ascii}

canonize_test :
    (canonize_header_name ascii (codes "content-TYPE") ≡ codes "Content-Type")
    × (canonize_header_name ascii (codes "etag") ≡ codes "ETag")
unfolding canonize_header_name canonize_loop bytes_eq
canonize_test = (refl, refl)

abbrev stored : HeaderMap
stored = record { headers = (codes "Accept", codes "*/*") ∷ [] }

get-set_example :
    get ascii (set ascii stored (codes "accept") (codes "text/html")) (codes "ACCEPT")
    ≡ codes "text/html"
unfolding bytes_eq
get-set_example = get-set ascii stored (codes "accept") (codes "ACCEPT") (codes "text/html")

lines_test : get_all_for_request stored.headers ≡ codes "Accept: */*\r\n"
unfolding get_all_for_request
lines_test = refl
