-- ===== src/Http/ResponseTests.antt =====
-- Tests and concrete instances of the theorems on responses.
use blinkit.Prelude.{◌≡◌, refl, [], ◌∷◌, some, codes, arith}
use blinkit.Http.Ascii.Table.{ascii}
use blinkit.Http.Response.{after_line_feed, parse_headers}
use blinkit.Http.Response.Headers.{parse_headers_lem}
use blinkit.Http.Response.Inflate.{MakesProgress}
use blinkit.Http.Fixtures.{one_header, copying, received}

raw_test : after_line_feed (codes "\n12") ≡ some (codes "12")
unfolding after_line_feed
raw_test = refl

parse_headers_lem_example :
    (parse_headers ascii one_header received (codes "H\n12")).status_code ≡ 200
unfolding after_line_feed
parse_headers_lem_example =
    (parse_headers_lem ascii one_header received (codes "H\n12") (codes "12") 200 1
      ((codes "Set-Cookie", codes "a=1") ∷ (codes "Age", codes "12") ∷ []) refl refl refl).0

copying-MakesProgress : MakesProgress copying
copying-MakesProgress [] q w e h = ground arith
copying-MakesProgress (x ∷ s) q w e h = ground arith
