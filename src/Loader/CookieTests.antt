-- ===== src/Loader/CookieTests.antt =====
-- Tests and concrete instances of the theorems on cookies and redirections.
use blinkit.Prelude.{◌≡◌, true, [], ◌∷◌, some, Bytes, codes}
use blinkit.Http.Response.{Response, response_impl}
use blinkit.Http.Fixtures.{received}
use blinkit.Loader.CookieJar.{Cookies, get_cookies, get_cookies_lem}
use blinkit.Loader.HttpLoader.{HttpLoader, http_loader}

-- Each cookie is its text, and is meant for every URL.
abbrev plain_cookies : Cookies
plain_cookies = record {
  Cookie = Bytes;
  create = λ url text. some text;
  include_for_request_url = λ c url. true;
  name = λ c. c;
  cookie_value = λ c. codes "1";
}

get_cookies_lem_example :
    get_cookies plain_cookies (codes "http://a") (codes "a" ∷ codes "b" ∷ []) ≡ codes "a=1; b=1"
get_cookies_lem_example =
    get_cookies_lem plain_cookies (codes "http://a") (codes "a" ∷ codes "b" ∷ [])

abbrev loader : HttpLoader plain_cookies
loader = http_loader plain_cookies (codes "en") (codes "GET") (codes "http://a") []

abbrev silent : Bytes → Bytes
silent url = []

abbrev moved : Response
moved = record (response_impl (codes "http://a")) {
  url = codes "http://b";
  cookies = codes "x" ∷ [];
}

abbrev final : Response
final = record received { cookies = codes "y" ∷ [] }
