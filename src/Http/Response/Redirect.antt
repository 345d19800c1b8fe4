-- ===== src/Http/Response/Redirect.antt =====
-- A redirection: the new URL, the referrer, and the state that the next response starts from.
use blinkit.Prelude.{ℕ, ◌∷◌, ◌≡◌, refl, Bytes, codes}
use blinkit.Http.Ascii.{Ascii}
use blinkit.Http.Url.{UrlParser, bk_url, resolve}
use blinkit.Http.HeaderMap.{get}
use blinkit.Http.Response.{Response, response_impl, reset_for_redirection, resolve_redirection}

-- With a `Location`, the referrer is the URL so far, and after the reset the response is a fresh
-- one at the resolved URL that keeps the original URL.
reset-resolve_redirection :
    (a : Ascii) (parser : UrlParser) (r : Response) (c : ℕ) (cs : Bytes)
    → get a r.headers (codes "Location") ≡ c ∷ cs
    → let q = resolve_redirection a parser r in
      (q.0 ≡ r.url)
      × (reset_for_redirection q.1 ≡ record (response_impl r.origin_url) {
        url = (resolve parser (bk_url parser r.url) (c ∷ cs)).text;
      })
unfolding resolve_redirection reset_for_redirection
reset-resolve_redirection a parser r c cs e = rw (e, resolve_redirection) (refl, refl)
