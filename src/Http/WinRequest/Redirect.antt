-- ===== src/Http/WinRequest/Redirect.antt =====
-- A redirection that the client lets pass: the worker `RequestComplete`, and `RequestRedirect` after it.
use blinkit.Prelude.{ℕ, not, ◌||◌, true, [], ◌∷◌, ◌++◌, ◌≡◌, some, Bytes, codes, arith}
use blinkit.Http.Ascii.{Ascii}
use blinkit.Http.Code.{success}
use blinkit.Http.HeaderMap.{get}
use blinkit.Http.Response.{resolve_redirection, reset_for_redirection}
use blinkit.Http.Url.{
  UrlParser, bk_url, scheme_is, scheme_is_http_or_https, https_scheme, component_string,
  effective_int_port, path_for_request,
}
use blinkit.Http.WinInet.{
  connect, open_http_request, request_flags, session_connect, connection_open_request,
}
use blinkit.Http.WinRequest.{
  WinRequest, Answers, waiting, continue_with, after_worker, to_request_redirect, to_send_request,
}
use blinkit.Http.WinRequest.Perform.{open_request, redirected, after_open, follow_redirect}
use blinkit.Http.WinRequest.Thread.{is_redirection, complete}

module _ (s : Ascii) (parser : UrlParser) where
  -- With a `Location` header, when the client has no handler for redirections or answers that it
  -- follows, the next worker is `RequestRedirect`, the referrer is the URL so far, and the response
  -- is at the resolved URL.
  complete_follows :
      (a : Answers) (w : WinRequest) (c : ℕ) (cs : Bytes)
      → is_redirection w.response.status_code ≡ true
      → get s w.response.headers (codes "Location") ≡ c ∷ cs
      → (not w.redirect_handler || a.follows) ≡ true
      → let q = complete s parser a w in
        (q.0 ≡ success)
        × (q.1.next_worker ≡ some to_request_redirect)
        × (q.1.event ≡ true)
        × (q.1.referer ≡ w.response.url)
        × (q.1.impl ≡ w.impl)
        × (q.1.response ≡ (resolve_redirection s parser w.response).1)
  unfolding complete continue_with resolve_redirection
  complete_follows a w c cs r l f = ground arith

  -- On an HTTP or HTTPS URL, and with the handles from WinINet.
  reopened :
      (b : Answers) (w : WinRequest) (path : Bytes)
      → scheme_is_http_or_https (bk_url parser w.response.url) ≡ true
      → path_for_request (bk_url parser w.response.url) ≡ some path
      → b.connects ≡ true
      → b.opens ≡ true
      → let u = bk_url parser w.response.url in
        let q = follow_redirect parser b w in
        (q.0 ≡ waiting)
        × (q.1.next_worker ≡ some to_send_request)
        × (q.1.inet.calls
            ≡ ((redirected w).inet.calls
                ++ (connect
                      (component_string u u.parsed.host)
                      (effective_int_port parser u)
                      (component_string u u.parsed.username)
                      (component_string u u.parsed.password)
                    ∷ []))
              ++ (open_http_request w.impl.method path w.referer
                    (request_flags (scheme_is u https_scheme))
                  ∷ []))
  unfolding follow_redirect redirected reset_for_redirection after_open after_worker continue_with
      open_request session_connect connection_open_request
  reopened b w path h p c o = ground arith
