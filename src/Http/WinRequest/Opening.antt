-- ===== src/Http/WinRequest/Opening.antt =====
-- `Perform` and `SetHeader` of a WinINet request.
use blinkit.Prelude.{
  Bool, true, List, [], ◌∷◌, ◌≡◌, Option, none, some, Bytes, arith, if◌then◌else◌,
}
use blinkit.Http.Code.{Code, success, forbidden}
use blinkit.Http.Url.{
  UrlParser, bk_url, scheme_is, scheme_is_http_or_https, https_scheme, component_string,
  effective_int_port, path_for_request,
}
use blinkit.Http.WinInet.{
  InetCall, open_session as opens_session, set_status_callback, set_option, connect_timeout,
  connect, open_http_request, request_flags, preconfig, direct, proxy, AccessType, no_handles,
  session_open, session_connect, connection_open_request,
}
use blinkit.Http.WinRequest.{WinRequest, Answers, continue_with, to_send_request, is_empty}
use blinkit.Http.WinRequest.Perform.{win_perform, open_session, open_request, start_work_thread}

abbrev pub access_type : Option Bytes → AccessType
access_type none = preconfig
access_type (some p) = if is_empty p then direct else proxy

abbrev pub proxy_text : Option Bytes → Bytes
proxy_text none = []
proxy_text (some p) = p

module _ (parser : UrlParser) where
  -- The calls of a `Perform` on a URL, in their order.
  abbrev pub opening : WinRequest → Bytes → List InetCall
  opening w path =
      let u = bk_url parser w.impl.request_url in
      opens_session w.user_agent (access_type w.impl.proxy) (proxy_text w.impl.proxy)
      ∷ set_status_callback true
      ∷ set_option (connect_timeout w.impl.timeout_in_ms)
      ∷ connect (component_string u u.parsed.host) (effective_int_port parser u)
          (component_string u u.parsed.username) (component_string u u.parsed.password)
      ∷ open_http_request w.impl.method path w.referer (request_flags (scheme_is u https_scheme))
      ∷ []

  abbrev pub opened : WinRequest → Bytes → WinRequest
  opened w path = record (start_work_thread w) {
    inet = record {
      session = true;
      connection = true;
      request = true;
      calls = opening w path;
      open_handles = 3;
    };
    next_worker = some to_send_request;
    event = true;
  }

  -- On an HTTP or HTTPS URL and with the handles from WinINet, `Perform` opens the session with
  -- the user agent and the proxy, the connection with host, port, user and password, and the
  -- request with method, path and referrer, in this order; `SendRequest` is next on the thread,
  -- which is woken, and the response is a fresh one.
  pub win_perform_success :
      (a : Answers) (w : WinRequest) (path : Bytes)
      → w.inet ≡ no_handles
      → scheme_is_http_or_https (bk_url parser w.impl.request_url) ≡ true
      → path_for_request (bk_url parser w.impl.request_url) ≡ some path
      → a.connects ≡ true
      → a.opens ≡ true
      → win_perform parser true a w ≡ some (success, opened w path)
  unfolding win_perform open_session session_open open_request session_connect
      connection_open_request start_work_thread continue_with
  win_perform_success a w path i h p c o = ground arith

  -- A `Perform` that comes back, but not because WinINet opens no session, leaves the session open
  -- and the object alive; so every later `Perform` is forbidden, also after a failure for a URL or
  -- for the network.
  win_perform_again :
      (a b : Answers) (got : Bool) (w : WinRequest) {code : Code} {v : WinRequest}
      → win_perform parser true a w ≡ some (code, v)
      → (v.impl ≡ w.impl) × (win_perform parser got b v ≡ some (forbidden, v))
  unfolding win_perform open_session session_open open_request session_connect
      connection_open_request start_work_thread continue_with
  win_perform_again a b got w e = ground arith
