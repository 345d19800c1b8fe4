-- ===== src/Http/WinRequest/Perform.antt =====
-- blinkit/http/win_request.cpp: `Perform`, `OpenSession`, `OpenRequest`, `StartWorkThread` and the
-- worker `RequestRedirect`.
use blinkit.Prelude.{Bool, true, false, not, [], Option, none, some, if◌then◌else◌, Bytes}
use blinkit.Http.Code.{Code, success, network, uri, forbidden, is_success}
use blinkit.Http.Response.{response_impl, reset_for_redirection}
use blinkit.Http.Url.{
  UrlParser, bk_url, scheme_is, scheme_is_http_or_https, https_scheme, component_string,
  effective_int_port, path_for_request,
}
use blinkit.Http.WinInet.{
  AccessType, preconfig, direct, proxy, session_open, session_connect, connection_open_request,
  close_request, close_connection, set_status_callback, set_option, connect_timeout,
}
use blinkit.Http.WinRequest.{
  WinRequest, Point, Answers, ask, is_empty, continue_with, after_worker, to_send_request, thrown,
}

-- `OpenSession`
unfoldable pub open_session : Bool → WinRequest → Bool × WinRequest
open_session got w =
    let (access, name) : AccessType × Bytes = elim w.impl.proxy [
      | none ↦ (preconfig, [])
      | some p ↦ (if is_empty p then direct else proxy, p)
    ] in
    let (ok, i) = session_open got w.user_agent access name w.inet in
    let q : WinRequest = record w { inet = i } in
    if ok
    then (
      true,
      ask (set_option (connect_timeout w.impl.timeout_in_ms)) (ask (set_status_callback true) q),
    )
    else (false, q)

-- `StartWorkThread`
unfoldable pub start_work_thread : WinRequest → WinRequest
start_work_thread w = record w { response = response_impl w.impl.request_url; event = false }

-- The handles are closed and the response is reset for the worker `RequestRedirect`, and its end.
unfoldable pub redirected : WinRequest → WinRequest
redirected w = record w {
  inet = close_connection (close_request w.inet);
  response = reset_for_redirection w.response;
}

unfoldable pub after_open : WinRequest → Option (Code × WinRequest) → Point × WinRequest
unfolding continue_with after_worker
after_open w none = (thrown, w)
after_open w (some (code, v)) =
    after_worker
      (if is_success code then continue_with (some to_send_request) true v else (code, v))

module _ (parser : UrlParser) where
  -- `OpenRequest`; `none` is the exception of `PathForRequest`.
  unfoldable pub open_request : Answers → Bytes → WinRequest → Option (Code × WinRequest)
  open_request a text w =
      let u = bk_url parser text in
      let connected : WinRequest = record w {
        inet =
            session_connect a.connects (component_string u u.parsed.host)
              (effective_int_port parser u) (component_string u u.parsed.username)
              (component_string u u.parsed.password) w.inet;
      } in
      if not (scheme_is_http_or_https u)
      then some (uri, w)
      else if not a.connects
      then some (network, connected)
      else elim (path_for_request u) [
        | none ↦ none
        | some path ↦ some (
          if a.opens then success else network,
          record connected {
            inet =
                connection_open_request a.opens w.impl.method path w.referer
                  (scheme_is u https_scheme) connected.inet;
          },
        )
      ]

  -- `Perform`; the first flag says whether WinINet opens the session.
  unfoldable pub win_perform : Bool → Answers → WinRequest → Option (Code × WinRequest)
  unfolding continue_with
  win_perform got a w =
      if w.inet.session
      then some (forbidden, w)
      else let (ok, q) = open_session got w in
        if not ok then some (network, q) else elim (open_request a w.impl.request_url q) [
          | none ↦ none
          | some (code, v) ↦ some (
              if is_success code
              then continue_with (some to_send_request) true (start_work_thread v)
              else (code, v))
        ]

  -- The worker `RequestRedirect`.
  unfoldable pub follow_redirect : Answers → WinRequest → Point × WinRequest
  unfolding redirected
  follow_redirect a w = let q = redirected w in after_open q (open_request a q.response.url q)
