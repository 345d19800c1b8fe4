-- ===== src/Http/WinRequest.antt =====
-- blinkit/http/win_request.h and win_request.cpp. The worker thread goes from one wait, or one
-- read, to the next; between its steps WinINet completes operations, and the main thread cancels.
-- What WinINet and the client answer in a step is the record `Answers`. `PrepareBody`, which only
-- reserves memory, and the log are left out.
pub mod Transfer
pub mod Perform
pub mod Thread
pub mod Endings
pub mod Steps
pub mod Handles
pub mod Receive
pub mod Redirect
pub mod Opening
pub mod Verdicts
use blinkit.Prelude.{
  ℕ, zero, suc, ◌+◌, ◌-◌, ◌*◌, Bool, true, false, not, ◌&&◌, ◌||◌, List, [], ◌∷◌, ◌++◌, Option,
  none, some, ◌==◌, if◌then◌else◌, length, Bytes, codes,
}
use blinkit.Http.Ascii.{Ascii}
use blinkit.Http.Code.{Code, success, unknown, network, cancelled, uri, forbidden, is_success}
use blinkit.Http.HeaderMap.{get_all_for_request}
use blinkit.Http.Request.{Request, curl_request, set_header, release, get_controller}
use blinkit.Http.Response.{
  Response, HeaderText, Zlib, response_impl, append_data, parse_headers, get_header, gzip_inflate,
  resolve_redirection, reset_for_redirection,
}
use blinkit.Http.Url.{
  UrlParser, Url, bk_url, scheme_is, scheme_is_http_or_https, https_scheme, component_string,
  effective_int_port, path_for_request,
}
use blinkit.Http.WinInet.{
  Inet, InetCall, InetOption, AccessType, preconfig, direct, proxy, no_handles, call, session_open,
  session_connect, connection_open_request, close_request, close_connection, close_session,
  set_status_callback, set_option, connect_timeout, send_timeout, receive_timeout, Queried,
  query_info, ignore_revocation, send, write, end_http_request, read,
}

pub data ThreadWorker : Type 0 where
  to_send_request to_send_body to_end_request to_query_request : ThreadWorker
  to_receive_data to_request_complete to_request_redirect : ThreadWorker

-- A call of the client; for a redirection, with its answer.
pub data ClientCall : Type 0 where
  request_complete : Response → ClientCall
  request_failed : Code → ClientCall
  request_redirect : Bool → ClientCall

-- `impl` is the part of `RequestImpl`; `response` counts from `StartWorkThread` on. An event is
-- whether it is set, and `io_pending` is whether WinINet has an operation to complete.
pub record WinRequest : Type 0 where
  pub impl : Request
  pub user_agent : Bytes
  pub referer : Bytes
  pub inet : Inet
  pub event : Bool
  pub event_cancel : Option Bool
  pub next_worker : Option ThreadWorker
  pub response : Response
  pub redirect_handler : Bool
  pub client_calls : List ClientCall
  pub io_pending : Bool

-- Where the thread is: at the wait of the loop, at the wait in `SendRequest`, before a read into
-- a buffer of the given length, at the wait after it, behind the loop, or at its end; or an
-- exception has left it.
pub data Point : Type 0 where
  waiting : Point
  sending : Point
  reading : ℕ → Point
  read_pending : Point
  leaving : Point
  ended : Point
  thrown : Point

pub data Io : Type 0 where
  done pending refused : Io

pub record Answers : Type 0 where
  pub io : Io
  pub chunk : Bytes
  pub raw_headers : Queried
  pub connects : Bool
  pub opens : Bool
  pub follows : Bool

abbrev pub ask : InetCall → WinRequest → WinRequest
ask c w = record w { inet = call c w.inet }

abbrev pub tell : ClientCall → WinRequest → WinRequest
tell c w = record w { client_calls = w.client_calls ++ (c ∷ []) }

abbrev pub set_error_code : Code → WinRequest → WinRequest
set_error_code code w = record w { response = record w.response { error_code = code } }

abbrev pub is_set : Option Bool → Bool
is_set none = false
is_set (some b) = b

abbrev pub is_empty : Bytes → Bool
is_empty [] = true
is_empty (c ∷ cs) = false

-- `WaitForIOPending`: of two events that are set the first one counts; `none` is a wait that
-- goes on.
unfoldable pub wait_for_io_pending : WinRequest → Option (Code × WinRequest)
wait_for_io_pending w =
    if w.event
    then some (success, record w { event = false })
    else if is_set w.event_cancel
    then some (cancelled, w)
    else none

unfoldable pub continue_with : Option ThreadWorker → Bool → WinRequest → Code × WinRequest
continue_with next_worker signal w =
    (success, record w { next_worker = next_worker; event = signal || w.event })

-- What `DoThreadWork` does with the result of a worker.
unfoldable pub after_worker : Code × WinRequest → Point × WinRequest
after_worker (code, w) = if is_success code then (waiting, w) else (leaving, set_error_code code w)

-- `Cancel`, and `GetController`, which makes the event for it.
unfoldable pub cancel : WinRequest → WinRequest
unfolding release
cancel w = record w { event_cancel = some true; impl = release w.impl }

unfoldable pub win_get_controller : WinRequest → WinRequest
unfolding get_controller
win_get_controller w = record w { event_cancel = some false; impl = get_controller w.impl }

-- The two cases of `StatusCallback` that are more than a log: the end of an operation, with
-- whether it went well, and a redirection by WinINet.
unfoldable pub status_request_complete : Bool → WinRequest → WinRequest
status_request_complete ok w =
    let q : WinRequest = if ok then w else set_error_code network w in
    record q { event = true; io_pending = false }

unfoldable pub status_redirect : Bytes → WinRequest → WinRequest
status_redirect url w = record w { response = record w.response { url = url } }

-- Behind the loop of `DoThreadWork`.
unfoldable pub leave : WinRequest → Point × WinRequest
unfolding release
leave w =
    let code = w.response.error_code in
    let q : WinRequest = if is_success code then w else tell (request_failed code) w in
    (ended, record q { impl = release w.impl })

-- `~WinRequest`, for the handles of WinINet.
unfoldable pub destroy : WinRequest → WinRequest
destroy w = record w { inet = close_session (close_connection (close_request w.inet)) }

-- `WinRequest(URL, client)` and `SetHeader`.
module _ (s : Ascii) where
  unfoldable pub win_request : Bytes → Bool → Bytes → WinRequest
  win_request url redirect_handler default_user_agent = record {
    impl = curl_request s url;
    user_agent = default_user_agent;
    referer = [];
    inet = no_handles;
    event = false;
    event_cancel = none;
    next_worker = none;
    response = response_impl url;
    redirect_handler = redirect_handler;
    client_calls = [];
    io_pending = false;
  }

  unfoldable pub win_set_header : WinRequest → Bytes → Bytes → WinRequest
  unfolding set_header
  win_set_header w name value =
      if s.equals_case_insensitive name (codes "User-Agent")
      then record w { user_agent = value }
      else if s.equals_case_insensitive name (codes "Referer")
      then record w { referer = value }
      else record w { impl = set_header s w.impl name value }
