-- ===== src/Http/WinInet.antt =====
-- blinkit/win/inet.h and inet.cpp: the handles of WinINet. WinINet itself is its answers, and the
-- list of the calls that it gets; a handle is whether there is one.
use blinkit.Prelude.{
  ℕ, ◌+◌, ◌-◌, Bool, true, false, List, [], ◌∷◌, ◌++◌, Option, none, some, if◌then◌else◌, Bytes, ℤ,
}

pub data AccessType : Type 0 where
  preconfig direct proxy : AccessType

pub data Flag : Type 0 where
  reload no_cache_write no_cookies no_auto_redirect pragma_nocache no_ui : Flag
  secure ignore_cert_cn_invalid ignore_cert_date_invalid : Flag

pub data InetOption : Type 0 where
  connect_timeout send_timeout receive_timeout : ℕ → InetOption
  ignore_revocation : InetOption

pub data InetCall : Type 0 where
  open_session : Bytes → AccessType → Bytes → InetCall
  set_status_callback : Bool → InetCall
  set_option : InetOption → InetCall
  connect : Bytes → ℤ → Bytes → Bytes → InetCall
  open_http_request : Bytes → Bytes → Bytes → List Flag → InetCall
  send : Bytes → ℕ → InetCall
  write : Bytes → InetCall
  end_http_request : InetCall
  read : ℕ → InetCall
  close_handle : InetCall

-- The three handles of a request, the calls so far, and how many handles WinINet has open.
pub record Inet : Type 0 where
  pub session : Bool
  pub connection : Bool
  pub request : Bool
  pub calls : List InetCall
  pub open_handles : ℕ

abbrev pub no_handles : Inet
no_handles = record {
  session = false;
  connection = false;
  request = false;
  calls = [];
  open_handles = 0;
}

abbrev pub to_ℕ : Bool → ℕ
to_ℕ true = 1
to_ℕ false = 0

abbrev pub call : InetCall → Inet → Inet
call c i = record i { calls = i.calls ++ (c ∷ []) }

-- `InetSession::Open`; each `got` says whether WinINet yields a handle.
unfoldable pub session_open : Bool → Bytes → AccessType → Bytes → Inet → Bool × Inet
session_open got agent access proxy_name i = (
  got,
  record (call (open_session agent access proxy_name) i) {
    session = got;
    open_handles = i.open_handles + to_ℕ got;
  },
)

-- `InetSession::Connect`, and the move into `m_connection`, which forgets the handle it had.
unfoldable pub session_connect : Bool → Bytes → ℤ → Bytes → Bytes → Inet → Inet
session_connect got server port user password i =
    record (call (connect server port user password) i) {
      connection = got;
      open_handles = i.open_handles + to_ℕ got;
    }

abbrev pub request_flags : Bool → List Flag
request_flags is_https =
    (reload ∷ no_cache_write ∷ no_cookies ∷ no_auto_redirect ∷ pragma_nocache ∷ no_ui ∷ [])
    ++ (if is_https then secure ∷ ignore_cert_cn_invalid ∷ ignore_cert_date_invalid ∷ [] else [])

-- `InetConnection::OpenRequest`, and the move into `m_request`.
unfoldable pub connection_open_request : Bool → Bytes → Bytes → Bytes → Bool → Inet → Inet
connection_open_request got verb object_name referer is_https i =
    record (call (open_http_request verb object_name referer (request_flags is_https)) i) {
      request = got;
      open_handles = i.open_handles + to_ℕ got;
    }

-- `InetObject::Close`, when there is a handle.
abbrev pub closing : Inet → Inet
closing i = record (call close_handle (call (set_status_callback false) i)) {
  open_handles = i.open_handles - 1;
}

unfoldable pub close_request : Inet → Inet
close_request i = if i.request then record (closing i) { request = false } else i

unfoldable pub close_connection : Inet → Inet
close_connection i = if i.connection then record (closing i) { connection = false } else i

unfoldable pub close_session : Inet → Inet
close_session i = if i.session then record (closing i) { session = false } else i

-- `HttpQueryInfoA` for a text: no such header, another error, or the text with its final zero.
pub data Queried : Type 0 where
  header_not_found : Queried
  query_error : Queried
  queried : Bytes → Queried

-- `InetRequest::QueryInfo` for a text.
unfoldable pub query_info : Queried → Option Bytes
query_info header_not_found = none
query_info query_error = none
query_info (queried text) = some text
