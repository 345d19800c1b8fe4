-- ===== src/Http/Request.antt =====
-- blinkit/http/request_impl.h, request_impl.cpp and request_controller_impl.h, and
-- blinkit/http/curl_request.cpp. libcurl is the list of options that the code gives it and the
-- outcome of the transfer; `deletes` counts the runs of `delete` on the object.
pub mod Options
pub mod Lifetime
use blinkit.Prelude.{
  ℕ, zero, suc, ◌+◌, ◌-◌, ◌*◌, ◌%◌, Bool, true, false, not, List, [], ◌∷◌, ◌++◌, Option, none, some,
  ◌==◌, if◌then◌else◌, Bytes, codes,
}
use blinkit.Http.Ascii.{Ascii}
use blinkit.Http.Code.{Code, success, unknown, network, uri, forbidden}
use blinkit.Http.HeaderMap.{HeaderMap, empty, set}
use blinkit.Http.Response.{Response, response_impl, append_data, parse_headers, HeaderText}
use blinkit.Http.Url.{UrlParser, bk_url, scheme_is_http_or_https}

pub data CurlOption : Type 0 where
  url : Bytes → CurlOption
  ssl_verify_peer ssl_verify_host post : Bool → CurlOption
  cookie referer user_agent : Bytes → CurlOption
  http_header : List Bytes → CurlOption
  timeout_ms : ℕ → CurlOption

pub record Request : Type 0 where
  pub request_url : Bytes
  pub method : Bytes
  pub headers : HeaderMap
  pub body : Bytes
  pub timeout_in_ms : ℕ
  pub proxy : Option Bytes
  pub ref_count : ℕ
  pub response : Option Response
  pub options : List CurlOption
  pub headers_list : List Bytes
  pub deletes : ℕ

abbrev pub default_timeout_in_ms : ℕ
default_timeout_in_ms = 30000

abbrev pub u32_mod : ℕ
u32_mod = 4294967296

unfoldable pub set_method : Request → Bytes → Request
set_method r m = record r { method = m }

unfoldable pub set_headers : Request → HeaderMap → Request
set_headers r h = record r { headers = h }

unfoldable pub set_body : Request → Bytes → Request
set_body r b = record r { body = b }

-- `timeout * 1000` is a product of two `unsigned`.
unfoldable pub set_timeout : Request → ℕ → Request
set_timeout r timeout = record r { timeout_in_ms = (timeout * 1000) % u32_mod }

-- `m_proxy->clear()` and `m_proxy->assign(proxy)`: `none` is the undefined behaviour of `->` on
-- an `optional` with no value.
unfoldable pub set_proxy : Request → Option Bytes → Option Request
set_proxy r p = elim r.proxy [
  | none ↦ none
  | some old ↦ some (record r { proxy = some (elim p [ none ↦ [] | some q ↦ q ]) })
]

-- `if (0 == --m_refCount) delete this`
unfoldable pub release : Request → Request
release r =
    let n = r.ref_count - 1 in
    if n == 0
    then record r { ref_count = n; deletes = r.deletes + 1 }
    else record r { ref_count = n }

-- `RequestImpl::GetController`: a controller that holds a reference, and gives it up when it is
-- destroyed. That of `CURLRequest` only asserts, and gives no controller.
unfoldable pub get_controller : Request → Request
get_controller r = record r { ref_count = r.ref_count + 1 }

-- `RequestControllerImpl::Release`, which destroys the controller.
unfoldable pub release_controller : Request → Code × Request
release_controller r = (success, release r)

-- `CURLRequest::DoThreadWork`: what libcurl delivers, the header lines and the chunks of the
-- body, or an error; and the call that the client gets.
pub data Transfer : Type 0 where
  transferred : List Bytes → List Bytes → Transfer
  broken : Transfer

pub data ClientCall : Type 0 where
  request_complete : Response → ClientCall
  request_failed : Code → ClientCall

-- `HeaderCallback`, for each line.
unfoldable pub header_callback : Bytes → List Bytes → Bytes
header_callback headers [] = headers
header_callback headers (l ∷ ls) = header_callback (headers ++ l) ls

-- `WriteCallback`, for each chunk.
unfoldable pub write_callback : Response → List Bytes → Response
write_callback r [] = r
write_callback r (c ∷ cs) = write_callback (append_data r c) cs

module _ (a : Ascii) where
  -- `RequestImpl(URL, client)` and `CURLRequest(URL, client)`.
  unfoldable pub curl_request : Bytes → Request
  curl_request u = record {
    request_url = u;
    method = codes "GET";
    headers = set a empty (codes "Accept") (codes "*/*");
    body = [];
    timeout_in_ms = default_timeout_in_ms;
    proxy = none;
    ref_count = 1;
    response = none;
    options = url u ∷ ssl_verify_peer false ∷ ssl_verify_host false ∷ [];
    headers_list = [];
    deletes = 0;
  }

  unfoldable pub set_header : Request → Bytes → Bytes → Request
  set_header r name value = record r { headers = set a r.headers name value }

  -- `TranslateOption`, with the value that the option gets; `none` is `CURLOPT_HTTPHEADER`.
  unfoldable pub translate_option : Bytes → Bytes → Option CurlOption
  translate_option name value =
      if a.equals_case_insensitive name (codes "Cookie")
      then some (cookie value)
      else if a.equals_case_insensitive name (codes "Referer")
      then some (referer value)
      else if a.equals_case_insensitive name (codes "User-Agent")
      then some (user_agent value)
      else none

  abbrev pub header_line : Bytes × Bytes → Bytes
  header_line (k, v) = k ++ (codes ": " ++ v)

  -- The loop over the headers.
  unfoldable pub process_headers : Request → List (Bytes × Bytes) → Request
  process_headers r [] = r
  process_headers r ((k, v) ∷ hs) =
      let q : Request = elim (translate_option k v) [
        | none ↦ record r { headers_list = r.headers_list ++ (header_line (k, v) ∷ []) }
        | some o ↦ record r { options = r.options ++ (o ∷ []) }
      ] in
      process_headers q hs

  abbrev pub add_option : CurlOption → Request → Request
  add_option o r = record r { options = r.options ++ (o ∷ []) }

  -- Step 2, `POST`, and the list of step 3.
  unfoldable pub adjust_method : Request → Request
  adjust_method r =
      if a.equals_case_insensitive r.method (codes "POST") then add_option (post true) r else r

  unfoldable pub apply_headers_list : Request → Request
  apply_headers_list r = elim r.headers_list [
    | [] ↦ r
    | l ∷ ls ↦ add_option (http_header (l ∷ ls)) r
  ]

  module _ (parser : UrlParser) where
    -- `Perform`; the flag says whether `pthread_create` succeeds. A failure deletes the request. Of a body
    -- or a proxy the code asserts that there is none: they are ignored, as without assertions.
    unfoldable pub perform : Bool → Request → Code × Request
    perform thread_created r =
        if not (scheme_is_http_or_https (bk_url parser r.request_url))
        then (uri, record r { deletes = r.deletes + 1 })
        else let q = adjust_method r in
          let q = apply_headers_list (process_headers q q.headers.headers) in
          let q = add_option (timeout_ms q.timeout_in_ms) q in
          let q : Request = record q { response = some (response_impl q.request_url) } in
          if thread_created then (success, q) else (unknown, record q { deletes = q.deletes + 1 })

  module _ (t : HeaderText) where
    unfoldable pub do_thread_work : Request → Response → Transfer → ClientCall × Request
    do_thread_work r response (transferred lines chunks) =
        let received =
          parse_headers a t (write_callback response chunks) (header_callback [] lines) in
        (request_complete received, release (record r { response = some received }))
    do_thread_work r response broken = (request_failed network, release r)
