-- ===== src/Loader/HttpLoader.antt =====
-- blinkit/loader_tasks/http_loader.h and http_loader.cpp: `HTTPLoader`, an older loader that the build
-- for crawlers leaves out, which follows a redirection by
-- a request of its own. Requests, the locale, and the client's cookies are parameters; the getters
-- of the response, and `GetHeader`, which asserts, are left out.
pub mod Redirects
use blinkit.Prelude.{
  ℕ, ◌+◌, Bool, true, false, not, List, [], ◌∷◌, ◌++◌, ◌≡◌, refl, ◌∙◌, ap, Option, none, some,
  if◌then◌else◌, Bytes, codes, arith, bytes_eq, length,
}
use mathlib.Core.List.{append_assoc}
use blinkit.Http.Code.{Code, success, unknown, is_success}
use blinkit.Http.Response.{Response}
use blinkit.Loader.CookieJar.{Cookies, add_cookie_entry, get_cookies, is_nothing}

-- A request that is made: its URL, method and headers.
pub record Sent : Type 0 where
  pub url : Bytes
  pub method : Bytes
  pub headers : List (Bytes × Bytes)

-- What is posted to the task runner: the call of the client when a request is complete, or the task
-- for an error.
pub data LoaderPost : Type 0 where
  posts_complete : LoaderPost
  posts_error : Code → LoaderPost

-- How the application makes a request, and what `Perform` of it returns.
pub data Performed : Type 0 where
  no_request : Performed
  performed : Code → Performed

-- `m_headers[name] = value`
abbrev pub assign_header : Bytes → Bytes → List (Bytes × Bytes) → List (Bytes × Bytes)
assign_header name value [] = (name, value) ∷ []
assign_header name value ((k, v) ∷ hs) =
    let rest = assign_header name value hs in
    if bytes_eq k name then (k, value) ∷ hs else (k, v) ∷ rest

module _ (n : Cookies) where
  -- `HTTPLoader`, with the cookie jar of the application, the cookies given to the client, the
  -- requests made, the posts, and the runs of `delete this`.
  pub record HttpLoader : Type 0 where
    pub method : Bytes
    pub current_url : Bytes
    pub headers : List (Bytes × Bytes)
    pub cookies : List Bytes
    pub status_code : ℕ
    pub body : Bytes
    pub cookie_jar : List n.Cookie
    pub client_cookies : List Bytes
    pub sent : List Sent
    pub posts : List LoaderPost
    pub deletes : ℕ

  -- `HTTPLoader(crawler, …)`, `SetMethod` and `SetURL`.
  unfoldable pub http_loader : Bytes → Bytes → Bytes → List n.Cookie → HttpLoader
  http_loader locale method url jar = record {
    method = method;
    current_url = url;
    headers = assign_header (codes "Connection") (codes "Keep-Alive") (
        assign_header (codes "Accept-Language") locale
          (assign_header (codes "Accept-Encoding") (codes "gzip, deflate") []));
    cookies = [];
    status_code = 0;
    body = [];
    cookie_jar = jar;
    client_cookies = [];
    sent = [];
    posts = [];
    deletes = 0;
  }

  abbrev pub add_header : Bytes → Bytes → HttpLoader → HttpLoader
  add_header name value l = record l { headers = assign_header name value l.headers }

  -- `ApplyCookies`, a cookie at a time.
  unfoldable pub apply_cookies : List Bytes → HttpLoader → HttpLoader
  unfolding add_cookie_entry
  apply_cookies [] l = l
  apply_cookies (cookie ∷ rest) l = apply_cookies rest (record l {
    cookies = l.cookies ++ (cookie ∷ []);
    cookie_jar = add_cookie_entry n l.current_url cookie l.cookie_jar;
    client_cookies = l.client_cookies ++ (cookie ∷ []);
  })

  -- `RequestFailed`
  unfoldable pub request_failed : Code → HttpLoader → HttpLoader
  request_failed code l = record l {
    posts = l.posts ++ (posts_error code ∷ []);
    deletes = l.deletes + 1;
  }

  -- `RequestComplete`
  unfoldable pub request_complete : Response → HttpLoader → HttpLoader
  unfolding apply_cookies
  request_complete r l =
      let q = apply_cookies r.cookies l in
      record q {
        current_url = r.url;
        status_code = r.status_code;
        body = r.body;
        posts = q.posts ++ (posts_complete ∷ []);
      }

  -- `SetBody`
  unfoldable pub set_body : Bytes → HttpLoader → HttpLoader
  set_body body l = record l { body = body }

  module _ (client_cookies_for : Bytes → Bytes) where
    -- `CrawlerImpl::GetCookies`: the client's, or those of the jar.
    unfoldable pub cookies_for : HttpLoader → Bytes
    unfolding get_cookies
    cookies_for l =
        let given = client_cookies_for l.current_url in
        if is_nothing given then get_cookies n l.current_url l.cookie_jar else given

    -- The request that `Load` makes.
    abbrev pub request_of : HttpLoader → Sent
    request_of l = record {
      url = l.current_url;
      method = l.method;
      headers =
          l.headers
          ++ (if is_nothing (cookies_for l) then [] else (codes "Cookie", cookies_for l) ∷ []);
    }

    -- `Load`
    unfoldable pub load : Performed → HttpLoader → Code × HttpLoader
    unfolding cookies_for
    load no_request l = (unknown, l)
    load (performed code) l = (code, record l { sent = l.sent ++ (request_of l ∷ []) })

    -- `RequestRedirect`
    unfoldable pub request_redirect : Performed → Response → HttpLoader → Bool × HttpLoader
    unfolding apply_cookies load request_failed
    request_redirect p r l =
        let q = apply_cookies r.cookies l in
        let next = record (add_header (codes "Referer") q.current_url q) { current_url = r.url } in
        let (code, after) = load p next in
        (false, if is_success code then after else request_failed code after)
