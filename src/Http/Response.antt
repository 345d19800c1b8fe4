-- ===== src/Http/Response.antt =====
-- blinkit/http/response_impl.h and response_impl.cpp. zlib, `std::regex` and the text helpers of
-- chromium/base are parameters. A buffer of the caller is the value that is copied into it.
pub mod Headers
pub mod Inflate
pub mod Redirect
use blinkit.Prelude.{
  ℕ, zero, suc, ◌+◌, Bool, true, false, List, [], ◌∷◌, ◌++◌, Option, none, some, ltb, leb, ◌==◌,
  if◌then◌else◌, length, get_elem?, drop, Bytes, codes,
}
use blinkit.Http.Ascii.{Ascii}
use blinkit.Http.Code.{Code, success, not_found}
use blinkit.Http.HeaderMap.{HeaderMap, empty, clear, get, set}
use blinkit.Http.Url.{Url, UrlParser, bk_url, resolve}

pub record Response : Type 0 where
  pub origin_url : Bytes
  pub url : Bytes
  pub error_code : Code
  pub status_code : ℕ
  pub headers : HeaderMap
  pub cookies : List Bytes
  pub body : Bytes

-- `ResponseImpl(URL)`
abbrev pub response_impl : Bytes → Response
response_impl url = record {
  origin_url = url;
  url = url;
  error_code = success;
  status_code = 0;
  headers = empty;
  cookies = [];
  body = [];
}

unfoldable pub append_data : Response → Bytes → Response
append_data r cb = record r { body = r.body ++ cb }

unfoldable pub get_cookie : Response → ℕ → Code × Option Bytes
get_cookie r index =
    if leb (length r.cookies) index then (not_found, none) else (success, get_elem? r.cookies index)

-- The constants `BK_RE_…`, and any other number.
pub data ResponseData : Type 0 where
  current_url original_url body other : ResponseData

unfoldable pub get_data : Response → ResponseData → Code × Option Bytes
get_data r current_url = (success, some r.url)
get_data r original_url = (success, some r.origin_url)
get_data r ResponseData.body = (success, some r.body)
get_data r other = (not_found, none)

-- `none` is a null pointer, which comes with length 0.
unfoldable pub hijack : Response → Option Bytes → Response
hijack r none = record r { body = [] }
hijack r (some new_body) = record r { body = new_body }

unfoldable pub reset_for_redirection : Response → Response
unfolding clear
reset_for_redirection r = record r {
  error_code = success;
  status_code = 0;
  headers = clear r.headers;
  cookies = [];
  body = [];
}

-- What `ParseHeaders` calls: the status and the match length of the regular expression, the
-- split into pairs with its success flag, and the trimming of white space.
pub record HeaderText : Type 0 where
  pub status_line : Bytes → Option (ℕ × ℕ)
  pub split_pairs : Bytes → Bool × List (Bytes × Bytes)
  pub trim : Bytes → Bytes

-- `find('\n', from)`, as what stands behind the line feed.
unfoldable pub after_line_feed : Bytes → Option Bytes
after_line_feed [] = none
after_line_feed (c ∷ cs) = if c == b'\n' then some cs else after_line_feed cs

abbrev pub set_cookie : Bytes
set_cookie = codes "Set-Cookie"

module _ (a : Ascii) where
  unfoldable pub append_header : Response → Bytes → Bytes → Response
  append_header r name val = record r { headers = set a r.headers name val }

  unfoldable pub get_header : Response → Bytes → Code × Option Bytes
  get_header r name = elim (get a r.headers name) [
    | [] ↦ (not_found, none)
    | c ∷ cs ↦ (success, some (c ∷ cs))
  ]

  module _ (t : HeaderText) where
    -- One round of the loop over the pairs.
    unfoldable pub add_pair : Response → Bytes × Bytes → Response
    add_pair r (first, second) =
        let k = t.trim first in
        let v = t.trim second in
        if a.equals_case_insensitive k set_cookie
        then record r { cookies = r.cookies ++ (v ∷ []) }
        else record r { headers = set a r.headers k v }

    unfoldable pub add_pairs : Response → List (Bytes × Bytes) → Response
    add_pairs r [] = r
    add_pairs r (p ∷ ps) = add_pairs (add_pair r p) ps

    -- A status out of the range of `std::stoi`, which throws, and names with a NUL, which are cut, are left
    -- out.
    unfoldable pub parse_headers : Response → Bytes → Response
    parse_headers r raw = elim (t.status_line raw) [
      | none ↦ r
      | some (status, match_length) ↦
          let r' : Response = record r { status_code = status } in
          (elim (after_line_feed (drop match_length raw)) [
            | none ↦ r'
            | some input ↦ (elim (t.split_pairs input).0 [
              | false ↦ r'
              | true ↦ add_pairs r' (t.split_pairs input).1
            ])
          ])
    ]

  module _ (parser : UrlParser) where
    -- `ResolveRedirection`: the referrer, and the response at the new URL.
    unfoldable pub resolve_redirection : Response → Bytes × Response
    resolve_redirection r = elim (get a r.headers (codes "Location")) [
      | [] ↦ ([], r)
      | c ∷ cs ↦ (r.url, record r { url = (resolve parser (bk_url parser r.url) (c ∷ cs)).text })
    ]

-- zlib: a stream, its setup for a body, and one call of `inflate` into an empty buffer.
pub record Zlib : Type 1 where
  pub Stream : Type 0
  pub inflate_init : Bytes → Option Stream
  -- `none` is a negative code; otherwise what was written to the buffer.
  pub inflate : Stream → Option (Stream × Bytes)
  pub avail_in : Stream → ℕ

module _ (z : Zlib) where
  open z use {Stream, inflate_init, inflate, avail_in}

  -- The outcome of the loop on fuel: it ran out, an error, or the text.
  pub data Outcome : Type 0 where
    running : Outcome
    failed : Outcome
    done : Bytes → Outcome

  -- The `do … while (stm.avail_in > 0)`.
  unfoldable pub inflate_loop : ℕ → Stream → Bytes → Outcome
  inflate_loop zero s out = running
  inflate_loop (suc fuel) s out = elim (inflate s) [
    | none ↦ failed
    | some (s', written) ↦ (elim (ltb 0 (avail_in s')) [
      | true ↦ inflate_loop fuel s' (out ++ written)
      | false ↦ done (out ++ written)
    ])
  ]

  -- `GZipInflate`; `none` means that the fuel ran out.
  unfoldable pub gzip_inflate : ℕ → Response → Option Response
  gzip_inflate fuel r = elim (inflate_init r.body) [
    | none ↦ some r
    | some s ↦ (elim (inflate_loop fuel s []) [
      | running ↦ none
      | failed ↦ some r
      | done text ↦ some (record r { body = text })
    ])
  ]
