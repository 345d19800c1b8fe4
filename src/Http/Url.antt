-- ===== src/Http/Url.antt =====
-- blinkit/common/bk_url.h and bk_url.cpp. The parser and the resolver of chromium/url are the
-- parameter `UrlParser`; `Component` and `Parsed` are the records that they fill.
pub mod Layout
pub mod Path
pub mod Fragment
use blinkit.Prelude.{
  ℕ, zero, suc, ◌+◌, ◌-◌, Bool, true, false, not, ◌&&◌, ◌||◌, List, [], ◌∷◌, Option, none, some,
  leb, ltb, ◌==◌, if◌then◌else◌, length, take, drop, Bytes, codes, bytes_eq, ℤ, pos, negsuc, sub_ℕ,
  add_ℕ, minus_ℕ,
}

pub record Component : Type 0 where
  pub begin : ℕ
  pub len : ℤ

abbrev pub absent : Component
absent = record { begin = 0; len = negsuc 0 }

-- `len != -1`
abbrev pub is_valid_len : ℤ → Bool
is_valid_len (pos n) = true
is_valid_len (negsuc n) = not (n == 0)

-- `len > 0`
abbrev pub is_nonempty_len : ℤ → Bool
is_nonempty_len (pos n) = ltb 0 n
is_nonempty_len (negsuc n) = false

-- `len >= 0`
abbrev pub is_natural : ℤ → Bool
is_natural (pos n) = true
is_natural (negsuc n) = false

abbrev pub is_valid : Component → Bool
is_valid c = is_valid_len c.len

abbrev pub is_nonempty : Component → Bool
is_nonempty c = is_nonempty_len c.len

-- An `int` that is passed as a `size_t` length, on a text of `n` bytes: a negative one is huge.
abbrev pub as_size : ℕ → ℤ → ℕ
as_size n (pos k) = k
as_size n (negsuc k) = n

pub record Parsed : Type 0 where
  pub scheme : Component
  pub username : Component
  pub password : Component
  pub host : Component
  pub port : Component
  pub path : Component
  pub query : Component
  pub ref : Component

abbrev pub no_components : Parsed
no_components = record {
  scheme = absent;
  username = absent;
  password = absent;
  host = absent;
  port = absent;
  path = absent;
  query = absent;
  ref = absent;
}

-- chromium/url, as far as `BkURL` calls it.
pub record UrlParser : Type 0 where
  pub parse_standard_url : Bytes → Parsed
  pub parse_port : Bytes → Component → ℤ
  pub resolve_relative : Bytes → Parsed → Bytes → Option (Bytes × Parsed)

pub record Url : Type 0 where
  pub valid : Bool
  pub text : Bytes
  pub parsed : Parsed

-- `BkURL(void)`
abbrev pub no_url : Url
no_url = record { valid = false; text = []; parsed = no_components }

-- `std::string::substr`: `none` is the exception `out_of_range`.
unfoldable pub substr : Bytes → ℕ → ℤ → Option Bytes
substr s p n = if leb p (length s) then some (take (as_size (length s) n) (drop p s)) else none

unfoldable pub component_string : Url → Component → Bytes
component_string u c = if is_nonempty c then take (as_size 0 c.len) (drop c.begin u.text) else []

unfoldable pub scheme_is : Url → Bytes → Bool
unfolding component_string
scheme_is u s = bytes_eq (component_string u u.parsed.scheme) s

abbrev pub http_scheme : Bytes
http_scheme = codes "http"

abbrev pub https_scheme : Bytes
https_scheme = codes "https"

unfoldable pub scheme_is_http_or_https : Url → Bool
unfolding scheme_is
scheme_is_http_or_https u = scheme_is u http_scheme || scheme_is u https_scheme

-- `PORT_UNSPECIFIED`, behind the assertion that it is not reached.
abbrev pub port_unspecified : ℤ
port_unspecified = negsuc 0

unfoldable pub path_for_request : Url → Option Bytes
path_for_request u =
    if is_valid u.parsed.ref
    then substr u.text u.parsed.path.begin
        (minus_ℕ (sub_ℕ u.parsed.ref.begin u.parsed.path.begin) 1)
    else if not (is_valid u.parsed.path)
    then some (codes "/")
    else substr u.text u.parsed.path.begin (
        if is_valid u.parsed.query
        then minus_ℕ (add_ℕ u.parsed.query.begin u.parsed.query.len) u.parsed.path.begin
        else u.parsed.path.len)

-- The length of a URL without its fragment: `al` and `bl`.
abbrev pub length_without_ref : Url → ℤ
length_without_ref u =
    if is_natural u.parsed.ref.len then sub_ℕ u.parsed.ref.begin 1 else pos (length u.text)

-- The loop over `i < al`; `none` is the exception of `at`.
unfoldable pub equal_up_to : ℕ → Bytes → Bytes → Option Bool
equal_up_to zero xs ys = some true
equal_up_to (suc n) (x ∷ xs) (y ∷ ys) =
    let rest = equal_up_to n xs ys in if not (x == y) then some false else rest
equal_up_to (suc n) _ _ = none

-- Both lengths are compared first, so the loop runs `al` times, or never for a negative `al`.
unfoldable pub equal_ignoring_fragment_identifier : Url → Url → Option Bool
unfolding equal_up_to
equal_ignoring_fragment_identifier a b = elim (length_without_ref a) [
  | pos n ↦ (elim (length_without_ref b) [
    | pos m ↦ if n == m then equal_up_to n a.text b.text else some false
    | negsuc m ↦ some false
  ])
  | negsuc n ↦ (elim (length_without_ref b) [ pos m ↦ some false | negsuc m ↦ some (n == m) ])
]

module _ (parser : UrlParser) where
  -- `BkURL(URLString)`
  unfoldable pub bk_url : Bytes → Url
  bk_url s =
      let p = parser.parse_standard_url s in
      record { valid = is_valid p.scheme; text = s; parsed = p }

  unfoldable pub effective_int_port : Url → ℤ
  unfolding scheme_is
  effective_int_port u =
      if is_nonempty u.parsed.port
      then parser.parse_port u.text u.parsed.port
      else if scheme_is u http_scheme
      then pos 80
      else if scheme_is u https_scheme
      then pos 443
      else port_unspecified

  unfoldable pub resolve : Url → Bytes → Url
  resolve u relative =
      if not u.valid then no_url else elim (parser.resolve_relative u.text u.parsed relative) [
        | none ↦ no_url
        | some (s, p) ↦ record { valid = true; text = s; parsed = p }
      ]
