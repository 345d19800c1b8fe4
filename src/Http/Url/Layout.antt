-- ===== src/Http/Url/Layout.antt =====
-- The documented result of the URL parser: where the path, the query and the fragment of a
-- standard URL stand in its text. A part that is missing has no component.
use blinkit.Prelude.{
  ℕ, ◌+◌, ◌≡◌, [], ◌∷◌, ◌++◌, Option, none, some, length, length-append, take-append, drop-append,
  Bytes, pos, arith,
}
use blinkit.Http.Url.{Url, Component, absent, substr}

pub record Layout : Type 0 where
  -- All that stands before the path: scheme and authority.
  pub front : Bytes
  pub path : Option Bytes
  pub query : Option Bytes
  pub ref : Option Bytes

abbrev pub text_of : Option Bytes → Bytes
text_of none = []
text_of (some t) = t

-- A part behind its mark.
abbrev pub marked : ℕ → Option Bytes → Bytes
marked mark none = []
marked mark (some t) = mark ∷ t

-- The path and the query: what a request line asks for.
abbrev pub target : Layout → Bytes
target l = text_of l.path ++ marked b'?' l.query

-- All but the fragment.
abbrev pub base : Layout → Bytes
base l = l.front ++ target l

abbrev pub url_text : Layout → Bytes
url_text l = base l ++ marked b'#' l.ref

abbrev pub component_at : ℕ → Option Bytes → Component
component_at b none = absent
component_at b (some t) = record { begin = b; len = pos (length t) }

pub record Describes (u : Url) (l : Layout) : Type 0 where
  pub text_is : u.text ≡ url_text l
  pub path_is : u.parsed.path ≡ component_at (length l.front) l.path
  pub query_is :
      u.parsed.query ≡ component_at (length l.front + length (text_of l.path) + 1) l.query
  pub ref_is : u.parsed.ref ≡ component_at (length (base l) + 1) l.ref

-- `substr` cuts out the middle of three parts.
pub substr_middle : (f m r : Bytes) → substr (f ++ (m ++ r)) (length f) (pos (length m)) ≡ some m
unfolding substr
substr_middle f m r =
    rw (drop-append f (m ++ r), take-append m r) (ground (arith, length-append f (m ++ r)))
