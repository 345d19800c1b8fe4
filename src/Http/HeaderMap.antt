-- ===== src/Http/HeaderMap.antt =====
-- blinkit/common/bk_http_header_map.cpp. The `unordered_map` is an association list: the order of
-- the list stands for the iteration order, which the source leaves open.
pub mod Canon
pub mod Lookup
pub mod Lines
use blinkit.Prelude.{
  ℕ, Bool, true, false, List, [], ◌∷◌, ◌++◌, Option, none, some, ◌==◌, if◌then◌else◌, Bytes, codes,
  bytes_eq,
}
use blinkit.Http.Ascii.{Ascii}

pub record HeaderMap : Type 0 where
  pub headers : List (Bytes × Bytes)

abbrev pub empty : HeaderMap
empty = record { headers = [] }

-- `m_headers.clear()`
unfoldable pub clear : HeaderMap → HeaderMap
clear m = record m { headers = [] }

-- `unordered_map`: `find`, `operator[]` with an assignment, and `erase`.
unfoldable pub find : Bytes → List (Bytes × Bytes) → Option Bytes
find k [] = none
find k ((j, v) ∷ m) = if bytes_eq j k then some v else find k m

unfoldable pub assign : Bytes → Bytes → List (Bytes × Bytes) → List (Bytes × Bytes)
assign k v [] = (k, v) ∷ []
assign k v ((j, w) ∷ m) = if bytes_eq j k then (j, v) ∷ m else (j, w) ∷ assign k v m

unfoldable pub erase : Bytes → List (Bytes × Bytes) → List (Bytes × Bytes)
erase k [] = []
erase k ((j, w) ∷ m) = let rest = erase k m in if bytes_eq j k then rest else (j, w) ∷ rest

abbrev pub or_empty : Option Bytes → Bytes
or_empty none = []
or_empty (some v) = v

abbrev pub etag : Bytes
etag = codes "ETag"

-- `GetAllForRequest`
unfoldable pub get_all_for_request : List (Bytes × Bytes) → Bytes
get_all_for_request [] = []
get_all_for_request ((k, v) ∷ m) =
    k ++ (codes ": " ++ (v ++ (b'\r' ∷ b'\n' ∷ get_all_for_request m)))

module _ (a : Ascii) where
  open a use {to_lower, to_upper, equals_case_insensitive}

  -- The loop of `CanonizeHeaderName`; the flag is `upperNext`.
  unfoldable pub canonize_loop : Bool → Bytes → Bytes
  canonize_loop upper_next [] = []
  canonize_loop upper_next (c ∷ cs) =
      let d = if upper_next then to_upper c else to_lower c in d ∷ canonize_loop (d == b'-') cs

  -- `CanonizeHeaderName`; "ETag" is its only special name.
  unfoldable pub canonize_header_name : Bytes → Bytes
  canonize_header_name header =
      if equals_case_insensitive header etag then etag else canonize_loop true header

  unfoldable pub get : HeaderMap → Bytes → Bytes
  get m name = or_empty (find (canonize_header_name name) m.headers)

  unfoldable pub set : HeaderMap → Bytes → Bytes → HeaderMap
  set m name val = record m { headers = assign (canonize_header_name name) val m.headers }

  -- `Remove` erases by the name as it is given.
  unfoldable pub remove : HeaderMap → Bytes → HeaderMap
  remove m name = record m { headers = erase name m.headers }
