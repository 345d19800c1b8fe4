-- ===== src/Http/HeaderMap/Lookup.antt =====
-- What `Get` returns after `Set` and after `Remove`.
use blinkit.Prelude.{
  List, [], ◌∷◌, ◌≡◌, ◌≢◌, refl, none, some, if◌then◌else◌, Bytes, bytes_eq, bytes_eq_iff,
  bytes_eq_refl, arith,
}
use blinkit.Http.Ascii.{Ascii}
use blinkit.Http.HeaderMap.{HeaderMap, find, assign, erase, canonize_header_name, get, set, remove}
use blinkit.Http.HeaderMap.Canon.{bytes_eq-canonize}

find-assign :
    (k j v : Bytes) (m : List (Bytes × Bytes))
    → find j (assign k v m) ≡ (if bytes_eq k j then some v else find j m)
unfolding find assign
find-assign k j v [] = refl
find-assign k j v ((i, w) ∷ m) =
    ground (arith, bytes_eq_iff k j, bytes_eq_iff i k, bytes_eq_iff i j, find-assign k j v m)

find-erase :
    (k j : Bytes) (m : List (Bytes × Bytes))
    → find j (erase k m) ≡ (if bytes_eq k j then none else find j m)
unfolding find erase
find-erase k j [] = ground arith
find-erase k j ((i, w) ∷ m) =
    ground (arith, bytes_eq_iff k j, bytes_eq_iff i k, bytes_eq_iff i j, find-erase k j m)

module _ (a : Ascii) where
  open a use {equals_case_insensitive}

  -- After `Set`, `Get` returns the new value under every spelling of the name, and what it
  -- returned before under every other name.
  pub get-set :
      (m : HeaderMap) (name other val : Bytes)
      → get a (set a m name val) other
        ≡ (if equals_case_insensitive name other then val else get a m other)
  unfolding get set
  get-set m name other val =
      rw
        (
          find-assign (canonize_header_name a name) (canonize_header_name a other) val m.headers,
          bytes_eq-canonize a name other,
        )
        (ground arith)

  -- `Remove` of a name in canonical form takes the header of that name away, in every spelling, and
  -- leaves what every other name has.
  get-remove :
      (m : HeaderMap) (name other : Bytes)
      → canonize_header_name a name ≡ name
      → get a (remove a m name) other
        ≡ (if equals_case_insensitive name other then [] else get a m other)
  unfolding get remove
  get-remove m name other c =
      rw
        (
          find-erase name (canonize_header_name a other) m.headers,
          ← bytes_eq-canonize a name other,
          c,
        )
        (ground arith)

  -- `Remove` does not canonize, which is a bug: a name that is not in canonical form removes
  -- nothing that `Set` has stored under it.
  get-remove_unchanged :
      (m : HeaderMap) (name val : Bytes)
      → canonize_header_name a name ≢ name
      → get a (remove a (set a m name val) name) name ≡ val
  unfolding get set remove
  get-remove_unchanged m name val ne = ground (
    arith,
    find-erase name (canonize_header_name a name)
        (assign (canonize_header_name a name) val m.headers),
    find-assign (canonize_header_name a name) (canonize_header_name a name) val m.headers,
    bytes_eq_refl (canonize_header_name a name),
    bytes_eq_iff name (canonize_header_name a name),
  )
