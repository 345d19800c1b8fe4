-- ===== src/Http/HeaderMap/Lines.antt =====
-- `GetAllForRequest`: one line for each header, and no line break but those.
use blinkit.Prelude.{
  ℕ, ◌+◌, Bool, true, false, List, [], ◌∷◌, ◌++◌, ◌≡◌, refl, ◌==◌, if◌then◌else◌, Bytes, length,
  arith, codes,
}
use blinkit.Http.Ascii.{Ascii}
use blinkit.Http.HeaderMap.{
  HeaderMap, assign, canonize_loop, canonize_header_name, set, get_all_for_request,
}

abbrev pub count : ℕ → Bytes → ℕ
count b [] = 0
count b (c ∷ cs) = (if c == b then 1 else 0) + count b cs

count-append : (b : ℕ) (xs ys : Bytes) → count b (xs ++ ys) ≡ count b xs + count b ys
count-append b [] ys = omega arith
count-append b (x ∷ xs) ys = omega (arith, count-append b xs ys)

-- No header holds a line feed, as the assertions of `Set` demand.
abbrev pub IsClean : List (Bytes × Bytes) → Type 0
IsClean [] = Unit {0}
IsClean ((k, v) ∷ m) = (count b'\n' k ≡ 0) × (count b'\n' v ≡ 0) × IsClean m

-- When no stored name or value holds a line feed, the text for a request has exactly as many line
-- feeds as there are headers, so that no line can be injected.
count-get_all_for_request :
    (m : List (Bytes × Bytes)) → IsClean m → count b'\n' (get_all_for_request m) ≡ length m
unfolding get_all_for_request
count-get_all_for_request [] h = refl
count-get_all_for_request ((k, v) ∷ m) (hk, hv, h) = omega (
  arith,
  count-append b'\n' k (codes ": " ++ (v ++ (b'\r' ∷ b'\n' ∷ get_all_for_request m))),
  count-append b'\n' v (b'\r' ∷ b'\n' ∷ get_all_for_request m),
  count-get_all_for_request m h,
)

assign-IsClean :
    (k v : Bytes) (m : List (Bytes × Bytes))
    → count b'\n' k ≡ 0
    → count b'\n' v ≡ 0
    → IsClean m
    → IsClean (assign k v m)
unfolding assign
assign-IsClean k v [] hk hv h = (hk, hv, tt)
assign-IsClean k v ((j, w) ∷ m) hk hv h = ground (arith, assign-IsClean k v m hk hv h.2)

module _ (a : Ascii)
    (keeps_line_feed : (c : ℕ)
      → ((a.to_upper c == b'\n') ≡ (c == b'\n')) × ((a.to_lower c == b'\n') ≡ (c == b'\n'))) where
  count-canonize_loop : (u : Bool) (h : Bytes) → count b'\n' (canonize_loop a u h) ≡ count b'\n' h
  unfolding canonize_loop
  count-canonize_loop u [] = refl
  count-canonize_loop true (c ∷ cs) =
      rw ((keeps_line_feed c).0) (omega (arith, count-canonize_loop (a.to_upper c == b'-') cs))
  count-canonize_loop false (c ∷ cs) =
      rw ((keeps_line_feed c).1) (omega (arith, count-canonize_loop (a.to_lower c == b'-') cs))

  -- When the case mappings make no line feed and take none away, `Set` of a name and a value
  -- without line feeds keeps the map free of line feeds.
  set-IsClean :
      (m : HeaderMap) (name val : Bytes)
      → count b'\n' name ≡ 0
      → count b'\n' val ≡ 0
      → IsClean m.headers
      → IsClean (set a m name val).headers
  unfolding set canonize_header_name
  set-IsClean m name val hn hv h =
      assign-IsClean _ val m.headers (ground (arith, count-canonize_loop true name)) hv h
