-- ===== src/Http/Response/Headers.antt =====
-- `ParseHeaders`: the cookies and the headers that a block of header lines leaves.
use mathlib.Core.List.{append_assoc, append-nil}
use blinkit.Prelude.{
  ℕ, Bool, true, false, not, ◌&&◌, List, [], ◌∷◌, ◌++◌, ◌≡◌, refl, sym, ap, ◌∙◌, inl, inr, Option,
  none, some, Bool-cases, if◌then◌else◌, drop, Bytes, arith,
}
use blinkit.Http.Ascii.{Ascii}
use blinkit.Http.HeaderMap.{get}
use blinkit.Http.HeaderMap.Lookup.{get-set}
use blinkit.Http.Response.{
  Response, HeaderText, after_line_feed, set_cookie, add_pair, add_pairs, parse_headers,
}

module _ (a : Ascii) (t : HeaderText) where
  open a use {equals_case_insensitive}

  abbrev pub is_cookie : Bytes → Bool
  is_cookie first = equals_case_insensitive (t.trim first) set_cookie

  -- The values of the `Set-Cookie` lines, in their order.
  abbrev pub cookie_values : List (Bytes × Bytes) → List Bytes
  cookie_values [] = []
  cookie_values ((k, v) ∷ ps) =
      if is_cookie k then t.trim v ∷ cookie_values ps else cookie_values ps

  abbrev pub first_of_two : Option Bytes → Option Bytes → Option Bytes
  first_of_two (some v) o = some v
  first_of_two none o = o

  -- The value of the last other line whose name is `name` up to case.
  abbrev pub last_value : Bytes → List (Bytes × Bytes) → Option Bytes
  last_value name [] = none
  last_value name ((k, v) ∷ ps) = first_of_two (last_value name ps) (
      if not (is_cookie k) && equals_case_insensitive (t.trim k) name
      then some (t.trim v)
      else none)

  abbrev pub value_or : Option Bytes → Bytes → Bytes
  value_or none d = d
  value_or (some v) d = v

  value_or-first_of_two :
      (o p : Option Bytes) (d : Bytes) → value_or (first_of_two o p) d ≡ value_or o (value_or p d)
  value_or-first_of_two none p d = refl
  value_or-first_of_two (some v) p d = refl

  cookies-add_pair :
      (r : Response) (k v : Bytes)
      → (add_pair a t r (k, v)).cookies
        ≡ (if is_cookie k then r.cookies ++ (t.trim v ∷ []) else r.cookies)
  unfolding add_pair
  cookies-add_pair r k v = ground arith

  cookies-add_pairs :
      (ps : List (Bytes × Bytes)) (r : Response)
      → (add_pairs a t r ps).cookies ≡ r.cookies ++ cookie_values ps
  unfolding add_pairs
  cookies-add_pairs [] r = sym (append-nil r.cookies)
  cookies-add_pairs ((k, v) ∷ ps) r =
      cookies-add_pairs ps (add_pair a t r (k, v))
      ∙ rw (cookies-add_pair r k v) (elim (Bool-cases (is_cookie k)) [
        | inl e ↦ rw e (append_assoc r.cookies (t.trim v ∷ []) (cookie_values ps))
        | inr e ↦ rw e refl
      ])

  get-add_pair :
      (r : Response) (k v name : Bytes)
      → get a (add_pair a t r (k, v)).headers name
        ≡ value_or
            (if not (is_cookie k) && equals_case_insensitive (t.trim k) name
              then some (t.trim v)
              else none)
            (get a r.headers name)
  unfolding add_pair
  get-add_pair r k v name = ground (arith, get-set a r.headers (t.trim k) name (t.trim v))

  get-add_pairs :
      (ps : List (Bytes × Bytes)) (r : Response) (name : Bytes)
      → get a (add_pairs a t r ps).headers name
        ≡ value_or (last_value name ps) (get a r.headers name)
  unfolding add_pairs
  get-add_pairs [] r name = refl
  get-add_pairs ((k, v) ∷ ps) r name =
      get-add_pairs ps (add_pair a t r (k, v)) name
      ∙ rw (get-add_pair r k v name) (sym (value_or-first_of_two (last_value name ps) _ _))

  kept-add_pair :
      (r : Response) (k v : Bytes)
      → let q = add_pair a t r (k, v) in
        (q.status_code ≡ r.status_code) × (q.url ≡ r.url) × (q.body ≡ r.body)
  unfolding add_pair
  kept-add_pair r k v = ground arith

  kept-add_pairs :
      (ps : List (Bytes × Bytes)) (r : Response)
      → let q = add_pairs a t r ps in
        (q.status_code ≡ r.status_code) × (q.url ≡ r.url) × (q.body ≡ r.body)
  unfolding add_pairs
  kept-add_pairs [] r = (refl, refl, refl)
  kept-add_pairs ((k, v) ∷ ps) r =
      let q = add_pair a t r (k, v) in
      let one = kept-add_pair r k v in
      let rest = kept-add_pairs ps q in (rest.0 ∙ one.0, rest.1 ∙ one.1, rest.2 ∙ one.2)

  -- A well-formed block sets the status, appends the values of its `Set-Cookie` lines to the
  -- cookies, and gives each header the value of its last line; the URL and the body stay.
  pub parse_headers_lem :
      (r : Response) (raw input : Bytes) (status n : ℕ) (ps : List (Bytes × Bytes))
      → t.status_line raw ≡ some (status, n)
      → after_line_feed (drop n raw) ≡ some input
      → t.split_pairs input ≡ (true, ps)
      → let q = parse_headers a t r raw in
        (q.status_code ≡ status)
        × (q.cookies ≡ r.cookies ++ cookie_values ps)
        × ((name : Bytes)
            → get a q.headers name ≡ value_or (last_value name ps) (get a r.headers name))
        × (q.url ≡ r.url)
        × (q.body ≡ r.body)
  unfolding parse_headers
  parse_headers_lem r raw input status n ps e f g =
      let r' : Response = record r { status_code = status } in
      let g₀ : (t.split_pairs input).0 ≡ true = ap (λ (x : Bool × List (Bytes × Bytes)). x.0) g in
      let q : parse_headers a t r raw ≡ add_pairs a t r' ps =
        rw (e, parse_headers, f, g₀)
          (ap (λ (x : Bool × List (Bytes × Bytes)). add_pairs a t r' x.1) g) in
      rw q (
        (kept-add_pairs ps r').0,
        cookies-add_pairs ps r',
        (λ name. get-add_pairs ps r' name),
        (kept-add_pairs ps r').1,
        (kept-add_pairs ps r').2,
      )

  -- A block with a malformed line sets the status and drops every header and cookie.
  parse_headers_malformed :
      (r : Response) (raw input : Bytes) (status n : ℕ)
      → t.status_line raw ≡ some (status, n)
      → after_line_feed (drop n raw) ≡ some input
      → (t.split_pairs input).0 ≡ false
      → parse_headers a t r raw ≡ record r { status_code = status }
  unfolding parse_headers
  parse_headers_malformed r raw input status n e f g = rw (e, parse_headers, f, g) refl
