-- ===== src/Http/Request/Options.antt =====
-- `Perform`: what libcurl is told, and what happens to the request object.
use mathlib.Core.List.{append_assoc, append-nil}
use blinkit.Prelude.{
  ◌+◌, Bool, true, List, [], ◌∷◌, ◌++◌, ◌≡◌, ◌≢◌, ◌⊎◌, refl, ap, ◌∙◌, inl, inr, none, some,
  Bool-cases, Option-cases, if◌then◌else◌, length, Bytes, codes, arith,
}
use blinkit.Http.Ascii.{Ascii}
use blinkit.Http.Code.{success}
use blinkit.Http.Url.{UrlParser}
use blinkit.Http.Request.{
  Request, CurlOption, post, http_header, translate_option, header_line, process_headers,
  adjust_method, apply_headers_list, perform,
}

module _ (a : Ascii) where
  -- The headers with an option of their own, as options, and the others, as lines.
  abbrev pub own_options : List (Bytes × Bytes) → List CurlOption
  own_options [] = []
  own_options ((k, v) ∷ hs) = elim (translate_option a k v) [
    | none ↦ own_options hs
    | some o ↦ o ∷ own_options hs
  ]

  abbrev pub plain_lines : List (Bytes × Bytes) → List Bytes
  plain_lines [] = []
  plain_lines ((k, v) ∷ hs) = elim (translate_option a k v) [
    | none ↦ header_line a (k, v) ∷ plain_lines hs
    | some o ↦ plain_lines hs
  ]

  process_headers_lem :
      (hs : List (Bytes × Bytes)) (r : Request)
      → process_headers a r hs ≡ record r {
        options = r.options ++ own_options hs;
        headers_list = r.headers_list ++ plain_lines hs;
      }
  unfolding process_headers
  process_headers_lem [] r = rw (append-nil r.options, append-nil r.headers_list) refl
  process_headers_lem ((k, v) ∷ hs) r = elim (Option-cases (translate_option a k v)) [
    | inl e ↦
        let line = header_line a (k, v) in
        ground (
          arith,
          process_headers_lem hs (record r { headers_list = r.headers_list ++ (line ∷ []) }),
          append_assoc r.headers_list (line ∷ []) (plain_lines hs),
        )
    | inr (o, e) ↦ ground (
      arith,
      process_headers_lem hs (record r { options = r.options ++ (o ∷ []) }),
      append_assoc r.options (o ∷ []) (own_options hs),
    )
  ]

  -- No header is lost, and none is sent twice.
  pub length-own_options :
      (hs : List (Bytes × Bytes)) → length (own_options hs) + length (plain_lines hs) ≡ length hs
  length-own_options [] = omega arith
  length-own_options ((k, v) ∷ hs) = ground (arith, length-own_options hs)

  abbrev pub post_option : Request → List CurlOption
  post_option r = if a.equals_case_insensitive r.method (codes "POST") then post true ∷ [] else []

  abbrev pub list_option : List Bytes → List CurlOption
  list_option [] = []
  list_option (l ∷ ls) = http_header (l ∷ ls) ∷ []

  adjust_method_lem :
      (r : Request) → adjust_method a r ≡ record r { options = r.options ++ post_option r }
  unfolding adjust_method
  adjust_method_lem r = elim (Bool-cases (a.equals_case_insensitive r.method (codes "POST"))) [
    | inl e ↦ rw e refl
    | inr e ↦ rw (e, append-nil r.options) refl
  ]

  apply_headers_list_lem :
      (r : Request) (ls : List Bytes)
      → r.headers_list ≡ ls
      → apply_headers_list a r ≡ record r { options = r.options ++ list_option ls }
  unfolding apply_headers_list
  apply_headers_list_lem r [] e = ground (arith, append-nil r.options)
  apply_headers_list_lem r (l ∷ ls) e = ground arith

  module _ (parser : UrlParser) where
    deletes_kept :
        (r : Request)
        → let q = adjust_method a r in
          (apply_headers_list a (process_headers a q q.headers.headers)).deletes ≡ r.deletes
    deletes_kept r =
        let q = adjust_method a r in
        let p = process_headers a q q.headers.headers in
        ap (λ (x : Request). x.deletes) (apply_headers_list_lem p p.headers_list refl)
        ∙ ap (λ (x : Request). x.deletes) (process_headers_lem q.headers.headers q)
        ∙ ap (λ (x : Request). x.deletes) (adjust_method_lem r)

    -- `Perform` either succeeds, which needs a thread, and deletes nothing, or comes back with an
    -- error and has deleted the request once.
    pub perform_failure :
        (r : Request) (created : Bool)
        → let q = perform a parser created r in
          ((q.0 ≡ success) × (q.1.deletes ≡ r.deletes) × (created ≡ true))
          ⊎ ((q.0 ≢ success) × (q.1.deletes ≡ r.deletes + 1))
    unfolding perform
    perform_failure r created = ground (arith, deletes_kept r)
