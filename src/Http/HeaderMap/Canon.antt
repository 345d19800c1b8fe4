-- ===== src/Http/HeaderMap/Canon.antt =====
-- `CanonizeHeaderName` and letter case.
use blinkit.Prelude.{
  Bool, true, false, [], ◌∷◌, ◌≡◌, ◌↔◌, refl, sym, ap, ◌∙◌, inl, inr, map, ◌==◌, Bool-cases,
  Bool-ext, Bytes, bytes_eq, bytes_eq_iff,
}
use blinkit.Http.Ascii.{Ascii}
use blinkit.Http.HeaderMap.{etag, canonize_loop, canonize_header_name}

module _ (a : Ascii) where
  open a use {to_lower, to_upper, equals_case_insensitive}

  lower-canonize_loop : (u : Bool) (h : Bytes) → map to_lower (canonize_loop a u h) ≡ map to_lower h
  unfolding canonize_loop
  lower-canonize_loop u [] = refl
  lower-canonize_loop true (c ∷ cs) =
      rw (a.lower-upper c) (ap (◌∷◌ (to_lower c)) (lower-canonize_loop (to_upper c == b'-') cs))
  lower-canonize_loop false (c ∷ cs) =
      rw (a.lower_idem c) (ap (◌∷◌ (to_lower c)) (lower-canonize_loop (to_lower c == b'-') cs))

  canonize_loop-lower :
      (u : Bool) (h : Bytes) → canonize_loop a u (map to_lower h) ≡ canonize_loop a u h
  unfolding canonize_loop
  canonize_loop-lower u [] = refl
  canonize_loop-lower true (c ∷ cs) =
      rw (a.upper-lower c) (ap (◌∷◌ (to_upper c)) (canonize_loop-lower (to_upper c == b'-') cs))
  canonize_loop-lower false (c ∷ cs) =
      rw (a.lower_idem c) (ap (◌∷◌ (to_lower c)) (canonize_loop-lower (to_lower c == b'-') cs))

  -- The canonical name is the given one up to case.
  pub lower-canonize_header_name :
      (h : Bytes) → map to_lower (canonize_header_name a h) ≡ map to_lower h
  unfolding canonize_header_name
  lower-canonize_header_name h = elim (Bool-cases (equals_case_insensitive h etag)) [
    | inl e ↦ rw e (sym ((bytes_eq_iff _ _).0 (sym (a.equals_lem h etag) ∙ e)))
    | inr e ↦ rw e (lower-canonize_loop true h)
  ]

  -- It depends on the lower-case form only.
  canonize_header_name-congr :
      (h k : Bytes)
      → map to_lower h ≡ map to_lower k
      → canonize_header_name a h ≡ canonize_header_name a k
  unfolding canonize_header_name
  canonize_header_name-congr h k e = rw (
    a.equals_lem h etag,
    a.equals_lem k etag,
    ← canonize_loop-lower true h,
    ← canonize_loop-lower true k,
    e,
  )

  -- Two names have one canonical form exactly when they are equal up to ASCII case.
  canonize_header_name_iff :
      (h k : Bytes)
      → (canonize_header_name a h ≡ canonize_header_name a k) ↔ (map to_lower h ≡ map to_lower k)
  canonize_header_name_iff h k = (
    λ e. sym (lower-canonize_header_name h) ∙ ap (map to_lower) e ∙ lower-canonize_header_name k,
    canonize_header_name-congr h k,
  )

  pub canonize_header_name_idem :
      (h : Bytes) → canonize_header_name a (canonize_header_name a h) ≡ canonize_header_name a h
  canonize_header_name_idem h = canonize_header_name-congr _ h (lower-canonize_header_name h)

  -- The test that tells two names apart, on canonical forms.
  pub bytes_eq-canonize :
      (h k : Bytes)
      → bytes_eq (canonize_header_name a h) (canonize_header_name a k) ≡ equals_case_insensitive h k
  bytes_eq-canonize h k = rw (a.equals_lem h k) (
      Bool-ext _ _
        (λ e. (bytes_eq_iff _ _).1 ((canonize_header_name_iff h k).0 ((bytes_eq_iff _ _).0 e)))
        (λ e. (bytes_eq_iff _ _).1 ((canonize_header_name_iff h k).1 ((bytes_eq_iff _ _).0 e))))
