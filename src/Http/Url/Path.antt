-- ===== src/Http/Url/Path.antt =====
-- `PathForRequest` on a URL that the parser has laid out.
use mathlib.Core.List.{append-nil, append_assoc}
use blinkit.Prelude.{
  ℕ, suc, ◌+◌, ◌≡◌, refl, sym, ap, ◌∙◌, [], ◌∷◌, ◌++◌, inl, inr, none, some, length, length-append,
  Option-cases, Bytes, codes, ℤ, pos, sub_ℕ, minus_ℕ, arith,
}
use blinkit.Http.Url.{Url, substr, path_for_request}
use blinkit.Http.Url.Layout.{Layout, marked, target, base, Describes, substr_middle}

minus-sub : (a n : ℕ) → minus_ℕ (sub_ℕ (a + n + 1) a) 1 ≡ pos n
minus-sub a n = ground arith

minus-add : (a n m : ℕ) → minus_ℕ (pos (a + n + 1 + m)) a ≡ pos (n + suc m)
minus-add a n m = ground arith

text_is' :
    (u : Url) (l : Layout) → Describes u l → u.text ≡ l.front ++ (target l ++ marked b'#' l.ref)
text_is' u l d = d.text_is ∙ append_assoc l.front (target l) (marked b'#' l.ref)

-- What is left of the path and the query, cut out of the text by its place.
cut :
    (u : Url) (l : Layout) (n : ℤ)
    → Describes u l
    → n ≡ pos (length (target l))
    → substr u.text (length l.front) n ≡ some (target l)
cut u l n d e = rw (e, text_is' u l d) (substr_middle l.front (target l) (marked b'#' l.ref))

from_start : (b r : Bytes) → substr (b ++ r) 0 (minus_ℕ (sub_ℕ (length b + 1) 0) 1) ≡ some b
from_start b r =
    let e : minus_ℕ (sub_ℕ (length b + 1) 0) 1 ≡ pos (length b) = ground arith in
    rw e (substr_middle [] b r)

-- For a URL with a path, `PathForRequest` is the path and the query, without the fragment.
path_for_request-Describes :
    (u : Url) (l : Layout) (p : Bytes)
    → Describes u l
    → l.path ≡ some p
    → path_for_request u ≡ some (target l)
unfolding path_for_request
path_for_request-Describes u l p d e = elim (Option-cases l.ref) [
  | inr (r, er) ↦
      (rw (d.ref_is, d.path_is, er, e) refl)
      ∙ cut u l (minus_ℕ (sub_ℕ (length (base l) + 1) (length l.front)) 1) d
          (rw (length-append l.front (target l)) (minus-sub (length l.front) (length (target l))))
  | inl er ↦ elim (Option-cases l.query) [
    | inr (q, eq) ↦
        (rw (d.ref_is, d.path_is, d.query_is, er, e, eq) refl)
        ∙ cut u l (minus_ℕ (pos (length l.front + length p + 1 + length q)) (length l.front)) d (
            minus-add (length l.front) (length p) (length q)
            ∙ ap pos (rw (e, eq) (sym (length-append p (b'?' ∷ q)))))
    | inl eq ↦
        (rw (d.ref_is, d.path_is, d.query_is, er, e, eq) refl)
        ∙ cut u l (pos (length p)) d (ap pos (rw (e, eq, append-nil p) refl))
  ]
]

-- A URL without a path, which is a bug: without a fragment `PathForRequest` is "/", and the query
-- is lost; with one it is all that stands before the fragment, the scheme and the authority too.
path_for_request_no_path :
    (u : Url) (l : Layout)
    → Describes u l
    → l.path ≡ none
    → path_for_request u ≡ (elim l.ref [ none ↦ some (codes "/") | some r ↦ some (base l) ])
unfolding path_for_request
path_for_request_no_path u l d e = elim (Option-cases l.ref) [
  | inr (r, er) ↦
      rw (d.ref_is, d.path_is, d.text_is, er, e)
        (from_start (l.front ++ marked b'?' l.query) (b'#' ∷ r))
  | inl er ↦ rw (d.ref_is, d.path_is, er, e) refl
]
