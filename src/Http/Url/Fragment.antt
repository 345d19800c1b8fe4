-- ===== src/Http/Url/Fragment.antt =====
-- `EqualIgnoringFragmentIdentifier` on URLs that the parser has laid out.
use blinkit.Prelude.{
  false, ◌≡◌, ◌≢◌, refl, sym, ap, [], ◌∷◌, ◌++◌, inl, inr, some, Option-cases, length,
  length-append, Bytes, bytes_eq, bytes_eq_iff, ◌==◌, ==_iff, pos, Bool-cases, arith,
}
use blinkit.Http.Url.{Url, equal_up_to, length_without_ref, equal_ignoring_fragment_identifier}
use blinkit.Http.Url.Layout.{Layout, base, Describes}

equal_up_to-append :
    (xs ys r s : Bytes)
    → length xs ≡ length ys
    → equal_up_to (length xs) (xs ++ r) (ys ++ s) ≡ some (bytes_eq xs ys)
unfolding equal_up_to bytes_eq
equal_up_to-append [] [] r s h = refl
equal_up_to-append [] (y ∷ ys) r s h = absurd (omega arith)
equal_up_to-append (x ∷ xs) [] r s h = absurd (omega arith)
equal_up_to-append (x ∷ xs) (y ∷ ys) r s h = ground (arith, equal_up_to-append xs ys r s)

bytes_eq_of_length_ne : (xs ys : Bytes) → length xs ≢ length ys → bytes_eq xs ys ≡ false
bytes_eq_of_length_ne xs ys ne = elim (Bool-cases (bytes_eq xs ys)) [
  | inl e ↦ absurd (ne (ap length ((bytes_eq_iff xs ys).0 e)))
  | inr e ↦ e
]

length_without_ref-Describes :
    (u : Url) (l : Layout) → Describes u l → length_without_ref u ≡ pos (length (base l))
length_without_ref-Describes u l d = elim (Option-cases l.ref) [
  | inl e ↦ rw (d.ref_is, d.text_is, e) (ap pos (omega (arith, length-append (base l) [])))
  | inr (r, e) ↦ rw (d.ref_is, e) (ground arith)
]

-- Two URLs compare equal exactly when all of them but the fragments is equal, and the comparison
-- never reads out of bounds.
equal_ignoring-Describes :
    (a b : Url) (la lb : Layout)
    → Describes a la
    → Describes b lb
    → equal_ignoring_fragment_identifier a b ≡ some (bytes_eq (base la) (base lb))
unfolding equal_ignoring_fragment_identifier
equal_ignoring-Describes a b la lb da db =
    rw
      (
        length_without_ref-Describes a la da,
        length_without_ref-Describes b lb db,
        equal_ignoring_fragment_identifier,
        da.text_is,
        db.text_is,
      )
      (elim (Bool-cases (length (base la) == length (base lb))) [
        | inl e ↦ rw e (equal_up_to-append (base la) (base lb) _ _ ((==_iff _ _).0 e))
        | inr e ↦ rw e (
            ap some (
              sym (
                bytes_eq_of_length_ne (base la) (base lb)
                  (ground (arith, ==_iff (length (base la)) (length (base lb)))))))
      ])
