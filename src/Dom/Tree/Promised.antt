-- ===== src/Dom/Tree/Promised.antt =====
-- What `RemoveChild`, `AppendChild` and `InsertBefore` promise of the lists of children.
use blinkit.Prelude.{
  ℕ, Bool, true, false, not, List, [], ◌∷◌, ◌++◌, ◌≡◌, refl, ap, sym, subst, Option, none, some,
  ◌==◌, ==_iff, if◌then◌else◌, arith,
}
use blinkit.Dom.Tree.{Outcome, done, hierarchy_request_error, not_found_error, same}
use blinkit.Dom.Tree.Chains.{mem}
use blinkit.Dom.Tree.Shape.{Represents, put}
use blinkit.Dom.Tree.Edits.{without, put_before, detach}

-- An edit of lists of children, or its error.
pub data Edit : Type 0 where
  edited : (ℕ → List ℕ) → Edit
  cyclic absent misplaced : Edit

-- The tree of an outcome represents the edited lists, and the errors agree.
abbrev pub Implements : Outcome → Edit → Type 0
Implements (done t) (edited kids) = Represents t kids
Implements (done t) cyclic = ⊥
Implements (done t) absent = ⊥
Implements (done t) misplaced = ⊥
Implements hierarchy_request_error (edited kids) = ⊥
Implements hierarchy_request_error cyclic = Unit
Implements hierarchy_request_error absent = ⊥
Implements hierarchy_request_error misplaced = Unit
Implements not_found_error (edited kids) = ⊥
Implements not_found_error cyclic = ⊥
Implements not_found_error absent = Unit
Implements not_found_error misplaced = ⊥

abbrev pub removal : ℕ → ℕ → (ℕ → List ℕ) → Edit
removal p c kids = if mem c (kids p) then edited (detach c kids) else absent

-- A node moves to the end of the children of another one.
abbrev pub appending : Bool → Bool → ℕ → ℕ → (ℕ → List ℕ) → Edit
appending cycle allowed p c kids =
    if cycle
    then cyclic
    else if not allowed
    then misplaced
    else edited (put p (without c (kids p) ++ (c ∷ [])) (detach c kids))

-- A node moves before a child; before itself it stays.
abbrev pub inserting : Bool → Bool → ℕ → ℕ → ℕ → (ℕ → List ℕ) → Edit
inserting cycle allowed p d c kids =
    if cycle
    then cyclic
    else if not (mem d (kids p))
    then absent
    else if not allowed
    then misplaced
    else if d == c
    then edited kids
    else edited (put p (put_before c d (without c (kids p))) (detach c kids))

pub Implements-if :
    {a b : Bool} (o m : Outcome) (e f : Edit)
    → a ≡ b
    → (b ≡ true → Implements o e)
    → (b ≡ false → Implements m f)
    → Implements (if a then o else m) (if b then e else f)
Implements-if {a} {b} o m e f h g k =
    subst (λ (c : Bool). Implements (if c then o else m) (if b then e else f)) (sym h)
      (by_test b g k)
  where
    by_test :
        (c : Bool)
        → (c ≡ true → Implements o e)
        → (c ≡ false → Implements m f)
        → Implements (if c then o else m) (if c then e else f)
    by_test true x y = x refl
    by_test false x y = y refl

pub same-some : (o : Option ℕ) (p : ℕ) → same o (some p) ≡ true → o ≡ some p
same-some none p e = absurd (ground arith)
same-some (some a) p e = ap some (sym ((==_iff p a).0 e))
