-- ===== src/Dom/Tree/Middle.antt =====
-- A list of children with a node in its middle, and without it.
use blinkit.Prelude.{
  ℕ, true, false, ◌||◌, List, [], ◌∷◌, ◌++◌, ◌≡◌, ap, sym, ◌∙◌, Option, none, some, ◌==◌, ==_iff,
  ==_refl, Bool-cases, inl, inr, if◌then◌else◌, arith,
}
use blinkit.Dom.Tree.{same}
use blinkit.Dom.Tree.Chains.{mem, distinct, head_or, last_or, mem-append, last_or-append}
use blinkit.Dom.Tree.Moves.{if_true, if_false, same_last-not_mem}

pub distinct-disjoint :
    (us ys : List ℕ) (x : ℕ) → distinct (us ++ ys) ≡ true → mem x us ≡ true → mem x ys ≡ false
unfolding distinct mem
distinct-disjoint [] ys x d m = absurd (ground arith)
distinct-disjoint (u ∷ us) ys x d m = elim (Bool-cases (x == u)) [
  | inl e ↦
      let f = ap (λ (z : ℕ). mem z ys) ((==_iff x u).0 e) in ground (arith, mem-append u us ys)
  | inr n ↦ distinct-disjoint us ys x (ground arith) (ground arith)
]

pub distinct-disjoint_before :
    (us ys : List ℕ) (x : ℕ) → distinct (us ++ ys) ≡ true → mem x ys ≡ true → mem x us ≡ false
distinct-disjoint_before us ys x d m = elim (Bool-cases (mem x us)) [
  | inl i ↦ let f = distinct-disjoint us ys x d i in ground arith
  | inr o ↦ o
]

pub not_mem-append :
    (x : ℕ) (us ys : List ℕ) → mem x (us ++ ys) ≡ false → (mem x us ≡ false) × (mem x ys ≡ false)
not_mem-append x us ys n = ground (arith, mem-append x us ys)

pub not_mem-cons :
    (x c : ℕ) (ys : List ℕ) → mem x (c ∷ ys) ≡ false → ((x == c) ≡ false) × (mem x ys ≡ false)
unfolding mem
not_mem-cons x c ys n = ground arith

-- The children without one of them.
pub mem-middle : (x c : ℕ) (us vs : List ℕ) → mem x (us ++ (c ∷ vs)) ≡ (mem x (us ++ vs) || x == c)
unfolding mem
mem-middle x c [] vs = ground arith
mem-middle x c (u ∷ us) vs = ground (arith, mem-middle x c us vs)

pub first_removed :
    (us vs : List ℕ) (c : ℕ) (o : Option ℕ)
    → o ≡ head_or (us ++ (c ∷ vs)) none
    → mem c (us ++ vs) ≡ false
    → (if same o (some c) then head_or vs none else o) ≡ head_or (us ++ vs) none
unfolding mem
first_removed [] vs c o e n = rw e (if_true (head_or vs none) (some c) (==_refl c))
first_removed (u ∷ us) vs c o e n =
    rw e (if_false (head_or vs none) (some u) (not_mem-cons c u (us ++ vs) n).0)

pub last_removed :
    (us vs : List ℕ) (c : ℕ) (o : Option ℕ)
    → o ≡ last_or none (us ++ (c ∷ vs))
    → mem c (us ++ vs) ≡ false
    → (if same o (some c) then last_or none us else o) ≡ last_or none (us ++ vs)
last_removed us [] c o e n =
    rw (e ∙ last_or-append us (c ∷ []) none)
      (if_true (last_or none us) (some c) (==_refl c) ∙ sym (last_or-append us [] none))
last_removed us (v ∷ vs) c o e n = rw (e ∙ last_or-append us (c ∷ v ∷ vs) none) (
    if_false (last_or none us) (last_or (some v) vs)
      (same_last-not_mem c v vs (not_mem-append c us (v ∷ vs) n).1)
    ∙ sym (last_or-append us (v ∷ vs) none))
