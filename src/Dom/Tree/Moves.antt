-- ===== src/Dom/Tree/Moves.antt =====
-- What the three changes of links do to a chain.
use blinkit.Prelude.{
  ℕ, Bool, true, false, List, [], ◌∷◌, ◌≡◌, refl, ap, ◌∙◌, Option, none, some, ◌==◌, ==_iff,
  ==_refl, Bool-cases, inl, inr, if◌then◌else◌, arith,
}
use blinkit.Dom.Tree.{Links, modify_at, set_previous, set_next, same}
use blinkit.Dom.Tree.Chains.{mem, distinct, head_or, last_or, Chain, Chain-frame}

pub mem-head : (x : ℕ) (xs : List ℕ) → mem x (x ∷ xs) ≡ true
unfolding mem
mem-head x xs = ground (arith, ==_refl x)

pub same_last-not_mem :
    (x y : ℕ) (ys : List ℕ) → mem x (y ∷ ys) ≡ false → same (last_or (some y) ys) (some x) ≡ false
unfolding mem
same_last-not_mem x y [] h = ground arith
same_last-not_mem x y (z ∷ ys) h = same_last-not_mem x z ys (ground arith)

pub mem-not_mem : (y x : ℕ) (xs : List ℕ) → mem x xs ≡ false → mem y xs ≡ true → (y == x) ≡ false
mem-not_mem y x xs n m = elim (Bool-cases (y == x)) [
  | inl e ↦ cc (ap (λ (z : ℕ). mem z xs) ((==_iff y x).0 e), n, m)
  | inr h ↦ h
]

pub if_true : {A : Type 0} {b : Bool} (x y : A) → b ≡ true → (if b then x else y) ≡ x
if_true x y e = ap (λ (b : Bool). if b then x else y) e

pub if_false : {A : Type 0} {b : Bool} (x y : A) → b ≡ false → (if b then x else y) ≡ y
if_false x y e = ap (λ (b : Bool). if b then x else y) e

pub distinct-cons :
    (x : ℕ) (xs : List ℕ) → distinct (x ∷ xs) ≡ true → (mem x xs ≡ false) × (distinct xs ≡ true)
unfolding distinct
distinct-cons x xs d = ground arith

pub mem-cons : (y x : ℕ) (xs : List ℕ) → mem y xs ≡ true → mem y (x ∷ xs) ≡ true
unfolding mem
mem-cons y x xs m = ground arith

-- The last node of a chain gets another node behind it.
pub relink_last :
    (l m : ℕ → Links) (p : ℕ) (before : Option ℕ) (xs : List ℕ) (after o : Option ℕ)
    → distinct xs ≡ true
    → ((x : ℕ)
        → mem x xs ≡ true
        → m x ≡ (if same (last_or none xs) (some x) then set_next o (l x) else l x))
    → Chain l p before xs after
    → Chain m p before xs o
relink_last l m p before [] after o d f c = tt
relink_last l m p before (x ∷ []) after o d f c =
    (f x (mem-head x []) ∙ if_true (set_next o (l x)) (l x) (==_refl x) ∙ ap (set_next o) c.0, tt)
relink_last l m p before (x ∷ y ∷ ys) after o d f c =
    let (n, e) = distinct-cons x (y ∷ ys) d in
    (
      f x (mem-head x (y ∷ ys))
          ∙ if_false (set_next o (l x)) (l x) (same_last-not_mem x y ys n)
          ∙ c.0,
      relink_last l m p (some x) (y ∷ ys) after o e (λ z h. f z (mem-cons z x (y ∷ ys) h)) c.1,
    )

-- The first node of a chain gets another node before it.
pub relink_first :
    (l m : ℕ → Links) (p : ℕ) (before : Option ℕ) (xs : List ℕ) (after o : Option ℕ)
    → distinct xs ≡ true
    → ((x : ℕ)
        → mem x xs ≡ true
        → m x ≡ (if same (head_or xs none) (some x) then set_previous o (l x) else l x))
    → Chain l p before xs after
    → Chain m p o xs after
relink_first l m p before [] after o d f c = tt
relink_first l m p before (x ∷ xs) after o d f c =
    let (n, e) = distinct-cons x xs d in
    (
      f x (mem-head x xs)
          ∙ if_true (set_previous o (l x)) (l x) (==_refl x)
          ∙ ap (set_previous o) c.0,
      Chain-frame l p m (some x) xs after
          (λ y h.
            f y (mem-cons y x xs h)
            ∙ if_false (set_previous o (l y)) (l y) (mem-not_mem y x xs n h))
          c.1,
    )

-- A node that is not in a list is neither its first nor its last.
pub same_head-not_mem :
    (x : ℕ) (xs : List ℕ) → mem x xs ≡ false → same (head_or xs none) (some x) ≡ false
unfolding mem
same_head-not_mem x [] h = refl
same_head-not_mem x (y ∷ ys) h = ground arith

pub same_last-none-not_mem :
    (x : ℕ) (xs : List ℕ) → mem x xs ≡ false → same (last_or none xs) (some x) ≡ false
same_last-none-not_mem x [] h = refl
same_last-none-not_mem x (y ∷ ys) h = same_last-not_mem x y ys h

-- A change at a pointer, as a test.
pub modify_at_lem :
    {A : Type 0} (o : Option ℕ) (f : A → A) (m : ℕ → A) (x : ℕ)
    → modify_at o f m x ≡ (if same o (some x) then f (m x) else m x)
modify_at_lem none f m x = refl
modify_at_lem (some a) f m x = refl

pub modify_at_other :
    {A : Type 0} (o : Option ℕ) (f : A → A) (m : ℕ → A) (x : ℕ)
    → same o (some x) ≡ false
    → modify_at o f m x ≡ m x
modify_at_other o f m x e = modify_at_lem o f m x ∙ if_false (f (m x)) (m x) e

pub parent-set_next :
    (o b : Option ℕ) (m : ℕ → Links) (x : ℕ) → (modify_at o (set_next b) m x).parent ≡ (m x).parent
parent-set_next none b m x = refl
parent-set_next (some a) b m x = ground arith

pub parent-set_previous :
    (o b : Option ℕ) (m : ℕ → Links) (x : ℕ)
    → (modify_at o (set_previous b) m x).parent ≡ (m x).parent
parent-set_previous none b m x = refl
parent-set_previous (some a) b m x = ground arith
