-- ===== src/Dom/Tree/Ancestors.antt =====
-- The ancestors that `IsHostIncludingInclusiveAncestorOfThis` finds, in a forest.
use blinkit.Prelude.{
  zero, suc, ◌≤◌, ◌<◌, ◌+◌, ℕ, Bool, true, false, ◌||◌, List, [], ◌∷◌, ◌≡◌, refl, ap, sym, ◌∙◌,
  Option, none, some, ◌==◌, ==_iff, ==_refl, Bool-cases, inl, inr, if◌then◌else◌, arith, ◌⊎◌,
}
use blinkit.Dom.Tree.{suc, Tree, contains}
use blinkit.Dom.Tree.Chains.{mem, Chain-parent}
use blinkit.Dom.Tree.Moves.{if_true, if_false}
use blinkit.Dom.Tree.Shape.{Represents}
use blinkit.Dom.Tree.Edits.{without, other_way}

-- Every child has a greater rank than its parent.
abbrev pub Ranked : (ℕ → ℕ) → (ℕ → List ℕ) → Type 0
Ranked rank kids = (q x : ℕ) → mem x (kids q) ≡ true → rank q < rank x

pub option_cases : (o : Option ℕ) → (o ≡ none) ⊎ ((a : ℕ) × (o ≡ some a))
option_cases none = inl refl
option_cases (some a) = inr (a, refl)

pub without-mem :
    (x c : ℕ) (xs : List ℕ) → mem x (without c xs) ≡ true → (mem x xs ≡ true) × ((x == c) ≡ false)
unfolding mem without
without-mem x c [] m = absurd (ground arith)
without-mem x c (y ∷ ys) m = elim (Bool-cases (y == c)) [
  | inl i ↦
      let (a, b) =
        without-mem x c ys (ap (mem x) (sym (if_true (without c ys) (y ∷ without c ys) i)) ∙ m) in
      (ground arith, b)
  | inr o ↦
      let f = ap (mem x) (sym (if_false (without c ys) (y ∷ without c ys) o)) ∙ m in
      elim (Bool-cases (x == y)) [
        | inl e ↦ (ground arith, ap (λ (a : ℕ). a == c) ((==_iff x y).0 e) ∙ o)
        | inr n ↦ let (a, b) = without-mem x c ys (ground arith) in (ground arith, b)
      ]
]

module _ {t : Tree} {kids : ℕ → List ℕ} (r : Represents t kids) (rank : ℕ → ℕ)
    (h : Ranked rank kids) (c : ℕ) where
  rank-parent : (x q : ℕ) → (t.links x).parent ≡ some q → rank q < rank x
  rank-parent x q e = h q x (r.complete x q e)

  -- A depth that is not below the rank shows all ancestors.
  no_ancestor : (x : ℕ) → rank x ≤ 0 → (t.links x).parent ≡ none
  no_ancestor x i = elim (option_cases (t.links x).parent) [
    | inl e ↦ e
    | inr (q, e) ↦ let f = rank-parent x q e in absurd (omega arith)
  ]

  contains_root : (m x : ℕ) → rank x ≤ 0 → contains m c t (some x) ≡ (c == x)
  unfolding contains
  contains_root zero x i = refl
  contains_root (suc m) x i = ap (λ o. c == x || contains m c t o) (no_ancestor x i) ∙ ground arith

  contains_enough :
      (n m x : ℕ) → rank x ≤ n → rank x ≤ m → contains n c t (some x) ≡ contains m c t (some x)
  unfolding contains
  contains_enough zero m x i j = contains_root 0 x i ∙ sym (contains_root m x i)
  contains_enough (suc n) zero x i j = contains_root (suc n) x j ∙ sym (contains_root 0 x j)
  contains_enough (suc n) (suc m) x i j = elim (option_cases (t.links x).parent) [
    | inl e ↦ ap (λ o. c == x || contains n c t o) e ∙ sym (ap (λ o. c == x || contains m c t o) e)
    | inr (q, e) ↦
        let f = rank-parent x q e in
        ap (λ o. c == x || contains n c t o) e
        ∙ ap (λ b. c == x || b) (contains_enough n m q (omega arith) (omega arith))
        ∙ sym (ap (λ o. c == x || contains m c t o) e)
  ]

  abbrev pub inside : ℕ → Bool
  inside x = contains (rank x) c t (some x)

  inside_child : (q x : ℕ) → mem x (kids q) ≡ true → (x == c) ≡ false → inside x ≡ inside q
  unfolding contains
  inside_child q x m n =
      let f = h q x m in
      let e = Chain-parent t.links q none (kids q) none x (r.chain q) m in
      contains_enough (rank x) (suc (rank x)) x (omega arith) (omega arith)
      ∙ ap (λ o. c == x || contains (rank x) c t o) e
      ∙ ap (λ b. b || contains (rank x) c t (some q)) (other_way x c n)
      ∙ contains_enough (rank x) (rank q) q (omega arith) (omega arith)

  inside_self : inside c ≡ true
  unfolding contains
  inside_self =
      contains_enough (rank c) (suc (rank c)) c (omega arith) (omega arith)
      ∙ ap (λ b. b || contains (rank c) c t (t.links c).parent) (==_refl c)

  pub outside :
      (depth p : ℕ) → rank p ≤ depth → contains depth c t (some p) ≡ false → inside p ≡ false
  outside depth p i n = contains_enough (rank p) depth p (omega arith) i ∙ n

  -- The subtree of the node goes below its new parent.
  pub new_rank : ℕ → ℕ → ℕ
  new_rank p x = if inside x then suc (rank p) + rank x else rank x

  pub new_rank-Ranked :
      (p : ℕ) (others : ℕ → List ℕ)
      → inside p ≡ false
      → ((q x : ℕ)
          → mem x (others q) ≡ true
          → ((x ≡ c) × (q ≡ p)) ⊎ ((mem x (kids q) ≡ true) × ((x == c) ≡ false)))
      → Ranked (new_rank p) others
  unfolding new_rank
  new_rank-Ranked p others n k q x m = elim (k q x m) [
    | inl (e, f) ↦
        let a = ap inside e ∙ inside_self in
        let b = ap inside f ∙ n in let d = ap rank f in ground arith
    | inr (i, o) ↦ let a = inside_child q x i o in let b = h q x i in ground arith
  ]
