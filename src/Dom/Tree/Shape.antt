-- ===== src/Dom/Tree/Shape.antt =====
-- The children of every node as a list, and a tree of links that is linked accordingly.
use blinkit.Prelude.{
  ℕ, true, false, List, ◌≡◌, sym, subst, none, some, ◌==◌, ==_iff, Bool-cases, inl, inr,
  if◌then◌else◌, arith,
}
use blinkit.Dom.Tree.{Links, Tree}
use blinkit.Dom.Tree.Chains.{mem, distinct, head_or, last_or, Chain, Chain-parent}
use blinkit.Dom.Tree.Moves.{if_true, if_false}

abbrev pub no_links : Links
no_links = record { parent = none; previous = none; next = none }

pub record Represents (t : Tree) (kids : ℕ → List ℕ) : Type 0 where
  pub first : (q : ℕ) → (t.ends q).first ≡ head_or (kids q) none
  pub last : (q : ℕ) → (t.ends q).last ≡ last_or none (kids q)
  pub chain : (q : ℕ) → Chain t.links q none (kids q) none
  pub is_distinct : (q : ℕ) → distinct (kids q) ≡ true
  pub complete : (x q : ℕ) → (t.links x).parent ≡ some q → mem x (kids q) ≡ true
  pub alone : (x : ℕ) → (t.links x).parent ≡ none → t.links x ≡ no_links

-- The children of one node are replaced.
abbrev pub put : ℕ → List ℕ → (ℕ → List ℕ) → ℕ → List ℕ
put p xs kids q = if q == p then xs else kids q

-- A statement on every node and its children, after a replacement.
pub put_all :
    (P : ℕ → List ℕ → Type 0) (p : ℕ) (xs : List ℕ) (kids : ℕ → List ℕ)
    → P p xs
    → ((q : ℕ) → (q == p) ≡ false → P q (kids q))
    → (q : ℕ) → P q (put p xs kids q)
put_all P p xs kids h k q = elim (Bool-cases (q == p)) [
  | inl e ↦
      subst (P q) (sym (if_true xs (kids q) e))
        (subst (λ (r : ℕ). P r xs) (sym ((==_iff q p).0 e)) h)
  | inr n ↦ subst (P q) (sym (if_false xs (kids q) n)) (k q n)
]

module _ {t : Tree} {kids : ℕ → List ℕ} (r : Represents t kids) where
  -- A child of another node is not a child of this one, nor is a node without a parent.
  pub other_child : (p q x : ℕ) → (q == p) ≡ false → mem x (kids q) ≡ true → mem x (kids p) ≡ false
  other_child p q x n m =
      let e = Chain-parent t.links q none (kids q) none x (r.chain q) m in
      elim (Bool-cases (mem x (kids p))) [
        | inl i ↦ let f = Chain-parent t.links p none (kids p) none x (r.chain p) i in ground arith
        | inr o ↦ o
      ]

  pub alone-not_mem : (p x : ℕ) → (t.links x).parent ≡ none → mem x (kids p) ≡ false
  alone-not_mem p x n = elim (Bool-cases (mem x (kids p))) [
    | inl i ↦ let f = Chain-parent t.links p none (kids p) none x (r.chain p) i in ground arith
    | inr o ↦ o
  ]
