-- ===== src/Dom/Tree/Insertion.antt =====
-- A node without a parent enters a list of children: what has to be shown for the new links.
use blinkit.Prelude.{
  ℕ, true, false, ◌||◌, List, ◌≡◌, ap, sym, ◌∙◌, none, some, ◌==◌, ==_iff, Bool-cases, inl, inr,
  arith,
}
use blinkit.Dom.Tree.{Links, Ends, Tree}
use blinkit.Dom.Tree.Chains.{mem, distinct, head_or, last_or, Chain, Chain-parent, Chain-frame}
use blinkit.Dom.Tree.Moves.{if_true, if_false}
use blinkit.Dom.Tree.Shape.{Represents, put, put_all, no_links, other_child, alone-not_mem}

module _ {t : Tree} {kids : ℕ → List ℕ} (r : Represents t kids) (u : Tree) (p c : ℕ) (xs : List ℕ)
    (lonely : (t.links c).parent ≡ none) (members : (x : ℕ) → mem x xs ≡ (mem x (kids p) || x == c))
    (placed : Chain u.links p none xs none)
    (links_same : (x : ℕ) → mem x xs ≡ false → u.links x ≡ t.links x) where
  untouched : (a x : ℕ) → (a == p) ≡ false → mem x (kids a) ≡ true → mem x xs ≡ false
  untouched a x n j = elim (Bool-cases (x == c)) [
    | inl i ↦
        let f = ap (λ (y : ℕ). mem y (kids a)) ((==_iff x c).0 i) in
        let g = alone-not_mem r a c lonely in absurd (ground arith)
    | inr o ↦ let f = other_child r p a x n j in let g = members x in ground arith
  ]

  chain_elsewhere : (a : ℕ) → (a == p) ≡ false → Chain u.links a none (kids a) none
  chain_elsewhere a n =
      Chain-frame t.links a u.links none (kids a) none (λ x j. links_same x (untouched a x n j))
        (r.chain a)

  inserted_complete : (x a : ℕ) → (u.links x).parent ≡ some a → mem x (put p xs kids a) ≡ true
  inserted_complete x a h = elim (Bool-cases (mem x xs)) [
    | inl i ↦
        let f : some p ≡ some a = sym (Chain-parent u.links p none xs none x placed i) ∙ h in
        let g : (a == p) ≡ true = ground arith in ap (mem x) (if_true xs (kids a) g) ∙ i
    | inr n ↦
        let m = r.complete x a (sym (ap (λ (k : Links). k.parent) (links_same x n)) ∙ h) in
        elim (Bool-cases (a == p)) [
          | inl j ↦
              let f = ap (λ (b : ℕ). mem x (kids b)) ((==_iff a p).0 j) in
              let g = members x in absurd (ground arith)
          | inr k ↦ ap (mem x) (if_false xs (kids a) k) ∙ m
        ]
  ]

  inserted_alone : (x : ℕ) → (u.links x).parent ≡ none → u.links x ≡ no_links
  inserted_alone x h = elim (Bool-cases (mem x xs)) [
    | inl i ↦ let f = Chain-parent u.links p none xs none x placed i in absurd (ground arith)
    | inr n ↦ let e = links_same x n in e ∙ r.alone x (sym (ap (λ (k : Links). k.parent) e) ∙ h)
  ]

  pub inserted-Represents :
      distinct xs ≡ true
      → (u.ends p).first ≡ head_or xs none
      → (u.ends p).last ≡ last_or none xs
      → ((a : ℕ) → (a == p) ≡ false → u.ends a ≡ t.ends a)
      → Represents u (put p xs kids)
  inserted-Represents d f l same_ends = record {
    first =
        put_all (λ a ys. (u.ends a).first ≡ head_or ys none) p xs kids f
          (λ a i. ap (λ (x : Ends). x.first) (same_ends a i) ∙ r.first a);
    last =
        put_all (λ a ys. (u.ends a).last ≡ last_or none ys) p xs kids l
          (λ a i. ap (λ (x : Ends). x.last) (same_ends a i) ∙ r.last a);
    chain = put_all (λ a ys. Chain u.links a none ys none) p xs kids placed chain_elsewhere;
    is_distinct = put_all (λ a ys. distinct ys ≡ true) p xs kids d (λ a i. r.is_distinct a);
    complete = inserted_complete;
    alone = inserted_alone;
  }
