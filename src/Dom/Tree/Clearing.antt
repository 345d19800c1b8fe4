-- ===== src/Dom/Tree/Clearing.antt =====
-- `RemoveChildren`: its loop, on fuel. A loop that runs out of fuel gives none.
use blinkit.Prelude.{
  [], ℕ, List, ◌∷◌, ◌≡◌, ap, sym, subst, ◌∙◌, none, some, ◌==◌, ==_iff, ==_refl, Bool-cases, inl,
  inr, arith,
}
use blinkit.Prelude.{refl, length, ◌≤◌, zero, suc}
use blinkit.Dom.Tree.{Option, Links, Tree, remove_between}
use blinkit.Dom.Tree.Chains.{head_or}
use blinkit.Dom.Tree.Moves.{if_true, if_false}
use blinkit.Dom.Tree.Shape.{Represents, put}
use blinkit.Dom.Tree.Removal.{links_child, remove_between-Represents}
use blinkit.Dom.Tree.Edits.{Represents-same}

-- `while (Node *child = m_firstChild)`
unfoldable pub remove_firsts : ℕ → ℕ → Option ℕ → Tree → Option Tree
unfolding remove_between
remove_firsts fuel p none t = some t
remove_firsts zero p (some child) t = none
remove_firsts (suc fuel) p (some child) t =
    let u = remove_between p none (t.links child).next child t in
    remove_firsts fuel p (u.ends p).first u

-- `RemoveChildren`
unfoldable pub remove_children : ℕ → ℕ → Tree → Option Tree
unfolding remove_firsts
remove_children fuel p t = remove_firsts fuel p (t.ends p).first t

put_same : (p : ℕ) (xs : List ℕ) (kids : ℕ → List ℕ) → put p xs kids p ≡ xs
put_same p xs kids = if_true xs (kids p) (==_refl p)

put_again :
    (p : ℕ) (xs ys : List ℕ) (kids : ℕ → List ℕ) (q : ℕ)
    → put p xs (put p ys kids) q ≡ put p xs kids q
put_again p xs ys kids q = elim (Bool-cases (q == p)) [
  | inl i ↦ if_true xs (put p ys kids q) i ∙ sym (if_true xs (kids q) i)
  | inr n ↦ if_false xs (put p ys kids q) n ∙ if_false ys (kids q) n ∙ sym (if_false xs (kids q) n)
]

put_own : (p : ℕ) (xs : List ℕ) (kids : ℕ → List ℕ) (q : ℕ) → kids p ≡ xs → kids q ≡ put p xs kids q
put_own p xs kids q e = elim (Bool-cases (q == p)) [
  | inl i ↦ ap kids ((==_iff q p).0 i) ∙ e ∙ sym (if_true xs (kids q) i)
  | inr n ↦ sym (if_false xs (kids q) n)
]

module _ (p : ℕ) where
  first_of :
      {t : Tree} {kids : ℕ → List ℕ} (r : Represents t kids) (xs : List ℕ)
      → kids p ≡ xs
      → (t.ends p).first ≡ head_or xs none
  first_of r xs e = r.first p ∙ ap (λ ys. head_or ys none) e

  remove_firsts_lem :
      (xs : List ℕ) (fuel : ℕ) {t : Tree} {kids : ℕ → List ℕ} (r : Represents t kids)
      → kids p ≡ xs
      → length xs ≤ fuel
      → (u : Tree) × (remove_firsts fuel p (head_or xs none) t ≡ some u)
        × Represents u (put p [] kids)
  unfolding remove_firsts
  remove_firsts_lem [] fuel {t} {kids} r e n =
      (t, refl, Represents-same (put p [] kids) r (λ q. put_own p [] kids q e))
  remove_firsts_lem (x ∷ xs) zero r e n = absurd (omega arith)
  remove_firsts_lem (x ∷ xs) (suc fuel) {t} {kids} r e n =
      let m = remove_between-Represents r p x [] xs e in
      let l = ap (λ (k : Links). k.next) (links_child r p x [] xs e) in
      let s =
        subst (λ (o : Option ℕ). Represents (remove_between p none o x t) (put p xs kids)) (sym l)
          m in
      let f = put_same p xs kids in
      let (u, g, h) = remove_firsts_lem xs fuel s f (omega arith) in
      (
        u,
        ap (λ o. remove_firsts fuel p o (remove_between p none (t.links x).next x t))
              (first_of s xs f)
            ∙ g,
        Represents-same (put p [] kids) h (put_again p [] xs kids),
      )

  -- On a tree that represents lists of children, with fuel for as many rounds as there are children,
  -- RemoveChildren comes back, leaves no child, and changes the list of no other node.
  pub remove_children_total :
      (fuel : ℕ) {t : Tree} {kids : ℕ → List ℕ}
      → Represents t kids
      → length (kids p) ≤ fuel
      → (u : Tree) × (remove_children fuel p t ≡ some u) × Represents u (put p [] kids)
  unfolding remove_children
  remove_children_total fuel {t} {kids} r n =
      let (u, g, h) = remove_firsts_lem (kids p) fuel r refl n in
      (u, ap (λ o. remove_firsts fuel p o t) (r.first p) ∙ g, h)
