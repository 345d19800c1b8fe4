-- ===== src/Dom/Tree/Forests.antt =====
-- `IsHostIncludingInclusiveAncestorOfThis` keeps a node out of its own subtree.
use blinkit.Prelude.{
  ◌≤◌, ℕ, Bool, true, false, not, List, [], ◌∷◌, ◌++◌, ◌≡◌, refl, ap, sym, subst, ◌∙◌, Option, none,
  some, ◌==◌, ==_iff, Bool-cases, inl, inr, if◌then◌else◌, arith, ◌⊎◌,
}
use blinkit.Dom.Tree.{
  NodeType, child_type_allowed, insert_before, Tree, Outcome, done, contains, append_child,
}
use blinkit.Dom.Tree.Chains.{mem, mem-append}
use blinkit.Dom.Tree.Moves.{if_true, if_false}
use blinkit.Dom.Tree.Shape.{Represents, put}
use blinkit.Dom.Tree.Edits.{put_before, without, detach}
use blinkit.Dom.Tree.Outcomes.{append_child-at_depth, insert_before-at_depth}
use blinkit.Dom.Tree.Promised.{misplaced, edited, cyclic, absent, Implements, appending, inserting}
use blinkit.Dom.Tree.Ancestors.{Ranked, without-mem, outside, new_rank, new_rank-Ranked}

-- The children of the nodes form a forest.
pub record IsForest (t : Tree) : Type 0 where
  pub kids : ℕ → List ℕ
  pub rank : ℕ → ℕ
  pub represents : Represents t kids
  pub ranked : Ranked rank kids

done-edited :
    (b a : Bool) (u : Tree) (kids : ℕ → List ℕ)
    → Implements (done u) (if b then cyclic else if not a then misplaced else edited kids)
    → (b ≡ false) × Represents u kids
done-edited true a u kids i = absurd i
done-edited false false u kids i = absurd i
done-edited false true u kids i = (refl, i)

last_only :
    (c : ℕ) (xs : List ℕ) (x : ℕ)
    → (x == c) ≡ false
    → mem x (xs ++ (c ∷ [])) ≡ true
    → mem x xs ≡ true
unfolding mem
last_only c xs x n m = ground (arith, mem-append x xs (c ∷ []))

put_before-mem :
    (x c d : ℕ) (xs : List ℕ)
    → (x == c) ≡ false
    → mem x (put_before c d xs) ≡ true
    → mem x xs ≡ true
unfolding mem put_before
put_before-mem x c d [] n m = m
put_before-mem x c d (y ∷ ys) n m = elim (Bool-cases (y == d)) [
  | inl i ↦
      let f = ap (mem x) (sym (if_true (c ∷ y ∷ ys) (y ∷ put_before c d ys) i)) ∙ m in ground arith
  | inr o ↦
      let f = ap (mem x) (sym (if_false (c ∷ y ∷ ys) (y ∷ put_before c d ys) o)) ∙ m in
      ground (arith, put_before-mem x c d ys)
]

moved_list-mem :
    (kids : ℕ → List ℕ) (p c : ℕ) (xs : List ℕ)
    → ((x : ℕ) → (x == c) ≡ false → mem x xs ≡ true → mem x (without c (kids p)) ≡ true)
    → (q x : ℕ) → mem x (put p xs (detach c kids) q) ≡ true
    → ((x ≡ c) × (q ≡ p)) ⊎ ((mem x (kids q) ≡ true) × ((x == c) ≡ false))
moved_list-mem kids p c xs h q x m = elim (Bool-cases (q == p)) [
  | inl i ↦ elim (Bool-cases (x == c)) [
    | inl e ↦ inl ((==_iff x c).0 e, (==_iff q p).0 i)
    | inr n ↦
        let f = h x n (ap (mem x) (sym (if_true xs (detach c kids q) i)) ∙ m) in
        let (a, b) = without-mem x c (kids p) f in
        inr (ap (λ y. mem x (kids y)) ((==_iff q p).0 i) ∙ a, b)
  ]
  | inr n ↦ inr (without-mem x c (kids q) (ap (mem x) (sym (if_false xs (detach c kids q) n)) ∙ m))
]

pub append_child-IsForest :
    {t : Tree} (f : IsForest t) (type : NodeType) (depth p c : ℕ) (u : Tree)
    → f.rank p ≤ depth
    → append_child type depth p c t ≡ done u
    → IsForest u
append_child-IsForest {t} f type depth p c u i e =
    let kids = put p (without c (f.kids p) ++ (c ∷ [])) (detach c f.kids) in
    let (n, r) = done-edited (contains depth c t (some p)) (child_type_allowed type) u kids (
      subst
        (λ (o : Outcome).
          Implements o
            (appending (contains depth c t (some p)) (child_type_allowed type) p c f.kids))
        e (append_child-at_depth f.represents type depth p c)) in
    record {
      kids = kids;
      rank = new_rank f.represents f.rank f.ranked c p;
      represents = r;
      ranked =
          new_rank-Ranked f.represents f.rank f.ranked c p kids
            (outside f.represents f.rank f.ranked c depth p i n)
            (moved_list-mem f.kids p c (without c (f.kids p) ++ (c ∷ []))
              (last_only c (without c (f.kids p))));
    }

done-inserting :
    (b m a e : Bool) (u : Tree) (kids others : ℕ → List ℕ)
    → Implements (done u) (
        if b
        then cyclic
        else if not m
        then absent
        else if not a
        then misplaced
        else if e
        then edited kids
        else edited others)
    → (b ≡ false) × (((e ≡ true) × Represents u kids) ⊎ Represents u others)
done-inserting true m a e u kids others i = absurd i
done-inserting false false a e u kids others i = absurd i
done-inserting false true false e u kids others i = absurd i
done-inserting false true true true u kids others i = (refl, inl (refl, i))
done-inserting false true true false u kids others i = (refl, inr i)

-- When InsertBefore or AppendChild (with no reference) succeeds on a forest, climbing as many parents
-- at least as the rank of the new parent, the result is a forest with consistent links again.
pub insert_before-IsForest :
    {t : Tree} (f : IsForest t) (type : NodeType) (depth p : ℕ) (next : Option ℕ) (c : ℕ) (u : Tree)
    → f.rank p ≤ depth
    → insert_before type depth p next c t ≡ done u
    → IsForest u
unfolding insert_before
insert_before-IsForest f type depth p none c u i e = append_child-IsForest f type depth p c u i e
insert_before-IsForest {t} f type depth p (some d) c u i e =
    let xs = put_before c d (without c (f.kids p)) in
    let kids = put p xs (detach c f.kids) in
    let cycle = contains depth c t (some p) in
    let (n, s) =
      done-inserting cycle (mem d (f.kids p)) (child_type_allowed type) (d == c) u f.kids kids (
        subst
          (λ (o : Outcome). Implements o (inserting cycle (child_type_allowed type) p d c f.kids)) e
          (insert_before-at_depth f.represents type depth p d c)) in
    elim s [
      | inl (g, r) ↦ record { kids = f.kids; rank = f.rank; represents = r; ranked = f.ranked }
      | inr r ↦ record {
        kids = kids;
        rank = new_rank f.represents f.rank f.ranked c p;
        represents = r;
        ranked =
            new_rank-Ranked f.represents f.rank f.ranked c p kids
              (outside f.represents f.rank f.ranked c depth p i n)
              (moved_list-mem f.kids p c xs
                (λ x o m. put_before-mem x c d (without c (f.kids p)) o m));
      }
    ]
