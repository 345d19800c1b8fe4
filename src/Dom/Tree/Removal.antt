-- ===== src/Dom/Tree/Removal.antt =====
-- `RemoveBetween`: a child leaves the list of its parent, and nothing else changes.
use blinkit.Prelude.{
  ℕ, true, false, List, ◌∷◌, ◌++◌, ◌≡◌, ap, sym, subst, ◌∙◌, none, some, ◌==◌, ==_iff, ==_refl,
  Bool-cases, inl, inr, if◌then◌else◌, arith,
}
use blinkit.Dom.Tree.{Links, Ends, Tree, remove_between, modify_at, set_next, set_previous, same}
use blinkit.Dom.Tree.Chains.{
  mem, distinct, head_or, last_or, Chain, Chain-split, Chain-join, Chain-frame, distinct-append,
  distinct-remove,
}
use blinkit.Dom.Tree.Moves.{
  if_true, if_false, relink_first, relink_last, modify_at_lem, modify_at_other, same_head-not_mem,
  same_last-none-not_mem, mem-not_mem, mem-cons, parent-set_next, parent-set_previous,
}
use blinkit.Dom.Tree.Shape.{Represents, put, put_all, no_links, other_child, alone-not_mem}
use blinkit.Dom.Tree.Middle.{
  distinct-disjoint, distinct-disjoint_before, not_mem-append, not_mem-cons, mem-middle,
  first_removed, last_removed,
}

module _ (t : Tree) (p c : ℕ) (us vs : List ℕ) where
  inner : ℕ → Links
  inner = modify_at (head_or vs none) (set_previous (last_or none us)) t.links

  outer : ℕ → Links
  unfolding inner
  outer = modify_at (last_or none us) (set_next (head_or vs none)) inner

  removed : Tree
  unfolding remove_between
  removed = remove_between p (last_or none us) (head_or vs none) c t

  links_left :
      (x : ℕ)
      → (x == c) ≡ false
      → same (head_or vs none) (some x) ≡ false
      → removed.links x ≡ (
          if same (last_or none us) (some x)
          then set_next (head_or vs none) (t.links x)
          else t.links x)
  unfolding removed inner outer
  links_left x n h =
      if_false no_links (outer x) n
      ∙ modify_at_lem (last_or none us) (set_next (head_or vs none)) inner x
      ∙ ap
          (λ (k : Links).
            if same (last_or none us) (some x) then set_next (head_or vs none) k else k)
          (modify_at_other (head_or vs none) (set_previous (last_or none us)) t.links x h)

  links_right :
      (x : ℕ)
      → (x == c) ≡ false
      → same (last_or none us) (some x) ≡ false
      → removed.links x ≡ (
          if same (head_or vs none) (some x)
          then set_previous (last_or none us) (t.links x)
          else t.links x)
  unfolding removed inner outer
  links_right x n h =
      if_false no_links (outer x) n
      ∙ modify_at_other (last_or none us) (set_next (head_or vs none)) inner x h
      ∙ modify_at_lem (head_or vs none) (set_previous (last_or none us)) t.links x

  links_other : (x : ℕ) → mem x (us ++ (c ∷ vs)) ≡ false → removed.links x ≡ t.links x
  links_other x n =
      let (i, j) = not_mem-append x us (c ∷ vs) n in
      let (k, o) = not_mem-cons x c vs j in
      links_left x k (same_head-not_mem x vs o)
      ∙ if_false (set_next (head_or vs none) (t.links x)) (t.links x)
          (same_last-none-not_mem x us i)

  links_self : removed.links c ≡ no_links
  unfolding removed inner outer
  links_self = if_true no_links _ (==_refl c)

  parent_other : (x : ℕ) → (x == c) ≡ false → (removed.links x).parent ≡ (t.links x).parent
  unfolding removed inner outer
  parent_other x n =
      ap (λ (k : Links). k.parent) (if_false no_links (outer x) n)
      ∙ parent-set_next (last_or none us) (head_or vs none) inner x
      ∙ parent-set_previous (head_or vs none) (last_or none us) t.links x

  ends_first :
      (t.ends p).first ≡ head_or (us ++ (c ∷ vs)) none
      → mem c (us ++ vs) ≡ false
      → (removed.ends p).first ≡ head_or (us ++ vs) none
  unfolding removed
  ends_first f n =
      let e : (removed.ends p).first
          ≡ (if same (t.ends p).first (some c) then head_or vs none else (t.ends p).first) =
        ground (arith, ==_refl p) in
      e ∙ first_removed us vs c (t.ends p).first f n

  ends_last :
      (t.ends p).last ≡ last_or none (us ++ (c ∷ vs))
      → mem c (us ++ vs) ≡ false
      → (removed.ends p).last ≡ last_or none (us ++ vs)
  unfolding removed
  ends_last f n =
      let e : (removed.ends p).last
          ≡ (if same (t.ends p).last (some c) then last_or none us else (t.ends p).last) =
        ground (arith, ==_refl p) in
      e ∙ last_removed us vs c (t.ends p).last f n

  ends_other : (q : ℕ) → (q == p) ≡ false → removed.ends q ≡ t.ends q
  unfolding removed
  ends_other q n = ground arith

module _ {t : Tree} {kids : ℕ → List ℕ} (r : Represents t kids) (p c : ℕ) (us vs : List ℕ)
    (e : kids p ≡ us ++ (c ∷ vs)) where
  placed : Chain t.links p none (us ++ (c ∷ vs)) none
  placed = subst (λ (xs : List ℕ). Chain t.links p none xs none) e (r.chain p)

  placed-distinct : distinct (us ++ (c ∷ vs)) ≡ true
  placed-distinct = ap distinct (sym e) ∙ r.is_distinct p

  -- The links of a child show its neighbours.
  pub links_child :
      t.links c ≡ record { parent = some p; previous = last_or none us; next = head_or vs none }
  unfolding placed
  links_child = (Chain-split t.links p none us (c ∷ vs) none placed).1.0

  removed-chain : Chain (removed t p c us vs).links p none (us ++ vs) none
  unfolding placed
  removed-chain =
      let m = (removed t p c us vs).links in
      let (h, k) = Chain-split t.links p none us (c ∷ vs) none placed in
      let d = distinct-append us (c ∷ vs) placed-distinct in
      let n = distinct-remove us vs c placed-distinct in
      let o = not_mem-append c us vs n.1 in
      Chain-join m p none us vs none
        (relink_last t.links m p none us (some c) (head_or vs none) d.0
          (λ x i.
            let j = not_mem-cons x c vs (distinct-disjoint us (c ∷ vs) x placed-distinct i) in
            links_left t p c us vs x j.0 (same_head-not_mem x vs j.1))
          h)
        (relink_first t.links m p (some c) vs none (last_or none us) (distinct-append us vs n.0).1
          (λ x i. links_right t p c us vs x (mem-not_mem x c vs o.1 i) (
            same_last-none-not_mem x us
              (distinct-disjoint_before us (c ∷ vs) x placed-distinct (mem-cons x c vs i))))
          k.1)

  mem-rest : (x : ℕ) → (x == c) ≡ false → mem x (kids p) ≡ true → mem x (us ++ vs) ≡ true
  mem-rest x n m = let g = sym (mem-middle x c us vs) ∙ ap (mem x) (sym e) ∙ m in ground arith

  removed_complete :
      (x q : ℕ)
      → ((removed t p c us vs).links x).parent ≡ some q
      → mem x (put p (us ++ vs) kids q) ≡ true
  removed_complete x q h = elim (Bool-cases (x == c)) [
    | inl i ↦
        let a = ap (λ (y : ℕ). ((removed t p c us vs).links y).parent) ((==_iff x c).0 i) in
        let g : none ≡ some q =
          sym (a ∙ ap (λ (k : Links). k.parent) (links_self t p c us vs)) ∙ h in
        absurd (ground arith)
    | inr n ↦
        let m = r.complete x q (sym (parent_other t p c us vs x n) ∙ h) in
        elim (Bool-cases (q == p)) [
          | inl j ↦
              ap (mem x) (if_true (us ++ vs) (kids q) j)
              ∙ mem-rest x n (ap (mem x) (ap kids (sym ((==_iff q p).0 j))) ∙ m)
          | inr k ↦ ap (mem x) (if_false (us ++ vs) (kids q) k) ∙ m
        ]
  ]

  removed_alone :
      (x : ℕ)
      → ((removed t p c us vs).links x).parent ≡ none
      → (removed t p c us vs).links x ≡ no_links
  removed_alone x h = elim (Bool-cases (x == c)) [
    | inl i ↦ ap (removed t p c us vs).links ((==_iff x c).0 i) ∙ links_self t p c us vs
    | inr n ↦
        let g = sym (parent_other t p c us vs x n) ∙ h in
        links_other t p c us vs x (ap (mem x) (sym e) ∙ alone-not_mem r p x g) ∙ r.alone x g
  ]

  pub remove_between-Represents :
      Represents (remove_between p (last_or none us) (head_or vs none) c t) (put p (us ++ vs) kids)
  unfolding removed
  remove_between-Represents =
      let q = removed t p c us vs in
      let n = distinct-remove us vs c placed-distinct in
      record {
        first =
            put_all (λ a xs. (q.ends a).first ≡ head_or xs none) p (us ++ vs) kids
              (ends_first t p c us vs (r.first p ∙ ap (λ xs. head_or xs none) e) n.1)
              (λ a i. ap (λ (x : Ends). x.first) (ends_other t p c us vs a i) ∙ r.first a);
        last =
            put_all (λ a xs. (q.ends a).last ≡ last_or none xs) p (us ++ vs) kids
              (ends_last t p c us vs (r.last p ∙ ap (last_or none) e) n.1)
              (λ a i. ap (λ (x : Ends). x.last) (ends_other t p c us vs a i) ∙ r.last a);
        chain =
            put_all (λ a xs. Chain q.links a none xs none) p (us ++ vs) kids removed-chain
              (λ a i.
                Chain-frame t.links a q.links none (kids a) none
                  (λ x j. links_other t p c us vs x (ap (mem x) (sym e) ∙ other_child r p a x i j))
                  (r.chain a));
        is_distinct =
            put_all (λ a xs. distinct xs ≡ true) p (us ++ vs) kids n.0 (λ a i. r.is_distinct a);
        complete = removed_complete;
        alone = removed_alone;
      }
