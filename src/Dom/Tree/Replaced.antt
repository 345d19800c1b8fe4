-- ===== src/Dom/Tree/Replaced.antt =====
-- `ReplaceChild` on the lists of children.
use blinkit.Prelude.{
  [], ℕ, true, List, ◌∷◌, ◌++◌, ◌≡◌, ap, sym, subst, ◌∙◌, none, some, ◌==◌, ==_iff, Bool-cases, inl,
  inr, if◌then◌else◌, arith,
}
use blinkit.Prelude.{refl}
use blinkit.Dom.Tree.{
  NodeType, child_type_allowed, not, Links, Tree, hierarchy_request_error, not_found_error, same,
  contains, remove_from_old_parent,
}
use blinkit.Dom.Tree.Chains.{mem, distinct, head_or, distinct-remove, split_at}
use blinkit.Dom.Tree.Moves.{if_true, if_false}
use blinkit.Dom.Tree.Shape.{Represents, put, other_child}
use blinkit.Dom.Tree.Middle.{not_mem-append}
use blinkit.Dom.Tree.Removal.{links_child}
use blinkit.Dom.Tree.Appending.{append_nil, append_child_common-Represents}
use blinkit.Dom.Tree.Before.{insert_before_common-Represents}
use blinkit.Dom.Tree.Edits.{
  without, detach, without-not_mem, Represents-same, other_way, remove_from_old_parent-Represents,
  remove_from_old_parent-parent,
}
use blinkit.Dom.Tree.Promised.{misplaced, cyclic, absent, Implements, Implements-if}
use blinkit.Dom.Tree.Outcomes.{same-mem}
use blinkit.Dom.Tree.Replacing.{
  reference, place_child, leave_parent, replace_child, exchange, replacing, leaving,
  exchange-middle, leaving-cons, leaving-append, leaving-not_mem,
}

same_way : (a b : ℕ) → (a == b) ≡ true → (b == a) ≡ true
same_way a b e = ground arith

snoc-append : (us ys : List ℕ) (d : ℕ) → us ++ (d ∷ ys) ≡ (us ++ (d ∷ [])) ++ ys
snoc-append [] ys d = refl
snoc-append (u ∷ us) ys d = ap (◌∷◌ u) (snoc-append us ys d)

-- The reference is the first child behind the old one that is not the new one.
module _ {t : Tree} {kids : ℕ → List ℕ} (r : Represents t kids) (p c d : ℕ) where
  next_of : (us vs : List ℕ) → kids p ≡ us ++ (d ∷ vs) → (t.links d).next ≡ head_or vs none
  next_of us vs e = ap (λ (l : Links). l.next) (links_child r p d us vs e)

  -- The new child right behind the old one.
  behind :
      (us vs : List ℕ)
      → kids p ≡ us ++ (d ∷ c ∷ vs)
      → (t.links c).next ≡ head_or (without c vs) none
  behind us vs e =
      let f = e ∙ snoc-append us (c ∷ vs) d in
      let g = distinct-remove (us ++ (d ∷ [])) vs c (ap distinct (sym f) ∙ r.is_distinct p) in
      ap (λ (l : Links). l.next) (links_child r p c (us ++ (d ∷ [])) vs f)
      ∙ ap (λ xs. head_or xs none)
          (sym (without-not_mem c vs (not_mem-append c (us ++ (d ∷ [])) vs g.1).1))

  reference_lem :
      (us vs : List ℕ) → kids p ≡ us ++ (d ∷ vs) → reference c d t ≡ head_or (without c vs) none
  unfolding without
  reference_lem us [] e =
      ap (λ o. if same o (some c) then (t.links c).next else o) (next_of us [] e)
  reference_lem us (v ∷ vs) e =
      ap (λ o. if same o (some c) then (t.links c).next else o) (next_of us (v ∷ vs) e)
      ∙ elim (Bool-cases (c == v)) [
        | inl i ↦
            if_true (t.links c).next (some v) i
            ∙ behind us vs (e ∙ ap (λ (x : ℕ). us ++ (d ∷ x ∷ vs)) (sym ((==_iff c v).0 i)))
            ∙ ap (λ xs. head_or xs none)
                (sym (if_true (without c vs) (v ∷ without c vs) (same_way c v i)))
        | inr n ↦
            if_false (t.links c).next (some v) n
            ∙ ap (λ xs. head_or xs none)
                (sym (if_false (without c vs) (v ∷ without c vs) (other_way c v n)))
      ]

module _ {t : Tree} {kids : ℕ → List ℕ} (r : Represents t kids) (p c : ℕ) (us : List ℕ)
    (lonely : (t.links c).parent ≡ none) where
  place_child-Represents :
      (vs : List ℕ)
      → kids p ≡ us ++ vs
      → Represents (place_child p (head_or vs none) c t) (put p (us ++ (c ∷ vs)) kids)
  unfolding place_child
  place_child-Represents [] e =
      Represents-same (put p (us ++ (c ∷ [])) kids) (append_child_common-Represents r p c lonely)
        (λ q. ap (λ xs. put p (xs ++ (c ∷ [])) kids q) (e ∙ append_nil us))
  place_child-Represents (v ∷ vs) e = insert_before_common-Represents r p c v us vs e lonely

module _ {t : Tree} {kids : ℕ → List ℕ} (r : Represents t kids) where
  leave_parent-Represents : (c : ℕ) → Represents (leave_parent c t) (detach c kids)
  unfolding leave_parent
  leave_parent-Represents c = remove_from_old_parent-Represents r c (t.links c).parent refl

module _ {t : Tree} {kids : ℕ → List ℕ} (r : Represents t kids) where
  all_left :
      (c d : ℕ)
      → Represents (leave_parent c (leave_parent d (leave_parent c t))) (λ q. leaving c d (kids q))
  unfolding leaving
  all_left c d = leave_parent-Represents (leave_parent-Represents (leave_parent-Represents r c) d) c

  alone_then :
      (c d : ℕ) → ((leave_parent c (leave_parent d (leave_parent c t))).links c).parent ≡ none
  unfolding leave_parent remove_from_old_parent
  alone_then c d =
      let u = leave_parent d (leave_parent c t) in
      remove_from_old_parent-parent (leave_parent-Represents (leave_parent-Represents r c) d) c
        (u.links c).parent refl

  exchanged :
      (p c d : ℕ) (xs : List ℕ)
      → mem d (kids p) ≡ true
      → exchange c d (kids p) ≡ xs
      → (q : ℕ)
      → put p xs (λ a. leaving c d (kids a)) q ≡ put p (exchange c d (kids p)) (detach c kids) q
  exchanged p c d xs m e q = elim (Bool-cases (q == p)) [
    | inl i ↦
        if_true xs (leaving c d (kids q)) i
        ∙ sym e
        ∙ sym (if_true (exchange c d (kids p)) (detach c kids q) i)
    | inr n ↦
        if_false xs (leaving c d (kids q)) n
        ∙ leaving-not_mem c d (kids q) (other_child r q p d (other_way q p n) m)
        ∙ sym (if_false (exchange c d (kids p)) (detach c kids q) n)
  ]

  replaced :
      (p c d : ℕ)
      → mem d (kids p) ≡ true
      → Represents
          (place_child p (reference c d t) c (leave_parent c (leave_parent d (leave_parent c t))))
          (put p (exchange c d (kids p)) (detach c kids))
  replaced p c d m =
      let (us, vs, e) = split_at d (kids p) m in
      let n = (distinct-remove us vs d (ap distinct (sym e) ∙ r.is_distinct p)).1 in
      let (i, j) = not_mem-append d us vs n in
      let xs = without c us ++ (c ∷ without c vs) in
      let f =
        ap (leaving c d) e
        ∙ leaving-append c d us (d ∷ vs)
        ∙ ap (λ zs. leaving c d us ++ zs) (leaving-cons c d vs ∙ leaving-not_mem c d vs j)
        ∙ ap (λ zs. zs ++ without c vs) (leaving-not_mem c d us i) in
      let g =
        place_child-Represents (all_left c d) p c (without c us) (alone_then c d) (without c vs)
          f in
      let u = leave_parent c (leave_parent d (leave_parent c t)) in
      subst (λ o. Represents (place_child p o c u) (put p (exchange c d (kids p)) (detach c kids)))
        (sym (reference_lem r p c d us vs e))
        (Represents-same (put p (exchange c d (kids p)) (detach c kids)) g
          (exchanged p c d xs m (ap (exchange c d) e ∙ exchange-middle c d us vs n)))

  pub replace_child-at_depth :
      (type : NodeType) (depth p c d : ℕ)
      → Implements
          (replace_child type depth p c d t)
          (replacing (contains depth c t (some p)) (child_type_allowed type) p c d kids)
  unfolding replace_child
  replace_child-at_depth type depth p c d =
      Implements-if {a = contains depth c t (some p)} hierarchy_request_error _ cyclic _ refl
        (λ m. tt)
        (λ n.
          Implements-if {a = not (same (t.links d).parent (some p))} not_found_error _ absent _
            (ap not (same-mem r p d)) (λ m. tt)
            (λ m.
              Implements-if {a = not (child_type_allowed type)} hierarchy_request_error _ misplaced
                _ refl (λ y. tt) (λ y. replaced p c d (ground arith))))
