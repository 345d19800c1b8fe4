-- ===== src/Dom/Tree/Outcomes.antt =====
-- `RemoveChild`, `AppendChild` and `InsertBefore` on the lists of children.
use blinkit.Prelude.{
  ℕ, Bool, true, false, not, List, [], ◌∷◌, ◌++◌, ◌≡◌, refl, ap, sym, subst, ◌∙◌, Option, none,
  some, ◌==◌, ==_iff, ==_refl, Bool-cases, inl, inr, if◌then◌else◌, arith,
}
use blinkit.Dom.Tree.{
  NodeType, child_type_allowed, Links, Tree, done, hierarchy_request_error, not_found_error, same,
  contains, remove_child, remove_from_old_parent, append_child, insert_before, insert_before_at,
  append_child_common,
}
use blinkit.Dom.Tree.Chains.{mem, distinct, head_or, Chain-parent, split_at, distinct-remove}
use blinkit.Dom.Tree.Moves.{mem-head, if_true, if_false}
use blinkit.Dom.Tree.Shape.{Represents, put, other_child}
use blinkit.Dom.Tree.Removal.{links_child}
use blinkit.Dom.Tree.Middle.{distinct-disjoint_before}
use blinkit.Dom.Tree.Appending.{append_nil, append_child_common-Represents}
use blinkit.Dom.Tree.Before.{insert_before_common-Represents}
use blinkit.Dom.Tree.Edits.{
  other_way, mem-without, without-not_mem, without, put_before, detach, Represents-same, at_parent,
  remove_from_old_parent-Represents, remove_from_old_parent-parent, present, put_before-middle,
  without-middle,
}
use blinkit.Dom.Tree.Promised.{
  misplaced, edited, cyclic, absent, Implements, removal, appending, inserting, Implements-if,
  same-some,
}

module _ {t : Tree} {kids : ℕ → List ℕ} (r : Represents t kids) where
  child-parent : (p c : ℕ) → mem c (kids p) ≡ true → (t.links c).parent ≡ some p
  child-parent p c m = Chain-parent t.links p none (kids p) none c (r.chain p) m

  no_child : (p c : ℕ) → mem c (kids p) ≡ false → same (t.links c).parent (some p) ≡ false
  no_child p c n = elim (Bool-cases (same (t.links c).parent (some p))) [
    | inl i ↦ let f = r.complete c p (same-some (t.links c).parent p i) in ground arith
    | inr o ↦ o
  ]

  -- The test of the parent, as a test of the list.
  pub same-mem : (p c : ℕ) → same (t.links c).parent (some p) ≡ mem c (kids p)
  same-mem p c = elim (Bool-cases (mem c (kids p))) [
    | inl i ↦ ap (λ o. same o (some p)) (child-parent p c i) ∙ ==_refl p ∙ sym i
    | inr n ↦ no_child p c n ∙ sym n
  ]

  -- On a tree that represents lists of children, RemoveChild takes the child out of the list of its
  -- parent, and changes no other list; it reports a node that is not in the list.
  pub remove_child-Implements : (p c : ℕ) → Implements (remove_child p c t) (removal p c kids)
  unfolding remove_child
  remove_child-Implements p c =
      Implements-if _ not_found_error (edited (detach c kids)) absent (same-mem p c)
        (λ m. at_parent r c p (child-parent p c m)) (λ n. tt)

  moved : (c : ℕ) → Represents (remove_from_old_parent (t.links c).parent c t) (detach c kids)
  moved c = remove_from_old_parent-Represents r c (t.links c).parent refl

  pub append_child-at_depth :
      (type : NodeType) (depth p c : ℕ)
      → Implements
          (append_child type depth p c t)
          (appending (contains depth c t (some p)) (child_type_allowed type) p c kids)
  unfolding append_child
  append_child-at_depth type depth p c =
      Implements-if {a = contains depth c t (some p)} hierarchy_request_error _ cyclic _ refl
        (λ m. tt)
        (λ n.
          Implements-if {a = not (child_type_allowed type)} hierarchy_request_error
            (done (append_child_common p c (remove_from_old_parent (t.links c).parent c t)))
            misplaced (edited (put p (without c (kids p) ++ (c ∷ [])) (detach c kids))) refl
            (λ m. tt)
            (λ m.
              append_child_common-Represents (moved c) p c
                (remove_from_old_parent-parent r c (t.links c).parent refl)))

  -- Children that are put back.
  put_back :
      (p c : ℕ) (xs : List ℕ)
      → mem c (kids p) ≡ true
      → xs ≡ kids p
      → (q : ℕ) → put p xs (detach c kids) q ≡ kids q
  put_back p c xs m e q = elim (Bool-cases (q == p)) [
    | inl i ↦ if_true xs (detach c kids q) i ∙ e ∙ ap kids (sym ((==_iff q p).0 i))
    | inr n ↦
        if_false xs (detach c kids q) n
        ∙ without-not_mem c (kids q) (other_child r q p c (other_way q p n) m)
  ]

  lonely : (c : ℕ) → ((remove_from_old_parent (t.links c).parent c t).links c).parent ≡ none
  lonely c = remove_from_old_parent-parent r c (t.links c).parent refl

  at_next :
      (type : NodeType) (depth p c : ℕ) (us vs : List ℕ)
      → kids p ≡ us ++ (c ∷ vs)
      → mem c (us ++ vs) ≡ false
      → contains depth c t (some p) ≡ false
      → child_type_allowed type ≡ true
      → Implements (insert_before_at type depth p (head_or vs none) c t) (edited kids)
  unfolding insert_before_at
  at_next type depth p c us [] e n o y =
      let x = edited (put p (without c (kids p) ++ (c ∷ [])) (detach c kids)) in
      let h =
        subst
          (λ (b : Bool).
            Implements (append_child type depth p c t)
              (if b then cyclic else if not (child_type_allowed type) then misplaced else x))
          o (append_child-at_depth type depth p c) in
      let f =
        subst
          (λ (b : Bool).
            Implements (append_child type depth p c t) (if not b then misplaced else x))
          y h in
      let g =
        ap (λ zs. without c zs ++ (c ∷ [])) e
        ∙ ap (λ zs. zs ++ (c ∷ [])) (without-middle c us [] n ∙ append_nil us)
        ∙ sym e in
      subst (λ (k : ℕ → List ℕ). Implements (append_child type depth p c t) (edited k))
        (λ i q. put_back p c (without c (kids p) ++ (c ∷ [])) (present r p c us [] e) g q i) f
  at_next type depth p c us (v ∷ vs) e n o y =
      let f = ap (without c) e ∙ without-middle c us (v ∷ vs) n in
      Represents-same kids (insert_before_common-Represents (moved c) p c v us vs f (lonely c))
        (put_back p c (us ++ (c ∷ v ∷ vs)) (present r p c us (v ∷ vs) e) (sym e))

  before_itself :
      (type : NodeType) (depth p c : ℕ)
      → contains depth c t (some p) ≡ false
      → child_type_allowed type ≡ true
      → mem c (kids p) ≡ true
      → Implements (insert_before_at type depth p (t.links c).next c t) (edited kids)
  before_itself type depth p c n y m =
      let (us, vs, e) = split_at c (kids p) m in
      subst (λ (o : Option ℕ). Implements (insert_before_at type depth p o c t) (edited kids))
        (sym (ap (λ (l : Links). l.next) (links_child r p c us vs e)))
        (at_next type depth p c us vs e
          (distinct-remove us vs c (ap distinct (sym e) ∙ r.is_distinct p)).1 n y)

  before_other :
      (type : NodeType) (depth p d c : ℕ)
      → (d == c) ≡ false
      → mem d (kids p) ≡ true
      → Implements
          (insert_before_at type depth p (some d) c t)
          (edited (put p (put_before c d (without c (kids p))) (detach c kids)))
  unfolding insert_before_at
  before_other type depth p d c n m =
      let (us, vs, e) = split_at d (without c (kids p)) (mem-without d c (kids p) n m) in
      let s = moved c in
      let i = ap distinct (sym e) ∙ s.is_distinct p in
      let f = insert_before_common-Represents s p c d us vs e (lonely c) in
      let g =
        ap (put_before c d) e
        ∙ put_before-middle c d us vs (distinct-disjoint_before us (d ∷ vs) d i (mem-head d vs)) in
      Represents-same (put p (put_before c d (without c (kids p))) (detach c kids)) f
        (λ q. ap (λ xs. put p xs (detach c kids) q) (sym g))

  at_place :
      (type : NodeType) (depth p d c : ℕ)
      → contains depth c t (some p) ≡ false
      → child_type_allowed type ≡ true
      → mem d (kids p) ≡ true
      → Implements
          (insert_before_at type depth p (if d == c then (t.links c).next else some d) c t)
          (if d == c
            then edited kids
            else edited (put p (put_before c d (without c (kids p))) (detach c kids)))
  at_place type depth p d c n y m =
      let e = edited (put p (put_before c d (without c (kids p))) (detach c kids)) in
      let P : Bool → Type 0 = λ (b : Bool).
        Implements (insert_before_at type depth p (if b then (t.links c).next else some d) c t)
          (if b then edited kids else e) in
      elim (Bool-cases (d == c)) [
        | inl i ↦ subst P (sym i) (
            before_itself type depth p c n y
              (ap (λ a. mem a (kids p)) (sym ((==_iff d c).0 i)) ∙ m))
        | inr o ↦ subst P (sym o) (before_other type depth p d c o m)
      ]

  pub insert_before-at_depth :
      (type : NodeType) (depth p d c : ℕ)
      → Implements
          (insert_before type depth p (some d) c t)
          (inserting (contains depth c t (some p)) (child_type_allowed type) p d c kids)
  unfolding insert_before
  insert_before-at_depth type depth p d c =
      Implements-if {a = contains depth c t (some p)} hierarchy_request_error _ cyclic _ refl
        (λ m. tt)
        (λ n.
          Implements-if {a = not (same (t.links d).parent (some p))} not_found_error _ absent _
            (ap not (same-mem p d)) (λ m. tt)
            (λ m.
              Implements-if {a = not (child_type_allowed type)} hierarchy_request_error _ misplaced
                _ refl (λ y. tt) (λ y. at_place type depth p d c n (ground arith) (ground arith))))
