-- ===== src/Dom/Tree/Before.antt =====
-- `InsertBeforeCommon`: a node enters the list of its new parent before another child.
use blinkit.Prelude.{
  ℕ, true, false, ◌||◌, List, ◌∷◌, ◌++◌, ◌≡◌, ap, sym, subst, ◌∙◌, Option, none, some, ◌==◌,
  ==_refl, if◌then◌else◌,
}
use blinkit.Dom.Tree.{
  Links, Tree, insert_before_common, modify, set_next, set_previous, same, is_none,
}
use blinkit.Dom.Tree.Chains.{
  mem, distinct, head_or, last_or, Chain, Chain-split, Chain-join, distinct-append, distinct-insert,
  last_or-append,
}
use blinkit.Dom.Tree.Moves.{
  if_true, if_false, relink_first, relink_last, modify_at_lem, same_last-none-not_mem, mem-not_mem,
}
use blinkit.Dom.Tree.Shape.{Represents, put, alone-not_mem}
use blinkit.Dom.Tree.Removal.{links_child}
use blinkit.Dom.Tree.Middle.{
  distinct-disjoint, distinct-disjoint_before, not_mem-append, not_mem-cons, mem-middle,
}
use blinkit.Dom.Tree.Insertion.{inserted-Represents}
use blinkit.Dom.Tree.Appending.{modify_other, first_placed, first_if, last_if, ends_if}

module _ {t : Tree} {kids : ℕ → List ℕ} (r : Represents t kids) (p c d : ℕ) (us vs : List ℕ)
    (e : kids p ≡ us ++ (d ∷ vs)) (lonely : (t.links c).parent ≡ none) where
  entering : mem c (us ++ (d ∷ vs)) ≡ false
  entering = ap (mem c) (sym e) ∙ alone-not_mem r p c lonely

  here : Chain t.links p none (us ++ (d ∷ vs)) none
  here = subst (λ (xs : List ℕ). Chain t.links p none xs none) e (r.chain p)

  here-distinct : distinct (us ++ (d ∷ vs)) ≡ true
  here-distinct = ap distinct (sym e) ∙ r.is_distinct p

  before_it : (t.links d).previous ≡ last_or none us
  before_it = ap (λ (k : Links). k.previous) (links_child r p d us vs e)

  inserted : Tree
  unfolding insert_before_common
  inserted = insert_before_common p d c t

  inserted-child :
      inserted.links c ≡ record { parent = some p; previous = last_or none us; next = some d }
  unfolding inserted
  inserted-child =
      if_true _ _ (==_refl c)
      ∙ ap (λ (o : Option ℕ). record { parent = some p; previous = o; next = some d }) before_it

  inserted-other :
      (x : ℕ)
      → (x == c) ≡ false
      → inserted.links x ≡ (
          if same (last_or none us) (some x)
          then set_next (some c) (modify d (set_previous (some c)) t.links x)
          else modify d (set_previous (some c)) t.links x)
  unfolding inserted
  inserted-other x n =
      if_false _ _ n
      ∙ modify_at_lem (t.links d).previous (set_next (some c))
          (modify d (set_previous (some c)) t.links) x
      ∙ ap
          (λ (o : Option ℕ).
            if same o (some x)
            then set_next (some c) (modify d (set_previous (some c)) t.links x)
            else modify d (set_previous (some c)) t.links x)
          before_it

  next_alone :
      (x : ℕ)
      → (x == d) ≡ false
      → (if same (last_or none us) (some x)
          then set_next (some c) (modify d (set_previous (some c)) t.links x)
          else modify d (set_previous (some c)) t.links x)
        ≡ (if same (last_or none us) (some x) then set_next (some c) (t.links x) else t.links x)
  next_alone x n =
      ap (λ (l : Links). if same (last_or none us) (some x) then set_next (some c) l else l)
        (modify_other d (set_previous (some c)) t.links x n)

  not_previous :
      (x : ℕ)
      → mem x us ≡ false
      → (if same (last_or none us) (some x)
          then set_next (some c) (modify d (set_previous (some c)) t.links x)
          else modify d (set_previous (some c)) t.links x)
        ≡ modify d (set_previous (some c)) t.links x
  not_previous x h = if_false _ _ (same_last-none-not_mem x us h)

  inserted-chain : Chain inserted.links p none (us ++ (c ∷ d ∷ vs)) none
  inserted-chain =
      let m = inserted.links in
      let (h, k) = Chain-split t.links p none us (d ∷ vs) none here in
      let g = not_mem-append c us (d ∷ vs) entering in
      let i = distinct-append us (d ∷ vs) here-distinct in
      Chain-join m p none us (c ∷ d ∷ vs) none
        (relink_last t.links m p none us (some d) (some c) i.0
          (λ x j.
            inserted-other x (mem-not_mem x c us g.0 j)
            ∙ next_alone x
                (not_mem-cons x d vs (distinct-disjoint us (d ∷ vs) x here-distinct j)).0)
          h)
        (
          inserted-child,
          relink_first t.links m p (last_or none us) (d ∷ vs) none (some c) i.1
              (λ x j.
                inserted-other x (mem-not_mem x c (d ∷ vs) g.1 j)
                ∙ not_previous x (distinct-disjoint_before us (d ∷ vs) x here-distinct j))
              k,
        )

  inserted-same : (x : ℕ) → mem x (us ++ (c ∷ d ∷ vs)) ≡ false → inserted.links x ≡ t.links x
  inserted-same x n =
      let (h, k) = not_mem-append x us (c ∷ d ∷ vs) n in
      let (i, j) = not_mem-cons x c (d ∷ vs) k in
      inserted-other x i
      ∙ not_previous x h
      ∙ modify_other d (set_previous (some c)) t.links x (not_mem-cons x d vs j).0

  inserted-members : (x : ℕ) → mem x (us ++ (c ∷ d ∷ vs)) ≡ (mem x (kids p) || x == c)
  inserted-members x = mem-middle x c us (d ∷ vs) ∙ ap (λ xs. mem x xs || x == c) (sym e)

  inserted-first : (inserted.ends p).first ≡ head_or (us ++ (c ∷ d ∷ vs)) none
  unfolding inserted
  inserted-first =
      first_if (is_none (t.links d).previous) p c t.ends
      ∙ ap (λ (o : Option ℕ). if is_none o then some c else (t.ends p).first) before_it
      ∙ first_placed us (d ∷ vs) c (t.ends p).first (r.first p ∙ ap (λ xs. head_or xs none) e)

  inserted-last : (inserted.ends p).last ≡ last_or none (us ++ (c ∷ d ∷ vs))
  unfolding inserted
  inserted-last =
      last_if (is_none (t.links d).previous) p c t.ends
      ∙ r.last p
      ∙ ap (last_or none) e
      ∙ last_or-append us (d ∷ vs) none
      ∙ sym (last_or-append us (c ∷ d ∷ vs) none)

  pub insert_before_common-Represents :
      Represents (insert_before_common p d c t) (put p (us ++ (c ∷ d ∷ vs)) kids)
  unfolding inserted
  insert_before_common-Represents =
      inserted-Represents r inserted p c (us ++ (c ∷ d ∷ vs)) lonely inserted-members inserted-chain
        inserted-same (distinct-insert us (d ∷ vs) c here-distinct entering) inserted-first
        inserted-last (ends_if (is_none (t.links d).previous) p c t.ends)
