-- ===== src/Dom/Tree/Edits.antt =====
-- `CollectChildrenAndRemoveFromOldParent` on the lists of children.
use blinkit.Prelude.{
  ℕ, true, false, ◌||◌, List, [], ◌∷◌, ◌++◌, ◌≡◌, refl, ap, sym, subst, ◌∙◌, Option, none, some,
  ◌==◌, ==_iff, ==_refl, Bool-cases, inl, inr, if◌then◌else◌, arith,
}
use blinkit.Dom.Tree.{Links, Tree, remove_from_old_parent, remove_between}
use blinkit.Dom.Tree.Chains.{mem, distinct, split_at, distinct-remove}
use blinkit.Dom.Tree.Moves.{if_true, if_false}
use blinkit.Dom.Tree.Shape.{Represents, put, no_links, alone-not_mem, other_child}
use blinkit.Dom.Tree.Removal.{links_child, remove_between-Represents}
use blinkit.Dom.Tree.Middle.{mem-middle, not_mem-cons}

-- A list without a node.
unfoldable pub without : ℕ → List ℕ → List ℕ
without c [] = []
without c (x ∷ xs) = let rest = without c xs in if x == c then rest else x ∷ rest

pub mem-without :
    (d c : ℕ) (xs : List ℕ) → (d == c) ≡ false → mem d xs ≡ true → mem d (without c xs) ≡ true
unfolding mem without
mem-without d c [] n m = m
mem-without d c (x ∷ xs) n m = elim (Bool-cases (x == c)) [
  | inl i ↦
      let e = ap (λ z. d == z) ((==_iff x c).0 i) in
      ap (mem d) (if_true (without c xs) (x ∷ without c xs) i) ∙ mem-without d c xs n (ground arith)
  | inr o ↦
      ap (mem d) (if_false (without c xs) (x ∷ without c xs) o)
      ∙ ground (arith, mem-without d c xs n)
]

-- The children of every node without one of them.
abbrev pub detach : ℕ → (ℕ → List ℕ) → ℕ → List ℕ
detach c kids q = without c (kids q)

-- A list with a node before another one.
unfoldable pub put_before : ℕ → ℕ → List ℕ → List ℕ
put_before c d [] = []
put_before c d (x ∷ xs) = let rest = put_before c d xs in if x == d then c ∷ x ∷ xs else x ∷ rest

pub other_way : (a b : ℕ) → (a == b) ≡ false → (b == a) ≡ false
other_way a b n = ground arith

pub without-not_mem : (c : ℕ) (xs : List ℕ) → mem c xs ≡ false → without c xs ≡ xs
unfolding mem without
without-not_mem c [] n = refl
without-not_mem c (x ∷ xs) n =
    let (i, j) = not_mem-cons c x xs n in
    if_false (without c xs) (x ∷ without c xs) (other_way c x i)
    ∙ ap (◌∷◌ x) (without-not_mem c xs j)

pub without-middle :
    (c : ℕ) (us vs : List ℕ) → mem c (us ++ vs) ≡ false → without c (us ++ (c ∷ vs)) ≡ us ++ vs
unfolding without
without-middle c [] vs n =
    if_true (without c vs) (c ∷ without c vs) (==_refl c) ∙ without-not_mem c vs n
without-middle c (u ∷ us) vs n =
    let (i, j) = not_mem-cons c u (us ++ vs) n in
    if_false _ (u ∷ without c (us ++ (c ∷ vs))) (other_way c u i)
    ∙ ap (◌∷◌ u) (without-middle c us vs j)

pub put_before-middle :
    (c d : ℕ) (us vs : List ℕ)
    → mem d us ≡ false
    → put_before c d (us ++ (d ∷ vs)) ≡ us ++ (c ∷ d ∷ vs)
unfolding put_before
put_before-middle c d [] vs n = if_true (c ∷ d ∷ vs) (d ∷ put_before c d vs) (==_refl d)
put_before-middle c d (u ∷ us) vs n =
    let (i, j) = not_mem-cons d u us n in
    if_false _ (u ∷ put_before c d (us ++ (d ∷ vs))) (other_way d u i)
    ∙ ap (◌∷◌ u) (put_before-middle c d us vs j)

pub Represents-same :
    {t : Tree} {kids : ℕ → List ℕ} (others : ℕ → List ℕ)
    → Represents t kids
    → ((q : ℕ) → kids q ≡ others q)
    → Represents t others
Represents-same {t} others r h = subst (Represents t) (λ i q. h q i) r

module _ {t : Tree} {kids : ℕ → List ℕ} (r : Represents t kids) (p c : ℕ) (us vs : List ℕ)
    (e : kids p ≡ us ++ (c ∷ vs)) where
  rest_distinct : (distinct (us ++ vs) ≡ true) × (mem c (us ++ vs) ≡ false)
  rest_distinct = distinct-remove us vs c (ap distinct (sym e) ∙ r.is_distinct p)

  pub present : mem c (kids p) ≡ true
  present =
      let f = mem-middle c c us vs ∙ ap (λ b. mem c (us ++ vs) || b) (==_refl c) in
      ap (mem c) e ∙ ground (arith, f)

  put-detach : (q : ℕ) → put p (us ++ vs) kids q ≡ detach c kids q
  put-detach q = elim (Bool-cases (q == p)) [
    | inl i ↦
        if_true (us ++ vs) (kids q) i
        ∙ sym (without-middle c us vs rest_distinct.1)
        ∙ sym (ap (without c) e)
        ∙ ap (λ (a : ℕ). without c (kids a)) (sym ((==_iff q p).0 i))
    | inr n ↦
        if_false (us ++ vs) (kids q) n
        ∙ sym (without-not_mem c (kids q) (other_child r q p c (other_way q p n) present))
  ]

  remove_between-detach :
      Represents (remove_between p (t.links c).previous (t.links c).next c t) (detach c kids)
  remove_between-detach =
      let l = links_child r p c us vs e in
      let m = remove_between-Represents r p c us vs e in
      Represents-same (detach c kids)
        (subst
          (λ (k : Links).
            Represents (remove_between p k.previous k.next c t) (put p (us ++ vs) kids))
          (sym l) m)
        put-detach

module _ {t : Tree} {kids : ℕ → List ℕ} (r : Represents t kids) (c : ℕ) where
  pub at_parent :
      (p : ℕ)
      → (t.links c).parent ≡ some p
      → Represents (remove_between p (t.links c).previous (t.links c).next c t) (detach c kids)
  at_parent p e =
      let (us, vs, f) = split_at c (kids p) (r.complete c p e) in
      remove_between-detach r p c us vs f

  at_none : (t.links c).parent ≡ none → Represents t (detach c kids)
  at_none e =
      Represents-same (detach c kids) r
        (λ q. sym (without-not_mem c (kids q) (alone-not_mem r q c e)))

  pub remove_from_old_parent-Represents :
      (o : Option ℕ)
      → (t.links c).parent ≡ o
      → Represents (remove_from_old_parent o c t) (detach c kids)
  unfolding remove_from_old_parent
  remove_from_old_parent-Represents none e = at_none e
  remove_from_old_parent-Represents (some p) e = at_parent p e

  pub remove_from_old_parent-parent :
      (o : Option ℕ)
      → (t.links c).parent ≡ o
      → ((remove_from_old_parent o c t).links c).parent ≡ none
  unfolding remove_from_old_parent remove_between
  remove_from_old_parent-parent none e = e
  remove_from_old_parent-parent (some p) e =
      ap (λ (l : Links). l.parent) (if_true no_links _ (==_refl c))
