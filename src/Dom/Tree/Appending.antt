-- ===== src/Dom/Tree/Appending.antt =====
-- `AppendChildCommon`: a node enters the end of the list of its new parent.
use blinkit.Prelude.{
  ℕ, Bool, true, false, ◌||◌, List, [], ◌∷◌, ◌++◌, ◌≡◌, refl, ap, sym, ◌∙◌, Option, none, some,
  ◌==◌, ==_refl, if◌then◌else◌, arith,
}
use blinkit.Dom.Tree.{
  set_first, set_last, Links, Ends, Tree, append_child_common, modify, modify_at, set_next,
  set_previous, same, is_none,
}
use blinkit.Dom.Tree.Chains.{
  mem, distinct, head_or, last_or, Chain, Chain-join, mem-append, distinct-insert, last_or-append,
}
use blinkit.Dom.Tree.Moves.{if_true, if_false, relink_last, same_last-none-not_mem, mem-not_mem}
use blinkit.Dom.Tree.Shape.{Represents, put, no_links, alone-not_mem}
use blinkit.Dom.Tree.Insertion.{inserted-Represents}

-- The links after `AppendChildCommon`, by the last child.
abbrev appended_links : Option ℕ → ℕ → ℕ → (ℕ → Links) → ℕ → Links
appended_links o p c m =
    let parented = modify c (λ (l : Links). record l { parent = some p }) m in
    if is_none o
    then parented
    else modify_at o (set_next (some c)) (modify c (set_previous o) parented)

modify_self : {A : Type 0} (c : ℕ) (f : A → A) (m : ℕ → A) → modify c f m c ≡ f (m c)
modify_self c f m = if_true (f (m c)) (m c) (==_refl c)

pub modify_other :
    {A : Type 0} (c : ℕ) (f : A → A) (m : ℕ → A) (x : ℕ) → (x == c) ≡ false → modify c f m x ≡ m x
modify_other c f m x n = if_false (f (m x)) (m x) n

appended_links-child :
    (o : Option ℕ) (p c : ℕ) (m : ℕ → Links)
    → same o (some c) ≡ false
    → m c ≡ no_links
    → appended_links o p c m c ≡ record { parent = some p; previous = o; next = none }
appended_links-child none p c m n e =
    modify_self c (λ (l : Links). record l { parent = some p }) m
    ∙ ap (λ (l : Links). record l { parent = some p }) e
appended_links-child (some a) p c m n e =
    let f : Links → Links = λ (l : Links). record l { parent = some p } in
    modify_other a (set_next (some c)) (modify c (set_previous (some a)) (modify c f m)) c n
    ∙ modify_self c (set_previous (some a)) (modify c f m)
    ∙ ap (set_previous (some a)) (modify_self c f m ∙ ap f e)

appended_links-other :
    (o : Option ℕ) (p c : ℕ) (m : ℕ → Links) (x : ℕ)
    → (x == c) ≡ false
    → appended_links o p c m x ≡ (if same o (some x) then set_next (some c) (m x) else m x)
appended_links-other none p c m x n = if_false _ (m x) n
appended_links-other (some a) p c m x n =
    let f : Links → Links = λ (l : Links). record l { parent = some p } in
    ap (λ (l : Links). if x == a then set_next (some c) l else l)
      (modify_other c (set_previous (some a)) (modify c f m) x n ∙ modify_other c f m x n)

is_none-last : (xs : List ℕ) (x : ℕ) → is_none (last_or (some x) xs) ≡ false
is_none-last [] x = refl
is_none-last (y ∷ ys) x = is_none-last ys y

-- The first child after a node is put at a place, by whether a node stands before it.
pub first_placed :
    (us ys : List ℕ) (c : ℕ) (o : Option ℕ)
    → o ≡ head_or (us ++ ys) none
    → (if is_none (last_or none us) then some c else o) ≡ head_or (us ++ (c ∷ ys)) none
first_placed [] ys c o e = refl
first_placed (u ∷ us) ys c o e = if_false (some c) o (is_none-last us u) ∙ e

-- `SetFirstChild`, under a condition.
pub first_if :
    (b : Bool) (p c : ℕ) (m : ℕ → Ends)
    → ((if b then modify p (set_first (some c)) m else m) p).first
      ≡ (if b then some c else (m p).first)
first_if true p c m = ap (λ (x : Ends). x.first) (modify_self p (set_first (some c)) m)
first_if false p c m = refl

pub last_if :
    (b : Bool) (p c : ℕ) (m : ℕ → Ends)
    → ((if b then modify p (set_first (some c)) m else m) p).last ≡ (m p).last
last_if true p c m = ap (λ (x : Ends). x.last) (modify_self p (set_first (some c)) m)
last_if false p c m = refl

pub ends_if :
    (b : Bool) (p c : ℕ) (m : ℕ → Ends) (a : ℕ)
    → (a == p) ≡ false
    → (if b then modify p (set_first (some c)) m else m) a ≡ m a
ends_if true p c m a n = modify_other p (set_first (some c)) m a n
ends_if false p c m a n = refl

pub append_nil : (xs : List ℕ) → xs ++ [] ≡ xs
append_nil [] = refl
append_nil (x ∷ xs) = ap (◌∷◌ x) (append_nil xs)

module _ {t : Tree} {kids : ℕ → List ℕ} (r : Represents t kids) (p c : ℕ)
    (lonely : (t.links c).parent ≡ none) where
  fresh : (a : ℕ) → mem c (kids a) ≡ false
  fresh a = alone-not_mem r a c lonely

  appended : Tree
  unfolding append_child_common
  appended = append_child_common p c t

  appended-child :
      appended.links c ≡ record { parent = some p; previous = last_or none (kids p); next = none }
  unfolding appended
  appended-child =
      appended_links-child (t.ends p).last p c t.links
        (ap (λ (o : Option ℕ). same o (some c)) (r.last p)
          ∙ same_last-none-not_mem c (kids p) (fresh p))
        (r.alone c lonely)
      ∙ ap (λ (o : Option ℕ). record { parent = some p; previous = o; next = none }) (r.last p)

  appended-other :
      (x : ℕ)
      → (x == c) ≡ false
      → appended.links x ≡ (
          if same (last_or none (kids p)) (some x)
          then set_next (some c) (t.links x)
          else t.links x)
  unfolding appended
  appended-other x n =
      appended_links-other (t.ends p).last p c t.links x n
      ∙ ap (λ (o : Option ℕ). if same o (some x) then set_next (some c) (t.links x) else t.links x)
          (r.last p)

  appended-chain : Chain appended.links p none (kids p ++ (c ∷ [])) none
  appended-chain =
      Chain-join appended.links p none (kids p) (c ∷ []) none
        (relink_last t.links appended.links p none (kids p) none (some c) (r.is_distinct p)
          (λ x i. appended-other x (mem-not_mem x c (kids p) (fresh p) i)) (r.chain p))
        (appended-child, tt)

  appended-same : (x : ℕ) → mem x (kids p ++ (c ∷ [])) ≡ false → appended.links x ≡ t.links x
  unfolding mem
  appended-same x n =
      let e = mem-append x (kids p) (c ∷ []) in
      appended-other x (ground arith)
      ∙ if_false (set_next (some c) (t.links x)) (t.links x)
          (same_last-none-not_mem x (kids p) (ground arith))

  appended-members : (x : ℕ) → mem x (kids p ++ (c ∷ [])) ≡ (mem x (kids p) || x == c)
  unfolding mem
  appended-members x = ground (arith, mem-append x (kids p) (c ∷ []))

  appended-first : (appended.ends p).first ≡ head_or (kids p ++ (c ∷ [])) none
  unfolding appended
  appended-first =
      let b = is_none (t.ends p).last in
      let m = if b then modify p (set_first (some c)) t.ends else t.ends in
      ap (λ (x : Ends). x.first) (modify_self p (set_last (some c)) m)
      ∙ first_if b p c t.ends
      ∙ ap (λ (o : Option ℕ). if is_none o then some c else (t.ends p).first) (r.last p)
      ∙ first_placed (kids p) [] c (t.ends p).first
          (r.first p ∙ ap (λ xs. head_or xs none) (sym (append_nil (kids p))))

  appended-last : (appended.ends p).last ≡ last_or none (kids p ++ (c ∷ []))
  unfolding appended
  appended-last =
      let b = is_none (t.ends p).last in
      let m = if b then modify p (set_first (some c)) t.ends else t.ends in
      ap (λ (x : Ends). x.last) (modify_self p (set_last (some c)) m)
      ∙ sym (last_or-append (kids p) (c ∷ []) none)

  appended-ends : (a : ℕ) → (a == p) ≡ false → appended.ends a ≡ t.ends a
  unfolding appended
  appended-ends a n =
      let b = is_none (t.ends p).last in
      let m = if b then modify p (set_first (some c)) t.ends else t.ends in
      modify_other p (set_last (some c)) m a n ∙ ends_if b p c t.ends a n

  pub append_child_common-Represents :
      Represents (append_child_common p c t) (put p (kids p ++ (c ∷ [])) kids)
  unfolding appended
  append_child_common-Represents =
      inserted-Represents r appended p c (kids p ++ (c ∷ [])) lonely appended-members appended-chain
        appended-same
        (distinct-insert (kids p) [] c (ap distinct (append_nil (kids p)) ∙ r.is_distinct p)
          (ap (mem c) (append_nil (kids p)) ∙ fresh p))
        appended-first appended-last appended-ends
