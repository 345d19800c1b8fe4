-- ===== src/Dom/Tree/Replacing.antt =====
-- `ReplaceChild` of a node that is no fragment, and what it does to a list of children.
use blinkit.Prelude.{
  [], ℕ, true, false, List, ◌∷◌, ◌++◌, ◌≡◌, ap, ◌∙◌, none, some, ◌==◌, ==_refl, Bool-cases, inl,
  inr, if◌then◌else◌, arith,
}
use blinkit.Prelude.{refl}
use blinkit.Dom.Tree.{
  NodeType, child_type_allowed, Option, not, Bool, Tree, Outcome, done, hierarchy_request_error,
  not_found_error, same, contains, remove_from_old_parent, append_child_common,
  insert_before_common,
}
use blinkit.Dom.Tree.Chains.{mem}
use blinkit.Dom.Tree.Moves.{if_true, if_false}
use blinkit.Dom.Tree.Shape.{put}
use blinkit.Dom.Tree.Middle.{not_mem-cons}
use blinkit.Dom.Tree.Edits.{without, detach, without-not_mem, other_way}
use blinkit.Dom.Tree.Ancestors.{without-mem}
use blinkit.Dom.Tree.Promised.{misplaced, Edit, edited, cyclic, absent}

-- The reference of the insertion.
abbrev pub reference : ℕ → ℕ → Tree → Option ℕ
reference child old t =
    if same (t.links old).next (some child) then (t.links child).next else (t.links old).next

unfoldable pub place_child : ℕ → Option ℕ → ℕ → Tree → Tree
unfolding append_child_common insert_before_common
place_child p none child t = append_child_common p child t
place_child p (some next) child t = insert_before_common p next child t

unfoldable pub leave_parent : ℕ → Tree → Tree
unfolding remove_from_old_parent
leave_parent child t = remove_from_old_parent (t.links child).parent child t

-- `ReplaceChild` by a node of the type, in a tree of the depth.
unfoldable pub replace_child : NodeType → ℕ → ℕ → ℕ → ℕ → Tree → Outcome
unfolding contains place_child leave_parent child_type_allowed
replace_child type depth p child old t =
    if contains depth child t (some p)
    then hierarchy_request_error
    else if not (same (t.links old).parent (some p))
    then not_found_error
    else if not (child_type_allowed type)
    then hierarchy_request_error
    else done (
        place_child p (reference child old t) child
          (leave_parent child (leave_parent old (leave_parent child t))))

-- A list with a node in the place of another one.
unfoldable pub exchange : ℕ → ℕ → List ℕ → List ℕ
exchange c d [] = []
exchange c d (x ∷ xs) =
    let rest = exchange c d xs in if x == d then c ∷ rest else if x == c then rest else x ∷ rest

abbrev pub replacing : Bool → Bool → ℕ → ℕ → ℕ → (ℕ → List ℕ) → Edit
replacing cycle allowed p c d kids =
    if cycle
    then cyclic
    else if not (mem d (kids p))
    then absent
    else if not allowed
    then misplaced
    else edited (put p (exchange c d (kids p)) (detach c kids))

skip_append :
    (b : Bool) (u : ℕ) (xs ys : List ℕ)
    → (if b then xs ++ ys else u ∷ (xs ++ ys)) ≡ (if b then xs else u ∷ xs) ++ ys
skip_append true u xs ys = refl
skip_append false u xs ys = refl

exchange-without : (c d : ℕ) (xs : List ℕ) → mem d xs ≡ false → exchange c d xs ≡ without c xs
unfolding exchange without mem
exchange-without c d [] n = refl
exchange-without c d (x ∷ xs) n =
    let (i, j) = not_mem-cons d x xs n in
    if_false (c ∷ exchange c d xs) _ (other_way d x i)
    ∙ ap (λ ys. if x == c then ys else x ∷ ys) (exchange-without c d xs j)

pub exchange-middle :
    (c d : ℕ) (us vs : List ℕ)
    → mem d (us ++ vs) ≡ false
    → exchange c d (us ++ (d ∷ vs)) ≡ without c us ++ (c ∷ without c vs)
unfolding exchange without
exchange-middle c d [] vs n =
    if_true (c ∷ exchange c d vs) _ (==_refl d) ∙ ap (◌∷◌ c) (exchange-without c d vs n)
exchange-middle c d (u ∷ us) vs n =
    let (i, j) = not_mem-cons d u (us ++ vs) n in
    if_false (c ∷ exchange c d (us ++ (d ∷ vs))) _ (other_way d u i)
    ∙ ap (λ ys. if u == c then ys else u ∷ ys) (exchange-middle c d us vs j)
    ∙ skip_append (u == c) u (without c us) (c ∷ without c vs)

without-append : (c : ℕ) (xs ys : List ℕ) → without c (xs ++ ys) ≡ without c xs ++ without c ys
unfolding without
without-append c [] ys = refl
without-append c (x ∷ xs) ys =
    ap (λ zs. if x == c then zs else x ∷ zs) (without-append c xs ys)
    ∙ skip_append (x == c) x (without c xs) (without c ys)

not_mem-without : (x c : ℕ) (xs : List ℕ) → mem x xs ≡ false → mem x (without c xs) ≡ false
not_mem-without x c xs n = elim (Bool-cases (mem x (without c xs))) [
  | inl i ↦ let f = (without-mem x c xs i).0 in ground arith
  | inr o ↦ o
]

without_self : (c : ℕ) (xs : List ℕ) → mem c (without c xs) ≡ false
without_self c xs = elim (Bool-cases (mem c (without c xs))) [
  | inl i ↦ let f = (without-mem c c xs i).1 in let g = ==_refl c in absurd (ground arith)
  | inr o ↦ o
]

-- The new child leaves, the old one, and the new one once more.
unfoldable pub leaving : ℕ → ℕ → List ℕ → List ℕ
leaving c d xs = without c (without d (without c xs))

pub leaving-not_mem : (c d : ℕ) (xs : List ℕ) → mem d xs ≡ false → leaving c d xs ≡ without c xs
unfolding leaving
leaving-not_mem c d xs n =
    ap (without c) (without-not_mem d (without c xs) (not_mem-without d c xs n))
    ∙ without-not_mem c (without c xs) (without_self c xs)

pub leaving-cons : (c d : ℕ) (xs : List ℕ) → leaving c d (d ∷ xs) ≡ leaving c d xs
unfolding leaving without
leaving-cons c d xs = elim (Bool-cases (d == c)) [
  | inl i ↦ ap (λ ys. without c (without d ys)) (if_true (without c xs) (d ∷ without c xs) i)
  | inr n ↦
      ap (λ ys. without c (without d ys)) (if_false (without c xs) (d ∷ without c xs) n)
      ∙ ap (without c) (if_true (without d (without c xs)) _ (==_refl d))
]

pub leaving-append :
    (c d : ℕ) (xs ys : List ℕ) → leaving c d (xs ++ ys) ≡ leaving c d xs ++ leaving c d ys
unfolding leaving
leaving-append c d xs ys =
    ap (λ zs. without c (without d zs)) (without-append c xs ys)
    ∙ ap (without c) (without-append d (without c xs) (without c ys))
    ∙ without-append c (without d (without c xs)) (without d (without c ys))
