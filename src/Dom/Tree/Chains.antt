-- ===== src/Dom/Tree/Chains.antt =====
-- Lists of nodes that are linked to one another, as the children of a parent.
use blinkit.Prelude.{
  ℕ, Bool, true, false, not, ◌||◌, ◌&&◌, List, [], ◌∷◌, ◌++◌, ◌≡◌, refl, ap, sym, ◌∙◌, Option, some,
  ◌==◌, ==_iff, Bool-cases, inl, inr, arith, ◌⊎◌,
}
use blinkit.Dom.Tree.{Links}

unfoldable pub mem : ℕ → List ℕ → Bool
mem a [] = false
mem a (x ∷ xs) = a == x || mem a xs

unfoldable pub distinct : List ℕ → Bool
unfolding mem
distinct [] = true
distinct (x ∷ xs) = not (mem x xs) && distinct xs

-- The first node of a list, or what stands behind it; the last, or what stands before.
abbrev pub head_or : List ℕ → Option ℕ → Option ℕ
head_or [] o = o
head_or (x ∷ xs) o = some x

abbrev pub last_or : Option ℕ → List ℕ → Option ℕ
last_or o [] = o
last_or o (x ∷ xs) = last_or (some x) xs

-- `xs` are children of `p`, linked in order, between `before` and `after`.
abbrev pub Chain : (ℕ → Links) → ℕ → Option ℕ → List ℕ → Option ℕ → Type 0
Chain l p before [] after = Unit
Chain l p before (x ∷ xs) after =
    (l x ≡ record { parent = some p; previous = before; next = head_or xs after })
    × Chain l p (some x) xs after

pub mem-append : (a : ℕ) (xs ys : List ℕ) → mem a (xs ++ ys) ≡ (mem a xs || mem a ys)
unfolding mem
mem-append a [] ys = refl
mem-append a (x ∷ xs) ys = ground (arith, mem-append a xs ys)

pub distinct-append :
    (xs ys : List ℕ) → distinct (xs ++ ys) ≡ true → (distinct xs ≡ true) × (distinct ys ≡ true)
unfolding distinct
distinct-append [] ys d = (refl, d)
distinct-append (x ∷ xs) ys d = ground (arith, mem-append x xs ys, distinct-append xs ys)

-- A list without a node, and the same list with it at a place.
pub distinct-insert :
    (xs ys : List ℕ) (c : ℕ)
    → distinct (xs ++ ys) ≡ true
    → mem c (xs ++ ys) ≡ false
    → distinct (xs ++ (c ∷ ys)) ≡ true
unfolding distinct mem
distinct-insert [] ys c d m = ground arith
distinct-insert (x ∷ xs) ys c d m =
    ground (arith, mem-append x xs ys, mem-append x xs (c ∷ ys), distinct-insert xs ys c)

pub distinct-remove :
    (xs ys : List ℕ) (c : ℕ)
    → distinct (xs ++ (c ∷ ys)) ≡ true
    → (distinct (xs ++ ys) ≡ true) × (mem c (xs ++ ys) ≡ false)
unfolding distinct mem
distinct-remove [] ys c d = ground arith
distinct-remove (x ∷ xs) ys c d = ground (
  arith,
  mem-append x xs ys,
  mem-append x xs (c ∷ ys),
  mem-append c xs ys,
  distinct-remove xs ys c,
)

-- A node of a list stands at a place.
pub split_at :
    (c : ℕ) (xs : List ℕ) → mem c xs ≡ true → (us : List ℕ) × (vs : List ℕ) × (xs ≡ us ++ (c ∷ vs))
unfolding mem
split_at c [] m = absurd (ground arith)
split_at c (x ∷ xs) m = elim (Bool-cases (c == x)) [
  | inl e ↦ ([], xs, ap (λ (y : ℕ). y ∷ xs) (sym ((==_iff c x).0 e)))
  | inr n ↦ let (us, vs, e) = split_at c xs (ground arith) in (x ∷ us, vs, ap (◌∷◌ x) e)
]

pub snoc_cases : (xs : List ℕ) → (xs ≡ []) ⊎ ((zs : List ℕ) × (z : ℕ) × (xs ≡ zs ++ (z ∷ [])))
snoc_cases [] = inl refl
snoc_cases (x ∷ xs) = elim (snoc_cases xs) [
  | inl e ↦ inr ([], x, ap (◌∷◌ x) e)
  | inr (zs, z, e) ↦ inr (x ∷ zs, z, ap (◌∷◌ x) e)
]

pub head_or-append :
    (xs ys : List ℕ) (o : Option ℕ) → head_or (xs ++ ys) o ≡ head_or xs (head_or ys o)
head_or-append [] ys o = refl
head_or-append (x ∷ xs) ys o = refl

pub last_or-append :
    (xs ys : List ℕ) (o : Option ℕ) → last_or o (xs ++ ys) ≡ last_or (last_or o xs) ys
last_or-append [] ys o = refl
last_or-append (x ∷ xs) ys o = last_or-append xs ys (some x)

module _ (l : ℕ → Links) (p : ℕ) where
  pub Chain-split :
      (before : Option ℕ) (xs ys : List ℕ) (after : Option ℕ)
      → Chain l p before (xs ++ ys) after
      → Chain l p before xs (head_or ys after) × Chain l p (last_or before xs) ys after
  Chain-split before [] ys after c = (tt, c)
  Chain-split before (x ∷ xs) ys after c =
      let h = Chain-split (some x) xs ys after c.1 in
      (
        (
          c.0
              ∙ ap (λ (o : Option ℕ). record { parent = some p; previous = before; next = o })
                  (head_or-append xs ys after),
          h.0,
        ),
        h.1,
      )

  pub Chain-join :
      (before : Option ℕ) (xs ys : List ℕ) (after : Option ℕ)
      → Chain l p before xs (head_or ys after)
      → Chain l p (last_or before xs) ys after
      → Chain l p before (xs ++ ys) after
  Chain-join before [] ys after c d = d
  Chain-join before (x ∷ xs) ys after c d = (
    c.0
        ∙ ap (λ (o : Option ℕ). record { parent = some p; previous = before; next = o })
            (sym (head_or-append xs ys after)),
    Chain-join (some x) xs ys after c.1 d,
  )

  -- A chain stays where its nodes do.
  pub Chain-frame :
      (m : ℕ → Links) (before : Option ℕ) (xs : List ℕ) (after : Option ℕ)
      → ((x : ℕ) → mem x xs ≡ true → m x ≡ l x)
      → Chain l p before xs after
      → Chain m p before xs after
  unfolding mem
  Chain-frame m before [] after f c = tt
  Chain-frame m before (x ∷ xs) after f c =
      (f x (ground arith) ∙ c.0, Chain-frame m (some x) xs after (λ y h. f y (ground arith)) c.1)

  pub Chain-parent :
      (before : Option ℕ) (xs : List ℕ) (after : Option ℕ) (x : ℕ)
      → Chain l p before xs after
      → mem x xs ≡ true
      → (l x).parent ≡ some p
  unfolding mem
  Chain-parent before [] after x c m = absurd (ground arith)
  Chain-parent before (y ∷ ys) after x c m = elim (Bool-cases (x == y)) [
    | inl e ↦ ap (λ (z : ℕ). (l z).parent) ((==_iff x y).0 e) ∙ ap (λ (k : Links). k.parent) c.0
    | inr n ↦ Chain-parent (some y) ys after x c.1 (ground arith)
  ]
