-- ===== src/Prelude/Windows.antt =====
-- A window of a list, and what the removal of an element does to it.
use Prim.Native.Nat.{ℕ, zero, suc, ◌-◌, ◌≤◌, ◌<◌}
use mathlib.Core.Path.{◌≡◌, refl, ap, sym, ◌∙◌}
use mathlib.Core.List.{List, [], ◌∷◌}
use mathlib.Core.Bool.{Bool, true, false, not}
use mathlib.Core.Option.{some}
use native.Mathlib.Omega.{arith}
use blinkit.Prelude.Tests.{if◌then◌else◌, ltb}
use blinkit.Prelude.Lists.{take, drop, length, filter, count_if, find_index, erase_idx}

-- The bounds of a window after the element at an index has gone.
abbrev pub lower : ℕ → ℕ → ℕ
lower k n = if ltb k n then n - 1 else n

lower-suc : (k n : ℕ) → lower (suc k) (suc n) ≡ suc (lower k n)
lower-suc k n = ground arith

-- The lower bound of a window, after the element at an index has gone.
abbrev pub shift : ℕ → ℕ → ℕ → ℕ
shift k i e = if ltb k e then lower k i else i

shift-suc : (k i e : ℕ) → shift (suc k) (suc i) (suc e) ≡ suc (shift k i e)
shift-suc k i e = ground arith

shift_zero : (k e : ℕ) → shift k 0 e ≡ 0
shift_zero k e = ground arith

lower_first : (n : ℕ) → lower 0 (suc n) ≡ n
lower_first n = ground arith

lower_empty : (k : ℕ) → lower k 0 ≡ 0
lower_empty k = ground arith

shift_first : (i e : ℕ) → shift 0 (suc i) (suc e) ≡ i
shift_first i e = ground arith

module _ {ℓ} {A : Type ℓ} where
  -- The elements from one index up to another.
  abbrev pub window : ℕ → ℕ → List A → List A
  window i e xs = drop i (take e xs)

  pub filter_count_zero :
      (p : A → Bool) (xs : List A) → count_if p xs ≡ 0 → filter (λ x. not (p x)) xs ≡ xs
  filter_count_zero p [] h = refl
  filter_count_zero p (x ∷ xs) h = ground (arith, filter_count_zero p xs)

  count_if-take : (p : A → Bool) (n : ℕ) (xs : List A) → count_if p (take n xs) ≤ count_if p xs
  count_if-take p zero xs = omega arith
  count_if-take p (suc n) [] = omega arith
  count_if-take p (suc n) (x ∷ xs) = ground (arith, count_if-take p n xs)

  count_if-drop : (p : A → Bool) (n : ℕ) (xs : List A) → count_if p (drop n xs) ≤ count_if p xs
  count_if-drop p zero xs = omega arith
  count_if-drop p (suc n) [] = omega arith
  count_if-drop p (suc n) (x ∷ xs) = omega (arith, count_if-drop p n xs)

  window_count_zero :
      (p : A → Bool) (i e : ℕ) (xs : List A)
      → count_if p xs ≡ 0
      → filter (λ x. not (p x)) (window i e xs) ≡ window i e xs
  window_count_zero p i e xs h =
      filter_count_zero p (window i e xs)
        (omega (arith, count_if-drop p i (take e xs), count_if-take p e xs))

  find_index-zero :
      (p : A → Bool) (x : A) (xs : List A) → find_index p (x ∷ xs) ≡ some zero → p x ≡ true
  find_index-zero p x xs h = ground arith

  find_index-suc :
      (p : A → Bool) (x : A) (xs : List A) (k : ℕ)
      → find_index p (x ∷ xs) ≡ some (suc k)
      → (p x ≡ false) × (find_index p xs ≡ some k)
  find_index-suc p x xs k h = ground arith

  pub find_index_bound :
      (p : A → Bool) (xs : List A) (k : ℕ) → find_index p xs ≡ some k → k < length xs
  find_index_bound p [] k h = ground arith
  find_index_bound p (x ∷ xs) zero h = omega arith
  find_index_bound p (x ∷ xs) (suc k) h =
      omega (arith, find_index_bound p xs k (find_index-suc p x xs k h).1)

  -- The removal of the only element that passes a test filters every window by it.
  pub window-erase_idx :
      (p : A → Bool) (xs : List A) (k i e : ℕ)
      → find_index p xs ≡ some k
      → count_if p xs ≤ 1
      → i ≤ e
      → window (shift k i e) (lower k e) (erase_idx xs k) ≡ filter (λ x. not (p x)) (window i e xs)
  window-erase_idx p [] k i e h n b = ground arith
  window-erase_idx p (x ∷ xs) zero zero zero h n b = refl
  window-erase_idx p (x ∷ xs) zero (suc i) zero h n b = absurd (omega arith)
  window-erase_idx p (x ∷ xs) zero zero (suc e) h n b =
      let f = find_index-zero p x xs h in
      rw (f, shift_zero 0 (suc e), lower_first e)
        (sym (window_count_zero p 0 e xs (ground (arith, f))))
  window-erase_idx p (x ∷ xs) zero (suc i) (suc e) h n b =
      let f = find_index-zero p x xs h in
      rw (shift_first i e, lower_first e) (sym (window_count_zero p i e xs (ground (arith, f))))
  window-erase_idx p (x ∷ xs) (suc k) zero zero h n b =
      rw (shift_zero (suc k) 0, lower_empty (suc k)) refl
  window-erase_idx p (x ∷ xs) (suc k) (suc i) zero h n b = absurd (omega arith)
  window-erase_idx p (x ∷ xs) (suc k) zero (suc e) h n b =
      let (f, g) = find_index-suc p x xs k h in
      let rest = window-erase_idx p xs k 0 e g (ground (arith, f)) (omega arith) in
      rw (shift_zero (suc k) (suc e), lower-suc k e, f)
        (ap (◌∷◌ x) (sym (ap (λ n. window n (lower k e) (erase_idx xs k)) (shift_zero k e)) ∙ rest))
  window-erase_idx p (x ∷ xs) (suc k) (suc i) (suc e) h n b =
      let (f, g) = find_index-suc p x xs k h in
      rw (shift-suc k i e, lower-suc k e)
        (window-erase_idx p xs k i e g (ground (arith, f)) (omega arith))
