-- ===== src/Prelude/Tables.antt =====
-- Tables with numbers as keys: the entries of a map, each key once.
use Prim.Native.Nat.{ℕ}
use mathlib.Core.Path.{◌≡◌}
use mathlib.Core.Option.{Option, none, some}
use mathlib.Core.List.{List, [], ◌∷◌}
use native.Mathlib.Omega.{arith}
use blinkit.Prelude.Tests.{◌==◌, if◌then◌else◌}

module _ {ℓ} {V : Type ℓ} where
  unfoldable pub find_key : ℕ → List (ℕ × V) → Option V
  find_key id [] = none
  find_key id ((k, t) ∷ rest) = let later = find_key id rest in if k == id then some t else later

  unfoldable pub erase_key : ℕ → List (ℕ × V) → List (ℕ × V)
  erase_key id [] = []
  erase_key id ((k, t) ∷ rest) =
      let less = erase_key id rest in if k == id then less else (k, t) ∷ less

  unfoldable pub put_key : ℕ → V → List (ℕ × V) → List (ℕ × V)
  unfolding erase_key
  put_key id v l = (id, v) ∷ erase_key id l

  pub find_key-erase_key :
      (j k : ℕ) (l : List (ℕ × V))
      → find_key j (erase_key k l) ≡ (if k == j then none else find_key j l)
  unfolding find_key erase_key
  find_key-erase_key j k [] = ground arith
  find_key-erase_key j k ((i, t) ∷ rest) = ground (arith, find_key-erase_key j k rest)

  pub find_key-put_key :
      (j k : ℕ) (v : V) (l : List (ℕ × V))
      → find_key j (put_key k v l) ≡ (if k == j then some v else find_key j l)
  unfolding find_key put_key
  find_key-put_key j k v l = ground (arith, find_key-erase_key j k l)
