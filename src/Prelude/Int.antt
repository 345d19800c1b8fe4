-- ===== src/Prelude/Int.antt =====
-- Signed numbers, for the `int` offsets and lengths of the source.
use Prim.Native.Nat.{ℕ, suc, ◌+◌, ◌-◌}
use blinkit.Prelude.Tests.{leb, if◌then◌else◌}

-- `negsuc n` is -(n + 1).
pub data ℤ : Type 0 where
  pos : ℕ → ℤ
  negsuc : ℕ → ℤ

-- a - b, as an integer.
abbrev pub sub_ℕ : ℕ → ℕ → ℤ
sub_ℕ a b = if leb b a then pos (a - b) else negsuc (b - a - 1)

abbrev pub add_ℕ : ℕ → ℤ → ℤ
add_ℕ a (pos n) = pos (a + n)
add_ℕ a (negsuc n) = sub_ℕ a (suc n)

abbrev pub minus_ℕ : ℤ → ℕ → ℤ
minus_ℕ (pos n) b = sub_ℕ n b
minus_ℕ (negsuc n) b = negsuc (n + b)
