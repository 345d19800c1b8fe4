-- ===== src/Http/Ascii.antt =====
-- What the code uses of chromium/base/strings/string_util.h: the ASCII case mappings of a byte
-- and the case-insensitive comparison, as operations with the laws their comments document.
pub mod Table
use blinkit.Prelude.{ℕ, ◌≡◌, Bool, map, Bytes, bytes_eq}

pub record Ascii : Type 0 where
  pub to_lower : ℕ → ℕ
  pub to_upper : ℕ → ℕ
  pub equals_case_insensitive : Bytes → Bytes → Bool
  pub lower-upper : (c : ℕ) → to_lower (to_upper c) ≡ to_lower c
  pub lower_idem : (c : ℕ) → to_lower (to_lower c) ≡ to_lower c
  pub upper-lower : (c : ℕ) → to_upper (to_lower c) ≡ to_upper c
  pub equals_lem :
      (a b : Bytes) → equals_case_insensitive a b ≡ bytes_eq (map to_lower a) (map to_lower b)
