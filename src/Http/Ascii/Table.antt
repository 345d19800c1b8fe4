-- ===== src/Http/Ascii/Table.antt =====
-- The ASCII mappings, as an instance of the interface.
use blinkit.Prelude.{ℕ, ◌+◌, ◌-◌, ◌&&◌, ◌≡◌, refl, map, leb, ◌==◌, if◌then◌else◌, bytes_eq, arith}
use blinkit.Http.Ascii.{Ascii}

abbrev pub lower : ℕ → ℕ
lower c = if leb b'A' c && leb c b'Z' then c + 32 else c

abbrev pub upper : ℕ → ℕ
upper c = if leb b'a' c && leb c b'z' then c - 32 else c

pub lower-upper_table : (c : ℕ) → lower (upper c) ≡ lower c
lower-upper_table c = ground arith

pub lower_table_idem : (c : ℕ) → lower (lower c) ≡ lower c
lower_table_idem c = ground arith

pub upper-lower_table : (c : ℕ) → upper (lower c) ≡ upper c
upper-lower_table c = ground arith

abbrev pub ascii : Ascii
ascii = record {
  to_lower = lower;
  to_upper = upper;
  equals_case_insensitive = λ a b. bytes_eq (map lower a) (map lower b);
  lower-upper = lower-upper_table;
  lower_idem = lower_table_idem;
  upper-lower = upper-lower_table;
  equals_lem = λ a b. refl;
}

pub table_line_feed :
    (c : ℕ)
    → ((ascii.to_upper c == b'\n') ≡ (c == b'\n')) × ((ascii.to_lower c == b'\n') ≡ (c == b'\n'))
table_line_feed c = (ground arith, ground arith)
