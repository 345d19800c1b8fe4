-- ===== src/Http/Code.antt =====
-- sdk/include/bk_def.h: the error codes.
use blinkit.Prelude.{Bool, true, false}

pub data Code : Type 0 where
  success unknown forbidden not_found network cancelled exception : Code
  eval range reference syntax type uri : Code

abbrev pub is_success : Code → Bool
is_success success = true
is_success _ = false
