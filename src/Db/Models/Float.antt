-- ===== src/Db/Models/Float.antt =====
-- The two tests that the program makes on an `f64`, on its bit pattern (IEEE 754 binary64).
use weighing_data_sync.Prelude.{ℕ, ◌/◌, ◌%◌, ◌^◌, Bool, not, ◌&&◌, ◌==◌, ltb}

abbrev pub F64 : Type 0
F64 = ℕ

-- The exponent field is not all ones.
unfoldable pub is_finite : F64 → Bool
is_finite x = not (x / 2 ^ 52 % 2048 == 2047)

-- `x < 0.0` of a finite `x`: the sign is set, and it is not -0.0.
unfoldable pub is_negative : F64 → Bool
is_negative x = ltb 0 (x % 2 ^ 63) && x / 2 ^ 63 == 1
