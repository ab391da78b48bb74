-- ===== src/Source/SqlServer/Numeric.antt =====
-- source/sqlserver.rs: how a `NUMERIC` is printed. The driver's value is an `i128` of at most 38
-- digits, which has an absolute value, and a scale below 38, for which the power does not overflow.
pub mod Reading
pub mod RoundTrip
use weighing_data_sync.Prelude.{ℕ, ◌/◌, ◌%◌, ◌^◌, ◌==◌, if◌then◌else◌, ◌∷◌, ◌++◌, Text}
use weighing_data_sync.Prelude.Int.{ℤ, abs, is_negative}
use weighing_data_sync.Text.Decimal.{decimal, minus, padded, signed_decimal}

pub record Numeric : Type 0 where
  pub value : ℤ
  pub scale : ℕ

-- `10_i128.pow(scale)`, modulo the width of the type.
abbrev pub pow_10 : ℕ → ℕ
pow_10 scale = 10 ^ scale % 2 ^ 128

unfoldable pub format_numeric : Numeric → Text
unfolding decimal signed_decimal padded
format_numeric n =
    let factor = pow_10 n.scale in
    if n.scale == 0
    then signed_decimal n.value
    else minus (is_negative n.value)
      ++ (decimal (abs n.value / factor) ++ b'.' ∷ padded n.scale (abs n.value % factor))
