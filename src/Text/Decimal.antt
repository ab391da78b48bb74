-- ===== src/Text/Decimal.antt =====
-- `Display` of the integers: decimal digits, padded with zeros where a width is asked for.
use weighing_data_sync.Prelude.{
  ℕ, zero, suc, ◌+◌, ◌-◌, ◌*◌, ◌/◌, ◌%◌, ◌≡◌, refl, Bool, true, false, ◌&&◌, ltb, leb,
  if◌then◌else◌, [], ◌∷◌, ◌++◌, length, Text,
}
use weighing_data_sync.Prelude.Int.{ℤ, abs, is_negative}

-- The digits on fuel: a number has no more digits than its value and one.
unfoldable pub digits_on : (fuel n : ℕ) → Text
digits_on zero n = []
digits_on (suc fuel) n =
    let rest = digits_on fuel (n / 10) in
    if ltb n 10 then (48 + n) ∷ [] else rest ++ (48 + n % 10) ∷ []

unfoldable pub decimal : ℕ → Text
unfolding digits_on
decimal n = digits_on (suc n) n

abbrev pub minus : Bool → Text
minus true = b'-' ∷ []
minus false = []

-- `to_string` of a signed integer.
unfoldable pub signed_decimal : ℤ → Text
unfolding decimal
signed_decimal z = minus (is_negative z) ++ decimal (abs z)

abbrev pub zeros : ℕ → Text
zeros zero = []
zeros (suc n) = b'0' ∷ zeros n

-- `{:0width$}`.
unfoldable pub padded : (width n : ℕ) → Text
unfolding decimal
padded width n = zeros (width - length (decimal n)) ++ decimal n

abbrev pub is_digit : ℕ → Bool
is_digit c = leb 48 c && leb c 57

-- The number that digits spell behind `n`.
abbrev pub value_from : ℕ → Text → ℕ
value_from n [] = n
value_from n (c ∷ s) = value_from (n * 10 + (c - 48)) s

decimal_test : decimal 1205 ≡ b'1' ∷ b'2' ∷ b'0' ∷ b'5' ∷ []
unfolding decimal
decimal_test = refl
