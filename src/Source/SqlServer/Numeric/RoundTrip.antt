-- ===== src/Source/SqlServer/Numeric/RoundTrip.antt =====
-- A printed `NUMERIC` is read back with its sign, its digits and its scale.
use weighing_data_sync.Prelude.{
  ℕ, zero, suc, ◌+◌, ◌-◌, ◌*◌, ◌/◌, ◌%◌, ◌^◌, ◌≤◌, ◌<◌, ◌≡◌, ◌≢◌, refl, ◌∙◌, ap, Bool, true, false,
  ◌==◌, none, some, [], ◌∷◌, ◌++◌, append-nil, all, length, length-append, Text, arith,
}
use native.Mathlib.Nat.{mod-lt, mod-eq_of_lt, one-le-pow, pow-succ', pow-le-pow_right, div-add-mod'}
use weighing_data_sync.Prelude.Int.{ℤ, pos, negsuc, abs, is_negative, signed}
use weighing_data_sync.Text.{strip_prefix, split_once}
use weighing_data_sync.Text.Decimal.{
  decimal, minus, zeros, padded, signed_decimal, is_digit, value_from,
}
use weighing_data_sync.Text.Digits.{
  value_from-append, value-decimal, all-append, all-decimal, decimal-ne-nil, length-decimal,
}
use weighing_data_sync.Source.SqlServer.Numeric.{Numeric, pow_10, format_numeric}
use weighing_data_sync.Source.SqlServer.Numeric.Reading.{is_number, read_magnitude, read_numeric}

strip_prefix-number :
    (s t : Text) → s ≢ [] → all is_digit s ≡ true → strip_prefix (b'-' ∷ []) (s ++ t) ≡ none
unfolding strip_prefix
strip_prefix-number [] t filled digits = absurd (filled refl)
strip_prefix-number (c ∷ s) t filled digits = ground arith

split_once-digits : (s : Text) → all is_digit s ≡ true → split_once b'.' s ≡ none
unfolding split_once
split_once-digits [] digits = refl
split_once-digits (c ∷ s) digits = ground (arith, split_once-digits s)

split_once-point :
    (s t : Text) → all is_digit s ≡ true → split_once b'.' (s ++ b'.' ∷ t) ≡ some (s, t)
unfolding split_once
split_once-point [] t digits = refl
split_once-point (c ∷ s) t digits = ground (arith, split_once-point s t)

value_from_zero : (n : ℕ) (s : Text) → value_from n s ≡ n * 10 ^ length s + value_from 0 s
value_from_zero n [] = omega arith
value_from_zero n (c ∷ s) =
    value_from_zero (n * 10 + (c - 48)) s
    ∙ carry n (c - 48) (10 ^ length s) (value_from 0 s)
    ∙ rw (pow-succ' 10 (length s), value_from_zero (0 + (c - 48)) s)
  where
    carry : (n d p v : ℕ) → (n * 10 + d) * p + v ≡ n * (10 * p) + ((0 + d) * p + v)
    carry n d p v = grind arith

value-zeros : (k : ℕ) (s : Text) → value_from 0 (zeros k ++ s) ≡ value_from 0 s
value-zeros zero s = refl
value-zeros (suc k) s = value-zeros k s

length-zeros : (k : ℕ) → length (zeros k) ≡ k
length-zeros zero = refl
length-zeros (suc k) = ap suc (length-zeros k)

all-zeros : (k : ℕ) → all is_digit (zeros k) ≡ true
all-zeros zero = refl
all-zeros (suc k) = all-zeros k

value-padded : (width n : ℕ) → value_from 0 (padded width n) ≡ n
unfolding padded
value-padded width n = value-zeros (width - length (decimal n)) (decimal n) ∙ value-decimal n

all-padded : (width n : ℕ) → all is_digit (padded width n) ≡ true
unfolding padded
all-padded width n = rw (
  all-append is_digit (zeros (width - length (decimal n))) (decimal n),
  all-zeros (width - length (decimal n)),
  all-decimal n,
)

length-padded : (width n : ℕ) → n < 10 ^ suc width → length (padded (suc width) n) ≡ suc width
unfolding padded
length-padded width n h = omega (
  arith,
  length-append (zeros (suc width - length (decimal n))) (decimal n),
  length-zeros (suc width - length (decimal n)),
  length-decimal width n h,
)

-- The power of ten is exact below the scale that the driver allows.
pow_10_exact : (scale : ℕ) → scale < 38 → pow_10 scale ≡ 10 ^ scale
pow_10_exact scale h =
    let below : 10 ^ scale ≤ 10 ^ 37 =
      pow-le-pow_right (omega arith) {i = scale} {j = 37} (omega arith) in
    mod-eq_of_lt (omega arith)

value-joined :
    (scale m : ℕ)
    → value_from 0 (decimal (m / 10 ^ suc scale) ++ padded (suc scale) (m % 10 ^ suc scale)) ≡ m
value-joined scale m =
    value_from-append 0 (decimal (m / 10 ^ suc scale)) (padded (suc scale) (m % 10 ^ suc scale))
    ∙ value_from_zero (value_from 0 (decimal (m / 10 ^ suc scale)))
        (padded (suc scale) (m % 10 ^ suc scale))
    ∙ rw
        (
          value-decimal (m / 10 ^ suc scale),
          value-padded (suc scale) (m % 10 ^ suc scale),
          length-padded scale (m % 10 ^ suc scale)
              (mod-lt m {m = 10 ^ suc scale} (one-le-pow (suc scale) 10 (omega arith))),
        )
        (div-add-mod' m (10 ^ suc scale))

signed-abs : (z : ℤ) → signed (is_negative z) (abs z) ≡ z
signed-abs (pos n) = refl
signed-abs (negsuc n) = refl

is_number-digits : (s : Text) → s ≢ [] → all is_digit s ≡ true → is_number s ≡ true
is_number-digits [] filled digits = absurd (filled refl)
is_number-digits (c ∷ s) filled digits = digits

is_number-decimal : (n : ℕ) → is_number (decimal n) ≡ true
is_number-decimal n =
    ground (arith, is_number-digits (decimal n) (decimal-ne-nil n) (all-decimal n))

is_number-padded : (width n : ℕ) → n < 10 ^ suc width → is_number (padded (suc width) n) ≡ true
is_number-padded width n h =
    is_number-digits (padded (suc width) n)
      (λ e. absurd (omega (arith, length-padded width n h, ap length e))) (all-padded (suc width) n)

-- The sign is read first, whatever follows it is a number's start.
read_numeric-minus :
    (negative : Bool) (n : ℕ) (t : Text)
    → read_numeric (minus negative ++ (decimal n ++ t)) ≡ read_magnitude negative (decimal n ++ t)
unfolding strip_prefix
read_numeric-minus true n t = refl
read_numeric-minus false n t =
    rw (read_numeric, strip_prefix-number (decimal n) t (decimal-ne-nil n) (all-decimal n))

read_magnitude-whole :
    (negative : Bool) (n : ℕ)
    → read_magnitude negative (decimal n ++ [])
      ≡ some (record { value = signed negative n; scale = 0 })
read_magnitude-whole negative n =
    ap (λ s. read_magnitude negative s) (append-nil (decimal n))
    ∙ rw (
      read_magnitude,
      split_once-digits (decimal n) (all-decimal n),
      is_number-decimal n,
      value-decimal n,
    )

read_magnitude-fraction :
    (negative : Bool) (m scale : ℕ)
    → read_magnitude negative
        (decimal (m / 10 ^ suc scale) ++ b'.' ∷ padded (suc scale) (m % 10 ^ suc scale))
      ≡ some (record { value = signed negative m; scale = suc scale })
read_magnitude-fraction negative m scale =
    let whole = m / 10 ^ suc scale in
    let rest = m % 10 ^ suc scale in
    let small : rest < 10 ^ suc scale =
      mod-lt m {m = 10 ^ suc scale} (one-le-pow (suc scale) 10 (omega arith)) in
    rw (
      read_magnitude,
      split_once-point (decimal whole) (padded (suc scale) rest) (all-decimal whole),
      is_number-decimal whole,
      is_number-padded scale rest small,
      value-joined scale m,
      length-padded scale rest small,
    )

format_numeric-whole :
    (z : ℤ)
    → format_numeric (record { value = z; scale = 0 })
      ≡ minus (is_negative z) ++ (decimal (abs z) ++ [])
unfolding format_numeric signed_decimal
format_numeric-whole z = rw append-nil

format_numeric-fraction :
    (z : ℤ) (scale : ℕ)
    → suc scale < 38
    → format_numeric (record { value = z; scale = suc scale })
      ≡ minus (is_negative z)
        ++ (decimal (abs z / 10 ^ suc scale) ++ b'.' ∷ padded (suc scale) (abs z % 10 ^ suc scale))
unfolding format_numeric
format_numeric-fraction z scale h =
    let nonzero : (suc scale == 0) ≡ false = ground arith in
    rw (format_numeric, nonzero, pow_10_exact (suc scale) h)

-- A `NUMERIC` of a scale below 38 is read back from its print, with its sign, its value and its
-- scale: no digit is lost, and trailing zeros stay.
pub read-format_numeric : (n : Numeric) → n.scale < 38 → read_numeric (format_numeric n) ≡ some n
read-format_numeric n h = by_scale n.value n.scale h
  where
    by_scale :
        (z : ℤ) (scale : ℕ)
        → scale < 38
        → read_numeric (format_numeric (record { value = z; scale = scale }))
          ≡ some (record { value = z; scale = scale })
    by_scale z zero h =
        ap (λ t. read_numeric t) (format_numeric-whole z)
        ∙ read_numeric-minus (is_negative z) (abs z) []
        ∙ read_magnitude-whole (is_negative z) (abs z)
        ∙ ap (λ v. some (record { value = v; scale = 0 })) (signed-abs z)
    by_scale z (suc scale) h =
        ap (λ t. read_numeric t) (format_numeric-fraction z scale h)
        ∙ read_numeric-minus (is_negative z) (abs z / 10 ^ suc scale)
            (b'.' ∷ padded (suc scale) (abs z % 10 ^ suc scale))
        ∙ read_magnitude-fraction (is_negative z) (abs z) scale
        ∙ ap (λ v. some (record { value = v; scale = suc scale })) (signed-abs z)
