-- ===== src/Text/Digits.antt =====
-- What the printed digits spell, how many they are, and that they are digits.
use weighing_data_sync.Prelude.{
  ℕ, zero, suc, ◌+◌, ◌-◌, ◌*◌, ◌/◌, ◌%◌, ◌^◌, ◌≤◌, ◌<◌, ◌≡◌, ◌≢◌, refl, inl, inr, Bool, true, false,
  ◌&&◌, ltb, Bool-cases, [], ◌∷◌, ◌++◌, all, length, length-append, Text, arith,
}
use weighing_data_sync.Text.Decimal.{digits_on, decimal, is_digit, value_from}

pub value_from-append : (n : ℕ) (s t : Text) → value_from n (s ++ t) ≡ value_from (value_from n s) t
value_from-append n [] t = refl
value_from-append n (c ∷ s) t = value_from-append (n * 10 + (c - 48)) s t

value-digits_on : (fuel n : ℕ) → n < fuel → value_from 0 (digits_on fuel n) ≡ n
unfolding digits_on
value-digits_on zero n h = absurd (omega arith)
value-digits_on (suc fuel) n h = elim (Bool-cases (ltb n 10)) [
  | inl small ↦ rw small (omega arith)
  | inr big ↦
      rw (big, value_from-append 0 (digits_on fuel (n / 10)) ((48 + n % 10) ∷ []))
        (rw (value-digits_on fuel (n / 10) (ground arith)) (omega arith))
]

pub value-decimal : (n : ℕ) → value_from 0 (decimal n) ≡ n
unfolding decimal
value-decimal n = value-digits_on (suc n) n (omega arith)

pub all-append : (p : ℕ → Bool) (s t : Text) → all p (s ++ t) ≡ (all p s && all p t)
all-append p [] t = refl
all-append p (c ∷ s) t = rw (all-append p s t) (and_assoc (p c) (all p s) (all p t))
  where
    and_assoc : (a b c : Bool) → (a && (b && c)) ≡ ((a && b) && c)
    and_assoc true b c = refl
    and_assoc false b c = refl

all-digits_on : (fuel n : ℕ) → all is_digit (digits_on fuel n) ≡ true
unfolding digits_on
all-digits_on zero n = refl
all-digits_on (suc fuel) n = elim (Bool-cases (ltb n 10)) [
  | inl small ↦ rw small (ground arith)
  | inr big ↦
      rw (big, all-append is_digit (digits_on fuel (n / 10)) ((48 + n % 10) ∷ []))
        (rw (all-digits_on fuel (n / 10)) (ground arith))
]

pub all-decimal : (n : ℕ) → all is_digit (decimal n) ≡ true
unfolding decimal
all-decimal n = all-digits_on (suc n) n

snoc-ne-nil : (s : Text) (c : ℕ) → s ++ c ∷ [] ≢ []
snoc-ne-nil [] c h = absurd (cc)
snoc-ne-nil (x ∷ s) c h = absurd (cc)

pub decimal-ne-nil : (n : ℕ) → decimal n ≢ []
unfolding decimal digits_on
decimal-ne-nil n h = elim (Bool-cases (ltb n 10)) [
  | inl small ↦ ground arith
  | inr big ↦ snoc-ne-nil (digits_on n (n / 10)) (48 + n % 10) (ground arith)
]

length-digits_on : (width fuel n : ℕ) → n < 10 ^ suc width → length (digits_on fuel n) ≤ suc width
unfolding digits_on
length-digits_on width zero n h = omega arith
length-digits_on zero (suc fuel) n h = ground arith
length-digits_on (suc width) (suc fuel) n h = elim (Bool-cases (ltb n 10)) [
  | inl small ↦ rw small (omega arith)
  | inr big ↦
      rw (big, length-append (digits_on fuel (n / 10)) ((48 + n % 10) ∷ []))
        (omega (arith, length-digits_on width fuel (n / 10) omega arith))
]

pub length-decimal : (width n : ℕ) → n < 10 ^ suc width → length (decimal n) ≤ suc width
unfolding decimal
length-decimal width n h = length-digits_on width (suc n) n h
