-- ===== src/Text/Trim.antt =====
-- What `trim` leaves alone.
use mathlib.Core.List.{reverse, reverse-reverse}
use weighing_data_sync.Prelude.{◌≡◌, refl, false, arith, [], ◌∷◌, Text}
use weighing_data_sync.Text.{is_whitespace, trim_start, trim}

-- A text that does not begin with white space.
abbrev pub StartsPlain : Text → Type 0
StartsPlain [] = Unit
StartsPlain (c ∷ s) = is_whitespace c ≡ false

-- A text with no white space at either end.
abbrev pub IsTrimmed : Text → Type 0
IsTrimmed s = StartsPlain s × StartsPlain (reverse s)

trim_start_of_plain : (s : Text) → StartsPlain s → trim_start s ≡ s
unfolding trim_start
trim_start_of_plain [] h = refl
trim_start_of_plain (c ∷ s) h = rw h

pub trim_of_IsTrimmed : (s : Text) → IsTrimmed s → trim s ≡ s
unfolding trim
trim_of_IsTrimmed s h =
    rw (trim_start_of_plain s h.0) (rw (trim_start_of_plain (reverse s) h.1) (reverse-reverse s))

trim_start-plain : (s : Text) → StartsPlain (trim_start s)
unfolding trim_start
trim_start-plain [] = tt
trim_start-plain (c ∷ s) = ground (arith, trim_start-plain s)
