-- ===== src/Text/Case.antt =====
-- Comparing without regard to the case of ASCII letters.
use weighing_data_sync.Prelude.{ℕ, ◌≡◌, ◌↔◌, true, arith, Text, map, text_eq_iff}
use weighing_data_sync.Text.{to_lower, eq_ignore_ascii_case}

pub to_lower_idem : (c : ℕ) → to_lower (to_lower c) ≡ to_lower c
unfolding to_lower
to_lower_idem c = ground arith

pub eq_ignore_ascii_case_iff :
    (s t : Text) → (eq_ignore_ascii_case s t ≡ true) ↔ (map to_lower s ≡ map to_lower t)
unfolding eq_ignore_ascii_case
eq_ignore_ascii_case_iff s t = text_eq_iff (map to_lower s) (map to_lower t)
