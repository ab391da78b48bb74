-- ===== src/Text/Prefix.antt =====
-- `strip_prefix` against the append of lists.
use weighing_data_sync.Prelude.{
  ◌≡◌, refl, inl, inr, ◌==◌, ==_iff, ==_refl, Bool-cases, some, [], ◌∷◌, ◌++◌, Text,
}
use weighing_data_sync.Text.{strip_prefix}

pub strip_prefix-append : (p s : Text) → strip_prefix p (p ++ s) ≡ some s
unfolding strip_prefix
strip_prefix-append [] s = refl
strip_prefix-append (c ∷ p) s = rw (==_refl c, strip_prefix-append p s)

pub append_of_strip_prefix : (p s r : Text) → strip_prefix p s ≡ some r → s ≡ p ++ r
unfolding strip_prefix
append_of_strip_prefix [] s r h = cc
append_of_strip_prefix (c ∷ p) [] r h = cc
append_of_strip_prefix (c ∷ p) (d ∷ s) r h = elim (Bool-cases (c == d)) [
  | inl same ↦ rw ((==_iff c d).0 same, append_of_strip_prefix p s r cc)
  | inr other ↦ cc
]
