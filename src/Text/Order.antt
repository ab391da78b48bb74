-- ===== src/Text/Order.antt =====
-- The order of texts by their code points.
use weighing_data_sync.Prelude.{Bool, true, false, ◌&&◌, ◌||◌, ltb, ◌==◌, [], ◌∷◌, Text}

-- Lexicographic order.
unfoldable pub text_le : Text → Text → Bool
text_le [] t = true
text_le (x ∷ s) [] = false
text_le (x ∷ s) (y ∷ t) = ltb x y || (x == y && text_le s t)
