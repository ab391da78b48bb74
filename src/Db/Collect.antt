-- ===== src/Db/Collect.antt =====
-- `iter().map(f).collect::<Result<Vec<_>>>()`: every result, or the first error.
use weighing_data_sync.Prelude.{List, [], ◌∷◌}
use weighing_data_sync.Anyhow.{Result, ok, ◌>>=◌}

unfoldable pub collect {ℓ κ μ} :
    {E : Type ℓ} {A : Type κ} {B : Type μ} → (A → Result E B) → List A → Result E (List B)
collect f [] = ok []
collect f (x ∷ xs) = do y ← f x; ys ← collect f xs; ok (y ∷ ys)
