-- ===== src/Ending.antt =====
-- What a call that may block comes to, such as the wait for a signal or a server.
use weighing_data_sync.Prelude.{Text}
use weighing_data_sync.Anyhow.{Error, Result, with_context}

-- It is still under way, or has returned.
pub data Ending : Type 0 where
  under_way : Ending
  returned : Result Error (Unit {0}) → Ending

-- `.context(…)` of what such a call returns.
abbrev pub ending_context : Text → Ending → Ending
ending_context t under_way = under_way
ending_context t (returned r) = returned (with_context t r)
