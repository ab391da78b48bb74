-- ===== src/Windows.antt =====
-- windows/mod.rs. Each function has two versions, of which the build takes one.
pub mod Autostart
pub mod Service
use weighing_data_sync.Prelude.{Text}
use weighing_data_sync.Anyhow.{Error, Result, with_context}

-- A build for Windows with the feature `windows`, or any other.
pub data Build : Type 0 where
  windows other_build : Build

-- What a call returns, its error under a context.
abbrev pub in_context {ℓ} :
    {A : Type ℓ} {W : Type 0} → Text → Result Error A × W → Result Error A × W
in_context t (r, w) = (with_context t r, w)
