-- ===== src/Sync/Cloud.antt =====
-- What both engines take from outside: time, the HTTP client and the codecs. `S` is everything
-- outside the database; `utc k s` is the reading of `Utc::now()` that the program makes k-th after
-- it has reached the state `s`. `Body` is the built request, gzipped or not by the build's feature.
use weighing_data_sync.Prelude.{ℕ, Option, Text}
use weighing_data_sync.Anyhow.{Error, Result}
use weighing_data_sync.Sync.Retry.{Timer}

-- A response: its status, and its body as far as it could be read.
pub record HttpResponse : Type 0 where
  pub status : ℕ
  pub body : Result Error Text

pub record Cloud (Body S : Type 0) : Type 0 where
  pub timer : Timer S
  pub utc : ℕ → S → ℕ
  -- `request.send()`: to an endpoint, with an optional bearer token.
  pub send : Text → Option Text → Body → S → Result Error HttpResponse × S
  -- `Display` of a status.
  pub status_text : ℕ → Text
