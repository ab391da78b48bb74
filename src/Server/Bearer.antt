-- ===== src/Server/Bearer.antt =====
-- The header that reqwest's `bearer_auth` sets, before the guard of the receiving route.
use mathlib.Core.List.{reverse, reverse-append, reverse-reverse}
use weighing_data_sync.Prelude.{
  ◌≢◌, refl, sym, ◌∙◌, ap, Option, none, some, [], ◌∷◌, ◌++◌, Text, codes,
}
use weighing_data_sync.Text.{is_whitespace}
use weighing_data_sync.Text.Trim.{StartsPlain, IsTrimmed, trim_of_IsTrimmed}
use weighing_data_sync.Server.{Headers}
use weighing_data_sync.Server.Receives.{Authorized, no_key, has_token, upper}

-- `bearer_auth`: the header of a request with a key.
abbrev pub bearer_auth : Option Text → Headers
bearer_auth none = none
bearer_auth (some key) = some (some (codes "Bearer " ++ key))

-- A key that has no white space at an end and is not empty.
abbrev pub IsKey : Option Text → Type 0
IsKey none = Unit
IsKey (some key) = IsTrimmed key × (key ≢ [])

header-StartsPlain : (key : Text) → IsTrimmed key → key ≢ [] → IsTrimmed (codes "Bearer " ++ key)
unfolding is_whitespace
header-StartsPlain key trimmed something = (
  refl,
  rw (reverse-append (codes "Bearer ") key)
      (before (reverse key) trimmed.1 (λ h. something (sym (reverse-reverse key) ∙ ap reverse h))),
)
  where
    before : (s : Text) → StartsPlain s → s ≢ [] → StartsPlain (s ++ reverse (codes "Bearer "))
    before [] plain some_ = absurd (some_ refl)
    before (c ∷ s) plain some_ = plain

-- The header that the engine sends shows its key.
pub bearer_auth-Authorized : (key : Option Text) → IsKey key → Authorized key (bearer_auth key)
bearer_auth-Authorized none h = no_key none
bearer_auth-Authorized (some key) (trimmed, something) =
    has_token key upper
      (trim_of_IsTrimmed (codes "Bearer " ++ key) (header-StartsPlain key trimmed something))
      (trim_of_IsTrimmed key trimmed)
