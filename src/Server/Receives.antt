-- ===== src/Server/Receives.antt =====
-- What the receiving route promises: who may send, what is answered and what is stored.
use weighing_data_sync.Prelude.{
  ◌≡◌, refl, ◌↔◌, inl, inr, true, Option, none, some, Option-cases, ◌++◌, Text, codes, text_eq_iff,
}
use weighing_data_sync.Text.{trim, strip_prefix}
use weighing_data_sync.Text.Prefix.{append_of_strip_prefix}
use weighing_data_sync.Server.{Headers, bearer_token, extract_bearer_token, is_authorized}

-- The two spellings of the scheme.
pub data Scheme : Text → Type 0 where
  upper : Scheme (codes "Bearer ")
  lower : Scheme (codes "bearer ")

-- Who may send: everyone where no key is set, else whoever shows the key as a bearer token.
pub data Authorized : Option Text → Headers → Type 0 where
  no_key : (headers : Headers) → Authorized none headers
  has_token :
      {scheme value key : Text} (token : Text)
      → Scheme scheme
      → trim value ≡ scheme ++ token
      → trim token ≡ key
      → Authorized (some key) (some (some value))

bearer_token-append :
    {scheme : Text} → Scheme scheme → (token : Text) → bearer_token (scheme ++ token) ≡ some token
unfolding strip_prefix
bearer_token-append upper token = refl
bearer_token-append lower token = refl

bearer_token-Scheme :
    (value token : Text)
    → bearer_token value ≡ some token
    → (scheme : Text) × Scheme scheme × (value ≡ scheme ++ token)
bearer_token-Scheme value token h = elim (Option-cases (strip_prefix (codes "Bearer ") value)) [
  | inl none_upper ↦
      (codes "bearer ", lower, append_of_strip_prefix (codes "bearer ") value token cc)
  | inr (t, some_upper) ↦
      (codes "Bearer ", upper, append_of_strip_prefix (codes "Bearer ") value token cc)
]

is_authorized-Authorized :
    (key : Option Text) (headers : Headers)
    → is_authorized key headers ≡ true
    → Authorized key headers
unfolding is_authorized extract_bearer_token
is_authorized-Authorized none headers h = no_key headers
is_authorized-Authorized (some key) none h = absurd cc
is_authorized-Authorized (some key) (some none) h = absurd cc
is_authorized-Authorized (some key) (some (some value)) h =
    elim (Option-cases (bearer_token (trim value))) [
      | inl missing ↦ absurd cc
      | inr (token, found) ↦
          let (scheme, spelled, split) = bearer_token-Scheme (trim value) token found in
          has_token token spelled split ((text_eq_iff (trim token) key).0 cc)
    ]

Authorized-is_authorized :
    (key : Option Text) (headers : Headers)
    → Authorized key headers
    → is_authorized key headers ≡ true
unfolding is_authorized extract_bearer_token
Authorized-is_authorized key headers (no_key _) = refl
Authorized-is_authorized key headers (has_token {key = k} token spelled split same) =
    rw (is_authorized, split, bearer_token-append spelled token)
      ((text_eq_iff (trim token) k).1 same)

-- A request is let in exactly when no key is set or the `Authorization` header, trimmed, is one of
-- the two spellings of the scheme followed by a token that trims to the key.
pub is_authorized_iff :
    (key : Option Text) (headers : Headers)
    → (is_authorized key headers ≡ true) ↔ Authorized key headers
is_authorized_iff key headers =
    (is_authorized-Authorized key headers, Authorized-is_authorized key headers)
