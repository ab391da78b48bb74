-- ===== src/Server.antt =====
-- server.rs: the HTTP server that receives weighing data.
pub mod Receives
pub mod Answers
pub mod Start
pub mod Bearer
use weighing_data_sync.Prelude.{
  ℕ, Bool, true, false, ◌||◌, Option, none, some, or_else, unwrap_or, if◌then◌else◌, List, [], ◌∷◌,
  is_empty, length, Text, codes, text_eq,
}
use weighing_data_sync.Anyhow.{Error, Result, ok, err}
use weighing_data_sync.Text.{trim, strip_prefix}
use weighing_data_sync.Json.{Value, get, as_str, as_array}
use weighing_data_sync.Config.{ServerConfig}
use weighing_data_sync.Db.{Db, insert_inbound_payload}
use weighing_data_sync.Db.Models.Codec.{Codec}

pub record AppState : Type 0 where
  pub api_key : Option Text
  pub db : Option Db

-- The state that `run_http_server` gives to its routes.
unfoldable pub new_state : ServerConfig → Option Db → AppState
new_state cfg db = record { api_key = cfg.api_key; db = db }

pub record PutResponse : Type 0 where
  pub request_id : ℕ
  pub accepted : Bool
  pub accepted_serial_nos : List Text
  pub failed_serial_nos : List Text
  pub records_count : ℕ
  pub received_at : Text

-- A response is its status and its body.
pub data Body : Type 0 where
  refusal : (request_id : ℕ) → (error : Text) → Body
  put : PutResponse → Body

pub record Response : Type 0 where
  pub status : ℕ
  pub body : Body

-- The `Authorization` header of a request, if there is one, and its text, if it has one.
abbrev pub Headers : Type 0
Headers = Option (Option Text)

-- Both schemes that are known.
abbrev pub bearer_token : Text → Option Text
bearer_token value =
    or_else (strip_prefix (codes "Bearer ") value) (strip_prefix (codes "bearer ") value)

unfoldable pub extract_bearer_token : Headers → Option Text
unfolding trim
extract_bearer_token none = none
extract_bearer_token (some none) = none
extract_bearer_token (some (some value)) = bearer_token (trim value)

-- The guard of `put_weighing_data`.
unfoldable pub is_authorized : Option Text → Headers → Bool
unfolding extract_bearer_token text_eq
is_authorized none headers = true
is_authorized (some expected) headers = elim (extract_bearer_token headers) [
  | none ↦ false
  | some token ↦ text_eq (trim token) expected
]

-- `filter_map` over the records.
abbrev pub filter_map : {A B : Type 0} → (A → Option B) → List A → List B
filter_map f [] = []
filter_map f (x ∷ xs) = let rest = filter_map f xs in elim (f x) [ none ↦ rest | some y ↦ y ∷ rest ]

abbrev pub and_then : {A B : Type 0} → Option A → (A → Option B) → Option B
and_then none f = none
and_then (some a) f = f a

unfoldable pub serial_no : Value → Option Text
unfolding get
serial_no record_ =
    and_then (or_else (get record_ (codes "serialNo")) (get record_ (codes "serial_no"))) as_str

unfoldable pub records_of : Value → List Value
unfolding get
records_of payload = unwrap_or (and_then (get payload (codes "records")) as_array) []

-- A text of the payload, "unknown" if it is not given.
unfoldable pub text_of : Value → Text → Text
unfolding get
text_of payload key = unwrap_or (and_then (get payload key) as_str) (codes "unknown")

-- `now` is the clock at the insertion and at the response; `to_json` is `serde_json::to_string`.
module _ (c : Codec) (to_json : Value → Result Error Text) where
  -- The insertion; its result is only logged.
  unfoldable pub persist : (now request_id : ℕ) → Value → Db → Db
  unfolding insert_inbound_payload
  persist now request_id payload db =
      (insert_inbound_payload c (to_json payload) now request_id (text_of payload (codes "source"))
        (text_of payload (codes "database")) (text_of payload (codes "table"))
        (length (records_of payload)) db).1

  abbrev pub persisted : (now request_id : ℕ) → Value → Option Db → Option Db
  persisted now request_id payload none = none
  persisted now request_id payload (some db) = some (persist now request_id payload db)

  unfoldable pub put_weighing_data :
      (inserted_at received_at request_id : ℕ) → AppState → Headers → Value → Response × AppState
  unfolding persist
  put_weighing_data inserted_at received_at request_id state headers payload =
      if is_authorized state.api_key headers
      then if is_empty (records_of payload)
        then (
          record { status = 400; body = refusal request_id (codes "records is missing or empty") },
          state,
        )
        else (
          record {
            status = 200;
            body = put (record {
              request_id = request_id;
              accepted = true;
              accepted_serial_nos = filter_map serial_no (records_of payload);
              failed_serial_nos = [];
              records_count = length (records_of payload);
              received_at = c.to_rfc3339 received_at;
            });
          },
          record state { db = persisted inserted_at request_id payload state.db },
        )
      else (
        record {
          status = 401;
          body = refusal request_id (codes "invalid or missing bearer token");
        },
        state,
      )
