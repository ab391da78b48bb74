-- ===== src/Server/Answers.antt =====
-- What the receiving route answers and what it stores.
use weighing_data_sync.Prelude.{
  ℕ, ◌≡◌, ◌≢◌, refl, inl, inr, Bool, true, false, Bool-cases, Option, none, some, Option-cases,
  List, [], ◌∷◌, ◌++◌, is_empty-cases, any, length, Text, codes, text_eq,
}
use weighing_data_sync.Anyhow.{Error, Result, ok, err, Result-cases}
use weighing_data_sync.Json.{Value}
use weighing_data_sync.Db.{Db, InboundPayload, insert_inbound_payload, insert_payload, statement}
use weighing_data_sync.Db.Models.Codec.{Codec}
use weighing_data_sync.Db.Store.{HasFault, SameData, statement_cases}
use weighing_data_sync.Server.{
  AppState, refusal, put, Response, Headers, is_authorized, filter_map, serial_no, records_of,
  text_of, persist, persisted, put_weighing_data,
}
use weighing_data_sync.Server.Receives.{Authorized, is_authorized_iff}

-- The serial numbers of those records that have one, in order.
pub data SerialNos : List Value → List Text → Type 0 where
  no_records : SerialNos [] []
  numbered :
      {value : Value} {values : List Value} {serial : Text} {serials : List Text}
      → serial_no value ≡ some serial
      → SerialNos values serials
      → SerialNos (value ∷ values) (serial ∷ serials)
  unnumbered :
      {value : Value} {values : List Value} {serials : List Text}
      → serial_no value ≡ none
      → SerialNos values serials
      → SerialNos (value ∷ values) serials

refute : {b : Bool} → b ≡ true → b ≡ false → ⊥
refute t f = absurd cc

filter_map-SerialNos : (values : List Value) → SerialNos values (filter_map serial_no values)
filter_map-SerialNos [] = no_records
filter_map-SerialNos (v ∷ vs) = elim (Option-cases (serial_no v)) [
  | inl missing ↦ rw (filter_map, missing) (unnumbered missing (filter_map-SerialNos vs))
  | inr (s, given) ↦ rw (filter_map, given) (numbered given (filter_map-SerialNos vs))
]

module _ (c : Codec) (to_json : Value → Result Error Text) (inserted_at received_at request_id : ℕ)
    (payload : Value) where
  -- The row that is written for a batch.
  abbrev pub inbound_row : Text → InboundPayload
  inbound_row payload_json = record {
    request_id = c.uuid_to_string request_id;
    source = text_of payload (codes "source");
    source_db = text_of payload (codes "database");
    source_table = text_of payload (codes "table");
    records_count = length (records_of payload);
    payload_json = payload_json;
    received_at = c.to_rfc3339 inserted_at;
  }

  -- Why a batch may not be stored.
  pub data Lost (db : Db) : Type 0 where
    unprintable : (e : Error) → to_json payload ≡ err e → Lost db
    faulty : HasFault db → Lost db
    repeated :
        any (λ r. text_eq r.request_id (c.uuid_to_string request_id)) db.inbound ≡ true → Lost db

  -- What becomes of the database: a batch is added to its table, or is lost for a reason.
  pub data Stored : Option Db → Option Db → Type 0 where
    no_database : Stored none none
    added :
        (db db' : Db) (payload_json : Text)
        → to_json payload ≡ ok payload_json
        → db'.rows ≡ db.rows
        → db'.inbound ≡ db.inbound ++ inbound_row payload_json ∷ []
        → Stored (some db) (some db')
    lost :
        (db db' : Db)
        → Lost db
        → db'.rows ≡ db.rows
        → db'.inbound ≡ db.inbound
        → Stored (some db) (some db')

  -- The insertion itself, where no fault comes before it.
  insert_payload-Stored :
      (db now : Db) (payload_json : Text)
      → to_json payload ≡ ok payload_json
      → SameData db now
      → Stored (some db) (some (insert_payload c (inbound_row payload_json) now).1)
  unfolding insert_payload
  insert_payload-Stored db now payload_json printed (rows, inbound, _) =
      elim (Bool-cases
        (any (λ r. text_eq r.request_id (c.uuid_to_string request_id)) now.inbound)) [
          | inl taken ↦ rw taken (lost db now (repeated (rw (← inbound) taken)) rows inbound)
          | inr fresh ↦ rw fresh (added db _ payload_json printed rows (rw inbound))
        ]

  statement-Stored :
      (ctx : Text) (db : Db) (payload_json : Text)
      → to_json payload ≡ ok payload_json
      → Stored (some db) (some (statement ctx (insert_payload c (inbound_row payload_json)) db).1)
  statement-Stored ctx db payload_json printed =
      elim (statement_cases ctx (insert_payload c (inbound_row payload_json)) db) [
        | inl (db', e, runs, (rows, inbound, _), fault) ↦
            rw runs (lost db db' (faulty fault) rows inbound)
        | inr (now, runs, same) ↦ rw runs (insert_payload-Stored db now payload_json printed same)
      ]

  persist-Stored :
      (db : Db) → Stored (some db) (some (persist c to_json inserted_at request_id payload db))
  unfolding persist insert_inbound_payload
  persist-Stored db = elim (Result-cases (to_json payload)) [
    | inr (e, unprinted) ↦
        rw (persist, insert_inbound_payload, unprinted)
          (lost db db (unprintable e unprinted) refl refl)
    | inl (t, printed) ↦
        rw (persist, insert_inbound_payload, printed) (statement-Stored _ db t printed)
  ]

  persisted-Stored :
      (db : Option Db) → Stored db (persisted c to_json inserted_at request_id payload db)
  persisted-Stored none = no_database
  persisted-Stored (some db) = persist-Stored db

  -- What a request gets, and what the server is afterwards.
  pub data Answers (state : AppState) (headers : Headers) : Response × AppState → Type 0 where
    unauthorized :
        (Authorized state.api_key headers → ⊥)
        → Answers state headers (
          record {
            status = 401;
            body = refusal request_id (codes "invalid or missing bearer token");
          },
          state,
        )
    bad_request :
        Authorized state.api_key headers
        → records_of payload ≡ []
        → Answers state headers (
          record { status = 400; body = refusal request_id (codes "records is missing or empty") },
          state,
        )
    accepted :
        {serials : List Text} {db' : Option Db}
        → Authorized state.api_key headers
        → records_of payload ≢ []
        → SerialNos (records_of payload) serials
        → Stored state.db db'
        → Answers state headers (
          record {
            status = 200;
            body = put (record {
              request_id = request_id;
              accepted = true;
              accepted_serial_nos = serials;
              failed_serial_nos = [];
              records_count = length (records_of payload);
              received_at = c.to_rfc3339 received_at;
            });
          },
          record state { db = db' },
        )

  -- Every request is answered on one of three branches, each taken under its condition: 401 where
  -- the sender is not authorized, 400 where `records` is missing or empty, and else 200 with the
  -- serial numbers of the records, in order, and their number. Only the last stores the batch: its
  -- row is added to the table, or the table is as before, and then the payload cannot be printed, a
  -- statement fails or the request id is taken.
  pub put_weighing_data-Answers :
      (state : AppState) (headers : Headers)
      → Answers state headers
          (put_weighing_data c to_json inserted_at received_at request_id state headers payload)
  unfolding put_weighing_data
  put_weighing_data-Answers state headers =
      elim (Bool-cases (is_authorized state.api_key headers)) [
        | inl lets ↦ elim (is_empty-cases (records_of payload)) [
          | inl (nothing, empty) ↦
              rw (put_weighing_data, lets, empty)
                (bad_request ((is_authorized_iff state.api_key headers).0 lets) nothing)
          | inr (something, filled) ↦
              rw (put_weighing_data, lets, filled)
                (accepted ((is_authorized_iff state.api_key headers).0 lets) something
                  (filter_map-SerialNos (records_of payload)) (persisted-Stored state.db))
        ]
        | inr refuses ↦
            rw (put_weighing_data, refuses)
              (unauthorized (λ k. refute ((is_authorized_iff state.api_key headers).1 k) refuses))
      ]

  -- The answer does not depend on the database: a batch that cannot be stored is accepted all the
  -- same.
  pub put_weighing_data-best_effort :
      (api_key : Option Text) (headers : Headers) (db db' : Option Db)
      → (put_weighing_data c to_json inserted_at received_at request_id
          (record { api_key = api_key; db = db })
          headers
          payload).0
        ≡ (put_weighing_data c to_json inserted_at received_at request_id
            (record { api_key = api_key; db = db' })
            headers
            payload).0
  unfolding put_weighing_data
  put_weighing_data-best_effort api_key headers db db' =
      elim (Bool-cases (is_authorized api_key headers)) [
        | inl lets ↦ elim (is_empty-cases (records_of payload)) [
          | inl (_, empty) ↦ rw (put_weighing_data, lets, empty)
          | inr (_, filled) ↦ rw (put_weighing_data, lets, filled)
        ]
        | inr refuses ↦ rw (put_weighing_data, refuses)
      ]
