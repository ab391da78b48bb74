-- ===== src/Client/WebSocket/Ack.antt =====
-- How an acknowledgement is read.
use weighing_data_sync.Prelude.{
  ℕ, Bool, true, false, ◌||◌, ltb, not, ◌==◌, Option, none, some, if◌then◌else◌, or_else, unwrap_or,
  List, [], ◌∷◌, ◌++◌, is_empty, length, Text, codes,
}
use weighing_data_sync.Anyhow.{Error, msg, Result, ok, err, with_context, ensure, ◌>>=◌}
use weighing_data_sync.Text.{trim, eq_ignore_ascii_case}
use weighing_data_sync.Json.{Value, bool, string, object, Fields, lookup}
use weighing_data_sync.Json.Read.{read_bool, read_text, read_usize, read_list}

pub record WebSocketAck : Type 0 where
  pub accepted : Bool
  pub received : Option ℕ
  pub message : Option Text

pub record AckEnvelope : Type 0 where
  pub accepted : Option Bool
  pub ok_field : Option Bool
  pub success : Option Bool
  pub status : Option Text
  pub received : Option ℕ
  pub message : Option Text
  pub failed : Option ℕ
  pub failed_ids : List Value

-- The derived `Deserialize` of the envelope, on an object.
unfoldable pub read_envelope : Fields → Result Error AckEnvelope
read_envelope fs = do
  accepted ← read_bool (lookup (codes "accepted") fs)
  ok_field ← read_bool (lookup (codes "ok") fs)
  success ← read_bool (lookup (codes "success") fs)
  status ← read_text (lookup (codes "status") fs)
  received ← read_usize (lookup (codes "received") fs)
  message ← read_text (lookup (codes "message") fs)
  failed ← read_usize (lookup (codes "failed") fs)
  failed_ids ← read_list (lookup (codes "failed_ids") fs)
  ok (record {
    accepted = accepted;
    ok_field = ok_field;
    success = success;
    status = status;
    received = received;
    message = message;
    failed = failed;
    failed_ids = failed_ids;
  })

-- The words for a success and for a failure.
abbrev pub success_words : List Text
success_words =
    codes "ok" ∷ codes "ack" ∷ codes "accepted" ∷ codes "success" ∷ codes "succeeded" ∷ []

abbrev pub failure_words : List Text
failure_words = codes "error" ∷ codes "failed" ∷ codes "rejected" ∷ []

-- `status.eq_ignore_ascii_case(…) || …`.
unfoldable pub is_one_of : List Text → Text → Bool
is_one_of [] status = false
is_one_of (w ∷ ws) status = eq_ignore_ascii_case status w || is_one_of ws status

unfoldable pub word_is_success : Text → Option Bool
word_is_success status =
    if is_one_of success_words status
    then some true
    else if is_one_of failure_words status
    then some false
    else none

unfoldable pub status_is_success : Option Text → Option Bool
unfolding word_is_success
status_is_success none = none
status_is_success (some status) = word_is_success (trim status)

unfoldable pub ack_from_status : Text → Option ℕ → Option Text → Result Error WebSocketAck
ack_from_status status received message = elim (status_is_success (some status)) [
  | some true ↦ ok (record { accepted = true; received = received; message = message })
  | some false ↦ err (msg (codes "websocket endpoint rejected batch with status " ++ status))
  | none ↦ err (msg (codes "unsupported websocket ack status " ++ status))
]

-- `accepted`, else `ok`, else `success`, else what the status says.
unfoldable pub verdict : AckEnvelope → Option Bool
verdict e = or_else e.accepted (or_else e.ok_field (or_else e.success (status_is_success e.status)))

-- The number of failures that the error message names.
unfoldable pub failures_named : AckEnvelope → ℕ
failures_named e = unwrap_or e.failed (length e.failed_ids)

-- `show` prints a number.
unfoldable pub ack_from_envelope : (ℕ → Text) → AckEnvelope → Result Error WebSocketAck
unfolding failures_named
ack_from_envelope show e =
    if ltb 0 (unwrap_or e.failed 0) || not (is_empty e.failed_ids)
    then err (
        msg (codes "websocket endpoint rejected " ++ (show (failures_named e) ++ codes " records")))
    else elim (verdict e) [
      | some true ↦ ok (record { accepted = true; received = e.received; message = e.message })
      | some false ↦ err (msg (unwrap_or e.message (codes "websocket endpoint rejected batch")))
      | none ↦
          err (msg (codes "websocket ack must contain accepted/ok/success or a success status"))
    ]

-- What a decoded acknowledgement means; `show_value` prints a JSON value.
unfoldable pub ack_from_value : (ℕ → Text) → (Value → Text) → Value → Result Error WebSocketAck
ack_from_value show show_value (bool true) =
    ok (record { accepted = true; received = none; message = none })
ack_from_value show show_value (bool false) = err (msg (codes "websocket endpoint rejected batch"))
ack_from_value show show_value (string status) = ack_from_status status none none
ack_from_value show show_value (object fs) = do
  envelope ← with_context (codes "failed to parse websocket ack") (read_envelope fs)
  ack_from_envelope show envelope
ack_from_value show show_value other =
    err (msg (codes "unsupported websocket ack payload: " ++ show_value other))

-- `from_slice` is the JSON parser.
unfoldable pub parse_ack_payload :
    (Text → Result Error Value) → (ℕ → Text) → (Value → Text) → Text → Result Error WebSocketAck
unfolding ack_from_value
parse_ack_payload from_slice show show_value payload = do
  value ← with_context (codes "failed to decode websocket ack") (from_slice payload)
  ack_from_value show show_value value

unfoldable pub validate_ack_record_count : (ℕ → Text) → WebSocketAck → ℕ → Result Error (Unit {0})
validate_ack_record_count show ack expected = elim ack.received [
  | none ↦ ok tt
  | some received ↦ ensure (received == expected) (
      codes "websocket ack received count "
      ++ (show received ++ (codes " does not match sent count " ++ show expected)))
]
