-- ===== src/Client/WebSocket/Laws.antt =====
-- What an acknowledged batch, the wait for an acknowledgement and the limits guarantee.
use weighing_data_sync.Prelude.{
  ℕ, ◌+◌, ◌≤◌, ◌<◌, ◌≡◌, ◌↔◌, refl, ◌⊎◌, inl, inr, true, max, none, some, unwrap_or, Option-cases,
  List, [], ◌∷◌, map, Text, arith,
}
use weighing_data_sync.Anyhow.{ok, is_ok}
use weighing_data_sync.Text.{to_lower, eq_ignore_ascii_case}
use weighing_data_sync.Client.WebSocket.{
  WebSocketClient, WebSocketConfig, websocket_config, usize_max,
}
use weighing_data_sync.Client.WebSocket.Ack.{
  WebSocketAck, AckEnvelope, is_one_of, verdict, ack_from_envelope, validate_ack_record_count,
}

-- An envelope counts as an acknowledgement exactly when it reports no failure, neither by count nor
-- by id, and the first of `accepted`, `ok`, `success` that is given is true or, where none is
-- given, the status is one of the words for a success.
pub ack_from_envelope_iff :
    (show : ℕ → Text) (e : AckEnvelope)
    → (is_ok (ack_from_envelope show e) ≡ true)
      ↔ ((unwrap_or e.failed 0 ≡ 0) × (e.failed_ids ≡ []) × (verdict e ≡ some true))
unfolding ack_from_envelope
ack_from_envelope_iff show e = ground arith

is_one_of_case :
    (ws : List Text) (s t : Text)
    → map to_lower s ≡ map to_lower t
    → is_one_of ws s ≡ is_one_of ws t
unfolding is_one_of eq_ignore_ascii_case
is_one_of_case [] s t e = refl
is_one_of_case (w ∷ ws) s t e = rw (e, is_one_of_case ws s t e)

-- The limits exist exactly when the write buffer and one message together fit a `usize`, and then
-- the library may buffer more than the write buffer, enough for a largest message on top of it, and
-- no more than a `usize` counts.
pub websocket_config_lem :
    (client : WebSocketClient)
    → ((is_ok (websocket_config client) ≡ true)
        ↔ (client.write_buffer_bytes + max client.max_message_bytes 1 ≤ usize_max))
      × ((config : WebSocketConfig)
          → websocket_config client ≡ ok config
          → (config.write_buffer_size ≡ client.write_buffer_bytes)
            × (config.write_buffer_size < config.max_write_buffer_size)
            × (config.write_buffer_size + client.max_message_bytes ≤ config.max_write_buffer_size)
            × (config.max_write_buffer_size ≤ usize_max)
            × (config.max_message_size ≡ some client.max_message_bytes))
unfolding websocket_config
websocket_config_lem client = (ground arith, λ config h. ground arith)

pub validate_ack_record_count-received :
    (show : ℕ → Text) (a : WebSocketAck) (expected : ℕ)
    → validate_ack_record_count show a expected ≡ ok tt
    → (a.received ≡ none) ⊎ (a.received ≡ some expected)
unfolding validate_ack_record_count
validate_ack_record_count-received show a expected h = elim (Option-cases a.received) [
  | inl absent ↦ inl absent
  | inr (n, given) ↦ inr (ground arith)
]
