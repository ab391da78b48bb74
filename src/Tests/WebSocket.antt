-- ===== src/Tests/WebSocket.antt =====
-- A session with an endpoint that pings once and then acknowledges two records.
use weighing_data_sync.Prelude.{ℕ, ◌≡◌, true, none, some, List, [], ◌∷◌, Text, codes}
use weighing_data_sync.Anyhow.{ok}
use weighing_data_sync.Json.{Value, null, string, object, field, end}
use weighing_data_sync.Client.WebSocket.{WebSocketClient}
use weighing_data_sync.Client.WebSocket.Ack.{WebSocketAck, AckEnvelope, parse_ack_payload}
use weighing_data_sync.Client.WebSocket.Session.{
  text, ping, pong, frame, timed_out, arrived, Formats, Network, opened, read_ack,
}
use weighing_data_sync.Client.WebSocket.Waiting.{
  skipped_none, skipped_ping, skipped_frame, ends_text, delivering, read_ack_lem,
}

abbrev envelope : AckEnvelope
envelope = record {
  accepted = none;
  ok_field = none;
  success = none;
  status = some (codes " ACK ");
  received = some 2;
  message = none;
  failed = some 0;
  failed_ids = [];
}

abbrev show : ℕ → Text
show n = n ∷ []

abbrev client : WebSocketClient
client = record {
  endpoint = codes "ws://cloud/ingest";
  api_key = some (codes "key");
  connect_timeout = 10_000;
  ack_timeout = 30_000;
  max_message_bytes = 64;
  write_buffer_bytes = 16;
}

-- The endpoint's JSON: a payload that reads `{"status": " ACK "}`, whatever its bytes are.
abbrev formats : Formats
formats = record {
  from_slice = λ payload. ok (object (field (codes "status") (string (codes " ACK ")) end));
  show = show;
  show_value = λ v. [];
}

abbrev acknowledged : WebSocketAck
acknowledged = record { accepted = true; received = none; message = none }

read_ack_lem_example :
    read_ack formats (
      delivering
        (arrived (ping (7 ∷ [])) ∷ arrived frame ∷ arrived (text (1 ∷ [])) ∷ timed_out ∷ [])
        [])
    ≡ (
      parse_ack_payload formats.from_slice formats.show formats.show_value (1 ∷ []),
      delivering (timed_out ∷ []) (pong (7 ∷ []) ∷ []),
    )
read_ack_lem_example =
    read_ack_lem formats (timed_out ∷ []) [] (skipped_ping (7 ∷ []) (skipped_frame skipped_none))
      (ends_text (1 ∷ []))

abbrev network : Network
network = record {
  to_vec = λ request. ok (1 ∷ 2 ∷ 3 ∷ []);
  into_client_request = λ endpoint. ok tt;
  header_value = λ t. ok t;
  connect = λ endpoint authorized config.
      opened (delivering (arrived (ping (7 ∷ [])) ∷ arrived (text (1 ∷ [])) ∷ []) []);
}

abbrev batch : List Value
batch = null ∷ null ∷ []
