-- ===== src/Client/WebSocket/Batch.antt =====
-- What a batch that was acknowledged guarantees.
use weighing_data_sync.Prelude.{ℕ, ◌≤◌, ◌≡◌, ◌⊎◌, Option, none, some, List, length, Text, codes}
use weighing_data_sync.Anyhow.{ok}
use weighing_data_sync.Json.{Value}
use weighing_data_sync.Client.WebSocket.{WebSocketClient, WebSocketConfig, websocket_config}
use weighing_data_sync.Client.WebSocket.Ack.{WebSocketAck}
use weighing_data_sync.Client.WebSocket.Session.{
  Socket, Formats, Network, opened, build_request, push_batch_with_ack,
}
use weighing_data_sync.Client.WebSocket.Log.{Sent}
use weighing_data_sync.Client.WebSocket.Heard.{Heard}

-- What an acknowledgement `a` of `records` promises: the batch was serialised within the limit, a
-- connection with the client's limits was opened, the payload was sent on it first and a close frame
-- last, the first message that arrived on it, control frames aside, is one that accepts the batch and
-- reads as `a`, and it names no other number of records.
pub record Acknowledged (f : Formats) (net : Network) (client : WebSocketClient) (now : ℕ)
    (records : List Value) (a : WebSocketAck) : Type 0 where
  pub payload : Text
  pub authorized : Option Text
  pub config : WebSocketConfig
  pub socket : Socket
  pub serialised :
      net.to_vec
        (record { source = codes "weighing-data-sync"; uploaded_at = now; records = records })
      ≡ ok payload
  pub small : length payload ≤ client.max_message_bytes
  pub header : build_request f net client ≡ ok authorized
  pub limits : websocket_config client ≡ ok config
  pub connected : net.connect client.endpoint authorized config ≡ opened socket
  pub socket_after : Socket
  pub kept : (push_batch_with_ack f net client now records).1 ≡ some socket_after
  pub sent : Sent payload socket socket_after
  pub heard : Heard f a socket.arrivals
  pub counted : (a.received ≡ none) ⊎ (a.received ≡ some (length records))
