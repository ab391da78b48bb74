-- ===== src/Client/WebSocket.antt =====
-- client/websocket.rs: one batch, one acknowledgement. A duration is its milliseconds.
pub mod Ack
pub mod Session
pub mod Laws
pub mod Waiting
pub mod Log
pub mod Accepting
pub mod Heard
pub mod Batch
use weighing_data_sync.Prelude.{
  ℕ, ◌+◌, ◌*◌, ◌-◌, ◌^◌, max, Option, none, some, leb, if◌then◌else◌, min, Text, codes, ◌++◌,
}
use weighing_data_sync.Anyhow.{Error, msg, Result, ok, err, ok_or, ◌>>=◌}

pub record WebSocketClient : Type 0 where
  pub endpoint : Text
  pub api_key : Option Text
  pub connect_timeout : ℕ
  pub ack_timeout : ℕ
  pub max_message_bytes : ℕ
  pub write_buffer_bytes : ℕ

abbrev pub default_connect_timeout : ℕ
default_connect_timeout = 10_000

abbrev pub default_ack_timeout : ℕ
default_ack_timeout = 30_000

abbrev pub default_max_message_bytes : ℕ
default_max_message_bytes = 16 * 1024 * 1024

abbrev pub default_write_buffer_bytes : ℕ
default_write_buffer_bytes = 128 * 1024

unfoldable pub new : Text → WebSocketClient
new endpoint = record {
  endpoint = endpoint;
  api_key = none;
  connect_timeout = default_connect_timeout;
  ack_timeout = default_ack_timeout;
  max_message_bytes = default_max_message_bytes;
  write_buffer_bytes = default_write_buffer_bytes;
}

unfoldable pub with_api_key : Text → WebSocketClient → WebSocketClient
with_api_key api_key client = record client { api_key = some api_key }

unfoldable pub with_timeouts : ℕ → ℕ → WebSocketClient → WebSocketClient
with_timeouts connect_timeout ack_timeout client = record client {
  connect_timeout = connect_timeout;
  ack_timeout = ack_timeout;
}

unfoldable pub with_max_message_bytes : ℕ → WebSocketClient → WebSocketClient
with_max_message_bytes n client = record client { max_message_bytes = n }

unfoldable pub with_write_buffer_bytes : ℕ → WebSocketClient → WebSocketClient
with_write_buffer_bytes n client = record client { write_buffer_bytes = n }

-- The limits handed to the WebSocket library.
pub record WebSocketConfig : Type 0 where
  pub write_buffer_size : ℕ
  pub max_write_buffer_size : ℕ
  pub max_message_size : Option ℕ
  pub max_frame_size : Option ℕ

-- `usize::MAX` on a 64-bit target, and the two additions on it.
abbrev pub usize_max : ℕ
usize_max = 2 ^ 64 - 1

abbrev pub checked_add : ℕ → ℕ → Option ℕ
checked_add a b = if leb (a + b) usize_max then some (a + b) else none

abbrev pub saturating_add : ℕ → ℕ → ℕ
saturating_add a b = min (a + b) usize_max

unfoldable pub websocket_config : WebSocketClient → Result Error WebSocketConfig
websocket_config client = do
  total ←
      ok_or (codes "websocket write buffer and max message size are too large")
        (checked_add client.write_buffer_bytes (max client.max_message_bytes 1))
  let max_write_buffer_size = max total (saturating_add client.write_buffer_bytes 1)
  ok (record {
    write_buffer_size = client.write_buffer_bytes;
    max_write_buffer_size = max_write_buffer_size;
    max_message_size = some client.max_message_bytes;
    max_frame_size = some client.max_message_bytes;
  })

-- `Bearer {api_key}`, if there is a key.
unfoldable pub authorization : WebSocketClient → Option Text
authorization client = elim client.api_key [
  | none ↦ none
  | some api_key ↦ some (codes "Bearer " ++ api_key)
]
