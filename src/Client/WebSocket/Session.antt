-- ===== src/Client/WebSocket/Session.antt =====
-- A session with the endpoint: connect, send, wait for the acknowledgement. A socket is the script
-- of what the far side and the network do, and a log of what the client sent. A timeout that elapses
-- leaves its context only.
use weighing_data_sync.Prelude.{
  ℕ, leb, Option, none, some, option_filter, unwrap_or, not, is_empty, List, [], ◌∷◌, ◌++◌, Text,
  codes, length,
}
use weighing_data_sync.Anyhow.{
  Error, msg, context, Result, ok, err, with_context, ensure, ◌>>=◌, ◌>>◌,
}
use weighing_data_sync.Json.{Value}
use weighing_data_sync.Client.WebSocket.{
  WebSocketClient, WebSocketConfig, websocket_config, authorization,
}
use weighing_data_sync.Client.WebSocket.Ack.{
  WebSocketAck, parse_ack_payload, validate_ack_record_count,
}

pub data Message : Type 0 where
  text binary ping pong : Text → Message
  close : Option Text → Message
  frame : Message

-- What a wait for the next message comes to: `socket.next()` under a timeout.
pub data Arrival : Type 0 where
  timed_out closed : Arrival
  broken : Error → Arrival
  arrived : Message → Arrival

-- What a `send` comes to.
pub data Delivery : Type 0 where
  delivered late : Delivery
  undelivered : Error → Delivery

pub record Socket : Type 0 where
  pub arrivals : List Arrival
  pub deliveries : List Delivery
  pub log : List Message

-- The next delivery of the script; beyond its end everything is delivered.
abbrev pub next_delivery : List Delivery → Delivery
next_delivery [] = delivered
next_delivery (d ∷ ds) = d

abbrev pub later_deliveries : List Delivery → List Delivery
later_deliveries [] = []
later_deliveries (d ∷ ds) = ds

-- `timeout(ack_timeout, socket.send(message))` with its two contexts.
abbrev pub delivery_result : Text → Text → Delivery → Result Error (Unit {0})
delivery_result slow failed delivered = ok tt
delivery_result slow failed late = err (msg slow)
delivery_result slow failed (undelivered e) = err (context failed e)

unfoldable pub send : Text → Text → Message → Socket → Result Error (Unit {0}) × Socket
send slow failed message socket = (
  delivery_result slow failed (next_delivery socket.deliveries),
  record socket {
    deliveries = later_deliveries socket.deliveries;
    log = socket.log ++ message ∷ [];
  },
)

-- The reason of a close frame.
abbrev pub close_reason : Option Text → Text
close_reason reason =
    unwrap_or (option_filter (λ t. not (is_empty t)) reason)
      (codes "remote closed websocket before ack")

-- What the program takes from `serde_json` and from formatting.
pub record Formats : Type 0 where
  pub from_slice : Text → Result Error Value
  pub show : ℕ → Text
  pub show_value : Value → Text

abbrev pub pong_slow : Text
pong_slow = codes "websocket pong timed out"

abbrev pub pong_failed : Text
pong_failed = codes "failed to send websocket pong"

-- One turn of the loop of `read_ack`: an answer, or another wait.
pub data Turn : Type 0 where
  answer : Result Error WebSocketAck → Turn
  wait : Turn

module _ (f : Formats) where
  -- What follows the sending of a pong.
  abbrev pub after_pong : Result Error (Unit {0}) × Socket → Turn × Socket
  after_pong (ok _, socket) = (wait, socket)
  after_pong (err e, socket) = (answer (err e), socket)

  unfoldable pub turn : Arrival → Socket → Turn × Socket
  unfolding send parse_ack_payload
  turn timed_out socket = (answer (err (msg (codes "websocket ack timed out"))), socket)
  turn closed socket = (answer (err (msg (codes "websocket closed before ack"))), socket)
  turn (broken e) socket = (answer (err (context (codes "failed to read websocket ack") e)), socket)
  turn (arrived (text payload)) socket =
      (answer (parse_ack_payload f.from_slice f.show f.show_value payload), socket)
  turn (arrived (binary payload)) socket =
      (answer (parse_ack_payload f.from_slice f.show f.show_value payload), socket)
  turn (arrived (ping payload)) socket =
      after_pong (send pong_slow pong_failed (pong payload) socket)
  turn (arrived (pong payload)) socket = (wait, socket)
  turn (arrived (close reason)) socket = (answer (err (msg (close_reason reason))), socket)
  turn (arrived frame) socket = (wait, socket)

  -- The loop over what arrives; a stream that has ended is closed.
  unfoldable pub read_from : List Arrival → Socket → Result Error WebSocketAck × Socket
  read_from [] socket =
      (err (msg (codes "websocket closed before ack")), record socket { arrivals = [] })
  read_from (a ∷ arrivals) socket =
      let (t, socket') = turn a socket in
      elim t [
        | answer r ↦ (r, record socket' { arrivals = arrivals })
        | wait ↦ read_from arrivals socket'
      ]

  unfoldable pub read_ack : Socket → Result Error WebSocketAck × Socket
  unfolding read_from
  read_ack socket = read_from socket.arrivals socket

-- How `connect_async_with_config` under its timeout comes out.
pub data Opening : Type 0 where
  opening_late : Opening
  refused : Error → Opening
  opened : Socket → Opening

-- What is sent: the source, the time and the records.
pub record WebSocketUploadRequest : Type 0 where
  pub source : Text
  pub uploaded_at : ℕ
  pub records : List Value

-- The libraries around a connection: serialising a batch, the request for an endpoint, a header's
-- value, and the connection with the two headers' values and the limits.
pub record Network : Type 0 where
  pub to_vec : WebSocketUploadRequest → Result Error Text
  pub into_client_request : Text → Result Error (Unit {0})
  pub header_value : Text → Result Error Text
  pub connect : Text → Option Text → WebSocketConfig → Opening

module _ (f : Formats) (net : Network) (client : WebSocketClient) where
  -- `build_request`: the value of the `Authorization` header, if there is one.
  unfoldable pub build_request : Result Error (Option Text)
  unfolding authorization
  build_request = do
    with_context (codes "invalid websocket endpoint " ++ client.endpoint)
        (net.into_client_request client.endpoint)
    elim (authorization client) [
      | none ↦ ok none
      | some bearer ↦ do value ← net.header_value bearer; ok (some value)
    ]

  -- The end of a session: the close frame is sent and its result ignored.
  unfoldable pub finish :
      ℕ → Result Error WebSocketAck × Socket → Result Error WebSocketAck × Socket
  unfolding validate_ack_record_count
  finish expected (ack, socket) = (
    do a ← ack; validate_ack_record_count f.show a expected; ok a,
    record socket { log = socket.log ++ close none ∷ [] },
  )

  -- What follows the sending of the batch.
  unfoldable pub after_send :
      ℕ → Result Error (Unit {0}) × Socket → Result Error WebSocketAck × Socket
  unfolding finish read_ack
  after_send expected (err e, socket) = (err e, socket)
  after_send expected (ok _, socket) = finish expected (read_ack f socket)

  -- What follows the attempt to connect; the socket comes back if there is one.
  unfoldable pub exchange : Text → ℕ → Opening → Result Error WebSocketAck × Option Socket
  unfolding after_send send
  exchange payload expected opening_late = (err (msg (codes "websocket connect timed out")), none)
  exchange payload expected (refused e) =
      (err (context (codes "failed to connect websocket endpoint") e), none)
  exchange payload expected (opened socket) =
      let (r, socket') = after_send expected (
        send (codes "websocket send timed out") (codes "failed to send websocket batch")
          (binary payload) socket) in
      (r, some socket')

  -- `websocket batch payload is … bytes, exceeding configured max … bytes`.
  abbrev pub too_large : ℕ → Text
  too_large size =
      codes "websocket batch payload is "
      ++ (f.show size
          ++ (codes " bytes, exceeding configured max "
              ++ (f.show client.max_message_bytes ++ codes " bytes")))

  -- What is checked once the batch is serialised: its size, the header and the limits.
  unfoldable pub prepare_payload : Text → Result Error (Text × Option Text × WebSocketConfig)
  unfolding build_request
  prepare_payload payload = do
    ensure (leb (length payload) client.max_message_bytes) (too_large (length payload))
    authorized ← build_request
    config ← websocket_config client
    ok (payload, authorized, config)

  -- The checks before the connection. `now` is `Utc::now()`.
  unfoldable pub prepare :
      (now : ℕ) → List Value → Result Error (Text × Option Text × WebSocketConfig)
  unfolding prepare_payload
  prepare now records = do
    payload ← with_context (codes "failed to serialize websocket batch") (
        net.to_vec
          (record { source = codes "weighing-data-sync"; uploaded_at = now; records = records }))
    prepare_payload payload

  unfoldable pub push_batch_with_ack :
      (now : ℕ) → List Value → Result Error WebSocketAck × Option Socket
  unfolding prepare exchange
  push_batch_with_ack now records = elim (prepare now records) [
    | err e ↦ (err e, none)
    | ok (payload, authorized, config) ↦
        exchange payload (length records) (net.connect client.endpoint authorized config)
  ]

  unfoldable pub push_batch : (now : ℕ) → List Value → Result Error (Unit {0})
  unfolding push_batch_with_ack
  push_batch now records = elim (push_batch_with_ack now records).0 [ ok _ ↦ ok tt | err e ↦ err e ]
