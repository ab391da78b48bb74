-- ===== src/Client/WebSocket/Log.antt =====
-- What a session leaves in the log: it only adds to it, and an acknowledged one began with the batch
-- and ended with the close frame.
use weighing_data_sync.Prelude.{
  ℕ, ◌≡◌, refl, sym, ◌∙◌, ap, none, some, List, [], ◌∷◌, ◌++◌, append-nil, append_assoc, Text,
  codes,
}
use weighing_data_sync.Anyhow.{Error, Result, ok, err}
use weighing_data_sync.Client.WebSocket.{WebSocketClient}
use weighing_data_sync.Client.WebSocket.Ack.{WebSocketAck}
use weighing_data_sync.Client.WebSocket.Session.{
  Message, text, binary, ping, pong, close, frame, Arrival, timed_out, closed, broken, arrived,
  Socket, Formats, Network, Opening, opening_late, refused, opened, Turn, answer, wait, turn,
  read_from, read_ack, send, after_pong, after_send, finish, exchange, pong_slow, pong_failed,
}

-- The log of the second socket continues that of the first one.
abbrev pub Continues : Socket → Socket → Type 0
Continues socket socket' = (added : List Message) × (socket'.log ≡ socket.log ++ added)

Continues-refl : (socket : Socket) → Continues socket socket
Continues-refl socket = ([], sym (append-nil socket.log))

Continues-trans : (a b c : Socket) → Continues a b → Continues b c → Continues a c
Continues-trans a b c (first, x) (second, y) =
    (first ++ second, y ∙ ap (λ l. l ++ second) x ∙ append_assoc a.log first second)

send-log :
    (slow failed : Text) (m : Message) (socket : Socket)
    → (send slow failed m socket).1.log ≡ socket.log ++ m ∷ []
unfolding send
send-log slow failed m socket = refl

after_pong-socket :
    (f : Formats) (out : Result Error (Unit {0}) × Socket) → (after_pong f out).1 ≡ out.1
after_pong-socket f (ok _, socket) = refl
after_pong-socket f (err e, socket) = refl

turn-Continues :
    (f : Formats) (a : Arrival) (socket : Socket) → Continues socket (turn f a socket).1
unfolding turn
turn-Continues f timed_out socket = Continues-refl socket
turn-Continues f closed socket = Continues-refl socket
turn-Continues f (broken e) socket = Continues-refl socket
turn-Continues f (arrived (text payload)) socket = Continues-refl socket
turn-Continues f (arrived (binary payload)) socket = Continues-refl socket
turn-Continues f (arrived (ping payload)) socket = (
  pong payload ∷ [],
  ap (λ s. s.log) (after_pong-socket f (send pong_slow pong_failed (pong payload) socket))
      ∙ send-log pong_slow pong_failed (pong payload) socket,
)
turn-Continues f (arrived (pong payload)) socket = Continues-refl socket
turn-Continues f (arrived (close reason)) socket = Continues-refl socket
turn-Continues f (arrived frame) socket = Continues-refl socket

-- The loop after one turn.
read_from-cons-Continues :
    (f : Formats) (a : Arrival) (script : List Arrival) (socket : Socket)
    → Continues (turn f a socket).1 (read_from f script (turn f a socket).1).1
    → (t : Turn) → (turn f a socket).0 ≡ t
    → Continues socket (read_from f (a ∷ script) socket).1
unfolding read_from
read_from-cons-Continues f a script socket later (answer r) same =
    rw (read_from, same) (turn-Continues f a socket)
read_from-cons-Continues f a script socket later wait same =
    rw (read_from, same)
      (Continues-trans socket (turn f a socket).1 (read_from f script (turn f a socket).1).1
        (turn-Continues f a socket) later)

read_from-Continues :
    (f : Formats) (script : List Arrival) (socket : Socket)
    → Continues socket (read_from f script socket).1
unfolding read_from
read_from-Continues f [] socket = Continues-refl socket
read_from-Continues f (a ∷ script) socket =
    read_from-cons-Continues f a script socket (read_from-Continues f script (turn f a socket).1)
      (turn f a socket).0 refl

-- The log of an acknowledged session on a socket.
abbrev pub Sent : Text → Socket → Socket → Type 0
Sent payload socket socket' =
    (answers : List Message) × (socket'.log
      ≡ socket.log ++ binary payload ∷ (answers ++ close none ∷ []))

module _ (f : Formats) (net : Network) (client : WebSocketClient) (expected : ℕ) where
  finish-log :
      (read : Result Error WebSocketAck × Socket)
      → (finish f net client expected read).1.log ≡ read.1.log ++ close none ∷ []
  unfolding finish
  finish-log (r, socket) = refl

  after_send-log :
      (payload : Text) (socket : Socket) (sent : Result Error (Unit {0}) × Socket)
      (a : WebSocketAck)
      → sent.1.log ≡ socket.log ++ binary payload ∷ []
      → (after_send f net client expected sent).0 ≡ ok a
      → Sent payload socket (after_send f net client expected sent).1
  unfolding after_send read_ack
  after_send-log payload socket (err e, s) a logged h = absurd cc
  after_send-log payload socket (ok _, s) a logged h =
      let (added, same) = read_from-Continues f s.arrivals s in
      (
        added,
        finish-log (read_ack f s)
            ∙ ap (λ l. l ++ close none ∷ []) (same ∙ ap (λ l. l ++ added) logged)
            ∙ log_assoc socket.log (binary payload) added,
      )
    where
      log_assoc :
          (log : List Message) (m : Message) (ms : List Message)
          → ((log ++ m ∷ []) ++ ms) ++ close none ∷ [] ≡ log ++ m ∷ (ms ++ close none ∷ [])
      log_assoc [] m ms = refl
      log_assoc (x ∷ log) m ms = ap (λ l. x ∷ l) (log_assoc log m ms)

  pub exchange-Sent :
      (payload : Text) (opening : Opening) (a : WebSocketAck)
      → (exchange f net client payload expected opening).0 ≡ ok a
      → (socket socket' : Socket) × (opening ≡ opened socket)
        × ((exchange f net client payload expected opening).1 ≡ some socket')
        × Sent payload socket socket'
  unfolding exchange
  exchange-Sent payload opening_late a h = absurd cc
  exchange-Sent payload (refused e) a h = absurd cc
  exchange-Sent payload (opened socket) a h =
      let out =
        send (codes "websocket send timed out") (codes "failed to send websocket batch")
          (binary payload) socket in
      (
        socket,
        (after_send f net client expected out).1,
        refl,
        refl,
        after_send-log payload socket out a
            (send-log (codes "websocket send timed out") (codes "failed to send websocket batch")
              (binary payload) socket)
            h,
      )
