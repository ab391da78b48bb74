-- ===== src/Client/WebSocket/Heard.antt =====
-- What an acknowledgement that was read from a socket was read from.
use weighing_data_sync.Prelude.{◌≡◌, refl, ◌≢◌, ◌⊎◌, inl, inr, List, [], ◌∷◌, Text}
use weighing_data_sync.Anyhow.{Error, Result, ok, err, chain_ok, with_context-eq-ok}
use weighing_data_sync.Json.{Value}
use weighing_data_sync.Client.WebSocket.Ack.{WebSocketAck, ack_from_value, parse_ack_payload}
use weighing_data_sync.Client.WebSocket.Session.{
  text, binary, ping, pong, close, frame, Arrival, timed_out, closed, broken, arrived, Socket,
  Formats, Turn, answer, wait, turn, read_from, after_pong, pong_slow, pong_failed, send,
}
use weighing_data_sync.Client.WebSocket.Accepting.{Accepting, ack_from_value-Accepting}

-- The first arrival that is no ping, no pong and no raw frame is a text or a binary message that
-- accepts the batch.
pub data Heard (f : Formats) (a : WebSocketAck) : List Arrival → Type 0 where
  by_text :
      {payload : Text} {v : Value} {rest : List Arrival}
      → f.from_slice payload ≡ ok v
      → Accepting v a
      → Heard f a (arrived (text payload) ∷ rest)
  by_binary :
      {payload : Text} {v : Value} {rest : List Arrival}
      → f.from_slice payload ≡ ok v
      → Accepting v a
      → Heard f a (arrived (binary payload) ∷ rest)
  after_ping :
      {payload : Text} {rest : List Arrival}
      → Heard f a rest
      → Heard f a (arrived (ping payload) ∷ rest)
  after_a_pong :
      {payload : Text} {rest : List Arrival}
      → Heard f a rest
      → Heard f a (arrived (pong payload) ∷ rest)
  after_frame : {rest : List Arrival} → Heard f a rest → Heard f a (arrived frame ∷ rest)

Turn-cases : (t : Turn) → ((r : Result Error WebSocketAck) × (t ≡ answer r)) ⊎ (t ≡ wait)
Turn-cases (answer r) = inl (r, refl)
Turn-cases wait = inr refl

module _ (f : Formats) (a : WebSocketAck) where
  parse_ack_payload-Accepting :
      (payload : Text)
      → parse_ack_payload f.from_slice f.show f.show_value payload ≡ ok a
      → (v : Value) × (f.from_slice payload ≡ ok v) × Accepting v a
  unfolding parse_ack_payload
  parse_ack_payload-Accepting payload h =
      let (v, decoded, read) = chain_ok _ (ack_from_value f.show f.show_value) a h in
      (v, with_context-eq-ok _ _ decoded, ack_from_value-Accepting f v a read)

  after_pong_answer :
      (sent : Result Error (Unit {0}) × Socket) → (after_pong f sent).0 ≢ answer (ok a)
  after_pong_answer (ok _, socket) h = cc
  after_pong_answer (err e, socket) h = cc

  ping_answer :
      (payload : Text) (socket : Socket) (r : Result Error WebSocketAck)
      → (turn f (arrived (ping payload)) socket).0 ≡ answer r
      → r ≢ ok a
  unfolding turn
  ping_answer payload socket r answered h =
      after_pong_answer (send pong_slow pong_failed (pong payload) socket) cc

  pub read_from-Heard :
      (script : List Arrival) (socket : Socket)
      → (read_from f script socket).0 ≡ ok a
      → Heard f a script
  unfolding read_from turn
  read_from-Heard [] socket h = cc
  read_from-Heard (timed_out ∷ script) socket h = cc
  read_from-Heard (closed ∷ script) socket h = cc
  read_from-Heard (broken e ∷ script) socket h = cc
  read_from-Heard (arrived (text payload) ∷ script) socket h =
      let (v, decoded, accepts) = parse_ack_payload-Accepting payload h in by_text decoded accepts
  read_from-Heard (arrived (binary payload) ∷ script) socket h =
      let (v, decoded, accepts) = parse_ack_payload-Accepting payload h in by_binary decoded accepts
  read_from-Heard (arrived (ping payload) ∷ script) socket h =
      elim (Turn-cases (turn f (arrived (ping payload)) socket).0) [
        | inl (r, answered) ↦ absurd (ping_answer payload socket r answered cc)
        | inr waiting ↦
            after_ping (read_from-Heard script (turn f (arrived (ping payload)) socket).1 cc)
      ]
  read_from-Heard (arrived (pong payload) ∷ script) socket h =
      after_a_pong (read_from-Heard script socket h)
  read_from-Heard (arrived (close reason) ∷ script) socket h = cc
  read_from-Heard (arrived frame ∷ script) socket h = after_frame (read_from-Heard script socket h)
