-- ===== src/Client/WebSocket/Waiting.antt =====
-- The wait for an acknowledgement: pings are answered, other control frames are skipped, and the
-- first arrival of another kind ends the wait.
use weighing_data_sync.Prelude.{
  ◌≡◌, refl, ◌∙◌, none, some, List, [], ◌∷◌, ◌++◌, append-nil, append_assoc, Text, codes,
}
use weighing_data_sync.Anyhow.{Error, msg, context, Result, err}
use weighing_data_sync.Client.WebSocket.Ack.{WebSocketAck, parse_ack_payload}
use weighing_data_sync.Client.WebSocket.Session.{
  Message, text, binary, ping, pong, close, frame, Arrival, timed_out, closed, broken, arrived,
  Socket, Formats, turn, read_from, read_ack, send, close_reason,
}

-- Control frames that do not end the wait, with the answers that they get.
pub data Skipped : List Arrival → List Message → Type 0 where
  skipped_none : Skipped [] []
  skipped_ping :
      (payload : Text) {script : List Arrival} {ms : List Message}
      → Skipped script ms
      → Skipped (arrived (ping payload) ∷ script) (pong payload ∷ ms)
  skipped_pong :
      (payload : Text) {script : List Arrival} {ms : List Message}
      → Skipped script ms
      → Skipped (arrived (pong payload) ∷ script) ms
  skipped_frame :
      {script : List Arrival} {ms : List Message}
      → Skipped script ms
      → Skipped (arrived frame ∷ script) ms

-- What an arrival that ends the wait comes to.
pub data Ends (f : Formats) : Arrival → Result Error WebSocketAck → Type 0 where
  ends_slow : Ends f timed_out (err (msg (codes "websocket ack timed out")))
  ends_gone : Ends f closed (err (msg (codes "websocket closed before ack")))
  ends_broken :
      (e : Error) → Ends f (broken e) (err (context (codes "failed to read websocket ack") e))
  ends_text :
      (payload : Text)
      → Ends f (arrived (text payload)) (parse_ack_payload f.from_slice f.show f.show_value payload)
  ends_binary :
      (payload : Text)
      → Ends f
          (arrived (binary payload))
          (parse_ack_payload f.from_slice f.show f.show_value payload)
  ends_no_reason :
      Ends f (arrived (close none)) (err (msg (codes "remote closed websocket before ack")))
  ends_reason :
      (reason : Text)
      → Ends f (arrived (close (some reason))) (err (msg (close_reason (some reason))))

-- A socket on which everything that is sent is delivered.
abbrev pub delivering : List Arrival → List Message → Socket
delivering script log = record { arrivals = script; deliveries = []; log = log }

read_from-Ends :
    (f : Formats) {a : Arrival} (all rest : List Arrival) (log : List Message)
    {r : Result Error WebSocketAck}
    → Ends f a r
    → read_from f (a ∷ rest) (delivering all log) ≡ (r, delivering rest log)
unfolding read_from turn
read_from-Ends f all rest log ends_slow = refl
read_from-Ends f all rest log ends_gone = refl
read_from-Ends f all rest log (ends_broken e) = refl
read_from-Ends f all rest log (ends_text payload) = refl
read_from-Ends f all rest log (ends_binary payload) = refl
read_from-Ends f all rest log ends_no_reason = refl
read_from-Ends f all rest log (ends_reason reason) = refl

read_from-Skipped :
    (f : Formats) {script : List Arrival} (all rest : List Arrival) {answers : List Message}
    → Skipped script answers
    → (log : List Message)
    → read_from f (script ++ rest) (delivering all log)
      ≡ read_from f rest (delivering all (log ++ answers))
unfolding read_from turn send
read_from-Skipped f all rest skipped_none log = rw append-nil
read_from-Skipped f all rest (skipped_ping payload {script} {ms} s) log =
    read_from-Skipped f all rest s (log ++ pong payload ∷ []) ∙ rw append_assoc
read_from-Skipped f all rest (skipped_pong payload s) log = read_from-Skipped f all rest s log
read_from-Skipped f all rest (skipped_frame s) log = read_from-Skipped f all rest s log

-- While everything sent is delivered, every ping that comes before the first arrival that ends the
-- wait is answered by a pong with its payload, in order; other control frames are skipped; nothing
-- else is sent; the arrival that ends the wait decides the result, and what follows it is left.
pub read_ack_lem :
    (f : Formats) {script : List Arrival} {answers : List Message} {a : Arrival}
    {r : Result Error WebSocketAck} (rest : List Arrival) (log : List Message)
    → Skipped script answers
    → Ends f a r
    → read_ack f (delivering (script ++ a ∷ rest) log) ≡ (r, delivering rest (log ++ answers))
unfolding read_ack
read_ack_lem f {script} {answers} {a} rest log skipped ends =
    read_from-Skipped f (script ++ a ∷ rest) (a ∷ rest) skipped log
    ∙ read_from-Ends f (script ++ a ∷ rest) rest (log ++ answers) ends
