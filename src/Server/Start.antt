-- ===== src/Server/Start.antt =====
-- server.rs: `run_http_server`, which sets the routes and serves them.
use weighing_data_sync.Prelude.{ℕ, ◌≡◌, refl, inl, inr, Option, List, [], ◌∷◌, ◌++◌, Text, codes}
use weighing_data_sync.Anyhow.{Error, context, Result, ok, err, with_context, ◌>>=◌, Result-cases}
use weighing_data_sync.Ending.{Ending, returned, ending_context}
use weighing_data_sync.Json.{Value, string, object, field, end}
use weighing_data_sync.Config.{ServerConfig}
use weighing_data_sync.Db.{Db}
use weighing_data_sync.Db.Models.Codec.{Codec}
use weighing_data_sync.Server.{AppState, new_state}

pub data Method : Type 0 where
  get post : Method

-- The handlers that the routes name.
pub data Handler : Type 0 where
  health_handler put_weighing_data_handler : Handler

pub record Route : Type 0 where
  pub path : Text
  pub method : Method
  pub handler : Handler

-- The application that is served: its routes, the limit on a body and its state.
pub record App : Type 0 where
  pub routes : List Route
  pub max_body_bytes : ℕ
  pub state : AppState

-- What the server takes from tokio and axum. An address is what it is printed as, a listener is a
-- number of the system; `serve` serves until the signal comes.
pub record Network : Type 0 where
  pub parse : Text → Result Error Text
  pub bind : Text → Result Error ℕ
  pub serve : ℕ → App → Ending

-- The body that `health` answers, at a time.
unfoldable pub health : Codec → ℕ → Value
health c now = object (
    field (codes "service") (string (codes "weighing-data-sync")) (
      field (codes "status") (string (codes "ok"))
        (field (codes "time") (string (c.to_rfc3339 now)) end)))

unfoldable pub app : ServerConfig → Option Db → App
unfolding new_state
app cfg db = record {
  routes =
      record { path = codes "/"; method = get; handler = health_handler }
      ∷ record { path = cfg.route; method = post; handler = put_weighing_data_handler }
      ∷ [];
  max_body_bytes = cfg.max_body_bytes;
  state = new_state cfg db;
}

unfoldable pub listen : Network → ServerConfig → Result Error ℕ
listen net cfg = do
  bind ← with_context (codes "invalid server bind address: " ++ cfg.bind) (net.parse cfg.bind)
  with_context (codes "failed to bind HTTP server on " ++ bind) (net.bind bind)

unfoldable pub run_http_server : Network → ServerConfig → Option Db → Ending
unfolding app listen
run_http_server net cfg db = elim (listen net cfg) [
  | err e ↦ returned (err e)
  | ok listener ↦ ending_context (codes "HTTP server failed") (net.serve listener (app cfg db))
]

-- What the server comes to: it serves its routes with its key and the given database once the address
-- is read and bound.
pub data Runs (net : Network) (cfg : ServerConfig) (db : Option Db) : Ending → Type 0 where
  bad_address :
      {x : Error}
      → net.parse cfg.bind ≡ err x
      → Runs net cfg db
          (returned (err (context (codes "invalid server bind address: " ++ cfg.bind) x)))
  unbound :
      {address : Text} {x : Error}
      → net.parse cfg.bind ≡ ok address
      → net.bind address ≡ err x
      → Runs net cfg db
          (returned (err (context (codes "failed to bind HTTP server on " ++ address) x)))
  served :
      {address : Text} {listener : ℕ} (application : App)
      → net.parse cfg.bind ≡ ok address
      → net.bind address ≡ ok listener
      → application.state.api_key ≡ cfg.api_key
      → application.state.db ≡ db
      → application.max_body_bytes ≡ cfg.max_body_bytes
      → Runs net cfg db
          (ending_context (codes "HTTP server failed") (net.serve listener application))

pub run_http_server-Runs :
    (net : Network) (cfg : ServerConfig) (db : Option Db)
    → Runs net cfg db (run_http_server net cfg db)
unfolding run_http_server app new_state listen
run_http_server-Runs net cfg db = elim (Result-cases (net.parse cfg.bind)) [
  | inr (x, unread) ↦ rw (run_http_server, listen, unread) (bad_address unread)
  | inl (address, read) ↦ elim (Result-cases (net.bind address)) [
    | inr (x, refused) ↦ rw (run_http_server, listen, read, refused) (unbound read refused)
    | inl (listener, bound) ↦
        rw (run_http_server, listen, read, bound) (served (app cfg db) read bound refl refl refl)
  ]
]
