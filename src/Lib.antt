-- ===== src/Lib.antt =====
-- weighing-data-sync: a daemon that reads weighing records and uploads them to a cloud endpoint. This
-- library models its parts and proves what makes them correct.
--
-- Text.antt       the methods of `str` that the program calls, on lists of code points
-- Anyhow.antt     `anyhow::Result`: an error is a message under its contexts
-- Ending.antt     what a call that may block comes to: it is under way, or has returned
-- Config.antt     src/config.rs: sections, defaults, `validate`, the encryption tests
--   Read          how the sections are read from a table of the `config` crate
-- Db.antt         src/db/mod.rs: `insert_record`, `fetch_pending`, `mark_synced`, `mark_failed` and
--                 `insert_inbound_payload` as statements on two tables. A database comes with a script
--                 that says which statements fail; a failing statement changes nothing.
--   Connect       `connect`: the file of the database, the migrations
--   Models        src/db/models.rs and src/entity/weighing_record.rs
--   Store, Insert, Fetch   the cache as a list of records, which the statements refine
-- Sync.antt       src/sync/mod.rs
--   Error         src/sync/error.rs
--   Retry         src/sync/retry.rs: the loop runs on fuel, `max_elapsed / 1 ms + 2` rounds, which is
--                 enough because every pause but a last one takes a millisecond or more
--   Cloud         what the engines take from outside: clock, HTTP client
--   Payload       `build_payload_request` of both engines, with and without compression
--   Engine        src/sync/engine.rs: `sync_once` on the cache and a state of the outside
--   SqlServerEngine   src/sync/sqlserver_engine.rs: `sync_once` on the server and the outside; Cycle
--                 says what a cycle may come to, and Refines, Safety and Drain are about it; Received
--                 joins it to the route of the receiving server
-- Windows.antt    src/windows: Autostart and Service on the state of the system, in both builds
-- Daemon.antt     src/main.rs: `build_engine` and the engines on the cache, the server and the
--                 outside; what `run_daemon` is seen to do is a list of events
--   Run           `run_daemon`, `serve` and `sync_now`
--   Main          `main`, which runs the command that clap has read; Dispatch says what each command
--                 comes to, and History is any sequence of calls and scheduled cycles
--   Scheduler     the jobs that share the engine under a lock, as a step relation
-- Entity.antt     src/entity: the columns of the models `weight_info` and `weight_photo`
-- Json.antt       `serde_json::Value` and how a derived `Deserialize` reads a field
-- Client/WebSocket.antt   src/client/websocket.rs: `push_batch_with_ack` on a socket that is a script of
--                 what arrives and what is delivered, and a log of what is sent
--   Accepting, Heard   the messages that accept a batch, apart from the code
--   Ack, Session  how an acknowledgement is read; the session. The loop of `read_ack` is a recursion
--                 on the script; a script that ends is a closed stream.
-- Server.antt     src/server.rs: `put_weighing_data` on the state of the server
--   Start         `run_http_server`, with the routes as data, and `health`
-- Source/SqlServer.antt   src/source/sqlserver.rs: `new`, `connect` and `mark_uploaded` on the rows of the
--                 server and a script that says which steps fail
--   Identifier    the names in a statement
--   Numeric, Row  `format_numeric`; `row_to_record` and `column_value_to_json` on the values of the driver
--   Fetch         `fetch_pending`: the query as a selection and an ordering of the rows
-- Tests.antt      runs, and the theorems at concrete inputs
--
-- Parameters stand for what the program takes from other libraries: `uuid` and `chrono` (Codec),
-- `uom` (Mass), SQLite's `ORDER BY` (Sqlite), the SQL Server's (Tsql) and its driver (Driver),
-- tokio's clock (Timer), reqwest (Cloud), serde and flate2 (Requests, `decode` of the engines),
-- serde_json and the WebSocket library (Formats, Network), tokio's and axum's server (Network of
-- Server/Start), winreg and windows_service (Registry, ServiceManager), the `config` crate
-- (Source), and what the daemon takes (Libraries). What is relied on of one is the record named
-- after it with `Is` in front.
-- A `Uuid` is its 128-bit value, an instant the nanoseconds since year 0, a duration its nanoseconds,
-- an `f64` its bit pattern; a `retry_count` and a length are plain numbers. Logging is left out.
-- Not modelled: how axum brings a request to its handler, how clap reads the command line and the
-- `config` crate its file and the environment, and logging, which are those libraries' own; the programs in Go.
pub mod Prelude
pub mod Anyhow
pub mod Text
pub mod Config
pub mod Db
pub mod Ending
pub mod Entity
pub mod Daemon
pub mod Json
pub mod Client
pub mod Sync
pub mod Server
pub mod Source
pub mod Windows
mod Tests
