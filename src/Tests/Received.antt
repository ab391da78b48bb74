-- ===== src/Tests/Received.antt =====
-- The SQL Server engine against the receiving route, which answers in an encoding of its own.
use weighing_data_sync.Prelude.{
  ℕ, zero, suc, ◌+◌, ◌≡◌, some, none, List, [], ◌∷◌, Text, codes, text_eq, Option,
}
use weighing_data_sync.Anyhow.{Error, Result, ok, err, msg}
use weighing_data_sync.Source.SqlServer.Row.{string as cell_text}
use weighing_data_sync.Json.{Value, Fields, Items, object, array, nil, cons, field, end}
use weighing_data_sync.Server as Server
use weighing_data_sync.Server.{AppState, put_weighing_data, put, refusal}
use weighing_data_sync.Sync.SqlServerEngine.{SqlServerSyncEngine, SqlServerUploadResponse}
use weighing_data_sync.Server.Bearer.{bearer_auth}
use weighing_data_sync.Tests.Sample.{cloud, engine, one_symbol}
use weighing_data_sync.Tests.SqlServerSample.{sql_engine}

-- Texts one after another, each closed by a zero.
abbrev closed : Text → Text → Text
closed [] rest = 0 ∷ rest
closed (c ∷ t) rest = suc c ∷ closed t rest

abbrev encode : List Text → Text
encode [] = []
encode (t ∷ ts) = closed t (encode ts)

abbrev onto_first : ℕ → List Text → List Text
onto_first c [] = (c ∷ []) ∷ []
onto_first c (t ∷ ts) = (c ∷ t) ∷ ts

abbrev decode : Text → List Text
decode [] = []
decode (zero ∷ s) = [] ∷ decode s
decode (suc c ∷ s) = onto_first c (decode s)

abbrev printed : Server.Body → Text
printed (refusal request_id error) = error
printed (put p) = b'x' ∷ encode p.accepted_serial_nos

abbrev read : Text → Result Error SqlServerUploadResponse
read [] = err (msg [])
read (c ∷ s) = ok (record { accepted_serial_nos = decode s; failed_serial_nos = [] })

abbrev objects : List Fields → Items
objects [] = nil
objects (fs ∷ rest) = cons (object fs) (objects rest)

abbrev api_key : Option Text
api_key = some (codes "k")

abbrev state : AppState
state = record { api_key = api_key; db = none }

abbrev to_json : Value → Result Error Text
to_json value = ok []

-- The answer of the route, and how it comes back.
abbrev answered : Value → Server.Response
answered value = (put_weighing_data one_symbol to_json 1 2 3 state (bearer_auth api_key) value).0

abbrev received_engine : SqlServerSyncEngine Value ℕ
received_engine = record {
  driver = sql_engine.driver;
  tsql = sql_engine.tsql;
  equal = text_eq;
  address = codes "db:1433";
  show = λ n. n ∷ [];
  cloud = record {
    timer = cloud.timer;
    utc = cloud.utc;
    send = λ endpoint key value s. (
      ok (record { status = (answered value).status; body = ok (printed (answered value).body) }),
      s + 1_000_000_000,
    );
    status_text = λ n. [];
  };
  build = λ r. ok (object (field (codes "records") (array (objects r.records)) end));
  decode = read;
  api = record engine.api { api_key = api_key };
  sync = engine.sync;
  source = sql_engine.source;
}

-- The route names no serial number as failed.
abbrev NoneFailed : Server.Body → Type 0
NoneFailed (refusal request_id error) = Unit
NoneFailed (put p) = p.failed_serial_nos ≡ []
