-- ===== src/Tests/Settings.antt =====
-- Configurations that are accepted, and some that are not.
use weighing_data_sync.Prelude.{
  ℕ, ◌^◌, ltb, if◌then◌else◌, ◌≡◌, refl, true, false, none, some, codes, text_eq,
}
use weighing_data_sync.Anyhow.{Error, msg, Result, ok, err, is_ok}
use weighing_data_sync.Text.{trim, is_whitespace}
use weighing_data_sync.Json.{
  Value, Number, null, bool, number, string, object, natural, negative, float, end, field, lookup,
  get, as_str,
}
use weighing_data_sync.Config.{SqlServerConfig, AppConfig}
use weighing_data_sync.Config.Read.{Source, read_app}
use weighing_data_sync.Config.Defaults.{default_server, default_sqlserver}
use weighing_data_sync.Config.SqlServer.{validate}

abbrev configured : SqlServerConfig
configured = record default_sqlserver { host = codes "db.local"; password = codes "real-secret" }

validate_tests :
    (is_ok (validate configured) ≡ true)
    × (is_ok (validate default_sqlserver) ≡ false)
    × (is_ok (validate (record configured { host = codes " \t" })) ≡ false)
unfolding validate trim is_whitespace text_eq
validate_tests = (refl, refl, refl)

abbrev natural_of : ℕ → Number → Result Error ℕ
natural_of bits (natural n) = if ltb n (2 ^ bits) then ok n else err (msg (codes "too large"))
natural_of bits (negative n) = err (msg (codes "negative"))
natural_of bits (float x) = err (msg (codes "no integer"))

-- A JSON value as a source; an integer has fewer than the given bits.
abbrev json_source : Source Value
json_source = record {
  get = get;
  text = λ v. elim (as_str v) [ none ↦ err (msg (codes "no text")) | some t ↦ ok t ];
  bool = λ v. elim v [ bool b ↦ ok b | _ ↦ err (msg (codes "no boolean")) ];
  unsigned = λ bits v. elim v [ number n ↦ natural_of bits n | _ ↦ err (msg (codes "no number")) ];
  option_text =
      λ v. elim v [ null ↦ ok none | string t ↦ ok (some t) | _ ↦ err (msg (codes "no text")) ];
  missing = λ key. msg key;
}

-- Only what must be given, and a batch size.
abbrev table : Value
table = object (
    field (codes "api") (object (field (codes "endpoint") (string (codes "https://c")) end)) (
      field (codes "database") (object end)
        (field (codes "sync") (object (field (codes "batch_size") (number (natural 7)) end)) end)))

abbrev read_table : AppConfig
read_table = record {
  api = record { endpoint = codes "https://c"; api_key = none; timeout_seconds = 30 };
  database = record { url = codes "sqlite://data/weighing_sync.db"; max_connections = 5 };
  server = default_server;
  sqlserver = default_sqlserver;
  sync = record {
    source = codes "sqlserver";
    batch_size = 7;
    cron = codes "0 */5 * * * *";
    sync_on_start = true;
    retry_initial_delay_ms = 1000;
    retry_max_delay_ms = 60_000;
    retry_max_elapsed_seconds = 300;
  };
}

read_app_tests : read_app json_source table ≡ ok read_table
unfolding read_app get lookup text_eq
read_app_tests = refl
