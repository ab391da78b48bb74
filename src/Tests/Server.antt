-- ===== src/Tests/Server.antt =====
-- A batch that is sent to the receiving route with the right key and without one.
use weighing_data_sync.Prelude.{◌≡◌, refl, none, some, [], Text, codes, text_eq}
use weighing_data_sync.Anyhow.{Error, Result, ok}
use weighing_data_sync.Text.{trim, is_whitespace, strip_prefix}
use weighing_data_sync.Json.{Value, string, array, object, field, end, cons, nil, get, lookup}
use weighing_data_sync.Tests.Sample.{one_symbol}
use weighing_data_sync.Server.{
  AppState, Headers, extract_bearer_token, is_authorized, put_weighing_data, records_of,
}
use weighing_data_sync.Server.Answers.{Answers, put_weighing_data-Answers}

abbrev state : AppState
state = record {
  api_key = some (codes "secret");
  db = some (record { rows = []; inbound = []; faults = [] });
}

abbrev headers : Headers
headers = some (some (codes " bearer  secret "))

abbrev weighing : Text → Value
weighing serial = object (field (codes "serialNo") (string serial) end)

abbrev payload : Value
payload =
    object
      (field (codes "records") (array (cons (weighing (codes "A1")) (cons (object end) nil))) end)

abbrev print : Value → Result Error Text
print v = ok (codes "{}")

put_weighing_data_tests :
    ((put_weighing_data one_symbol print 5 6 7 state headers payload).0.status ≡ 200)
    × ((put_weighing_data one_symbol print 5 6 7 state none payload).0.status ≡ 401)
    × ((put_weighing_data one_symbol print 5 6 7 state headers (object end)).0.status ≡ 400)
unfolding put_weighing_data is_authorized extract_bearer_token trim is_whitespace strip_prefix
    text_eq records_of get lookup
put_weighing_data_tests = (refl, refl, refl)

put_weighing_data-Answers_example :
    Answers one_symbol print 5 6 7 payload state headers
      (put_weighing_data one_symbol print 5 6 7 state headers payload)
put_weighing_data-Answers_example =
    put_weighing_data-Answers one_symbol print 5 6 7 payload state headers
