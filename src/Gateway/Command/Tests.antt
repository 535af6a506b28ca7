-- ===== src/Gateway/Command/Tests.antt =====
-- The report command of a gateway that has counted one write.
use ble_usage_meter.Common.{
  Error, config_error, err, true, ◌⊎◌, ℕ, Bytes, text, List, [], ◌∷◌, map, Option, none, some,
  Result, ok, ◌≡◌, ◌↔◌, refl, arith, All, str_is_eq, str_eq,
}
use ble_usage_meter.Common.Int.{pos, max_ℤ, ◌-ℤ◌}
use ble_usage_meter.Common.Dict.{lookup, get_or}
use ble_usage_meter.Common.Ed25519.{toy}
use ble_usage_meter.Gateway.Config.Settings.{GatewayConfig}
use ble_usage_meter.Gateway.Matcher.{unknown}
use ble_usage_meter.Gateway.Signer.{ReportTuple, PrivateKey, ed25519, begins, contains, from_file}
use ble_usage_meter.Gateway.Counter.{Counter, get}
use ble_usage_meter.Gateway.Store.{Store, event_row, load_counters, load_sequence}
use ble_usage_meter.Gateway.Store.AppendOnly.{stored_count}
use ble_usage_meter.Gateway.Pipeline.Counts.{IsBacked, known_events, load-get}
use ble_usage_meter.Gateway.Reporter.{Payload, Attempt, answered}
use ble_usage_meter.Gateway.Reporter.Runs.{Reports, run_sequence}
use ble_usage_meter.Gateway.Command.{unsignable, with_counter, with_key, cmd_report, main_exit}
use mathlib.Core.List.{Perm}
use ble_usage_meter.Common.Sorting.{IsSorted}
use ble_usage_meter.Gateway.Command.Status.{Status, cmd_status, by_device, IsTail, cmd_status_lem}
use ble_usage_meter.Gateway.Command.Report.{Delivered, cmd_report_lem}
use ble_usage_meter.Gateway.Command.Main.{Invocation, report, run_command, main_with, main}
use ble_usage_meter.Gateway.Command.Refused.{main_refused}

abbrev pub settings : GatewayConfig
settings = record {
  meter_id = text "meter";
  report_endpoint = text "https://example.invalid/reports";
  report_interval_sec = pos 300;
  db_path = text "meter.sqlite3";
  private_key_path = text "gateway.key";
  retry_base_sec = pos 5;
  retry_max_sec = pos 600;
  retry_max_attempts = pos 8;
  rules = [];
}

-- A server that takes every report, and PEM files that are the key's bytes.
abbrev server : Payload → ℕ → Attempt
server payload attempt = answered 200

abbrev load_pem : Bytes → Result PrivateKey
load_pem content = ok (ed25519 content)

abbrev key_file : Option Bytes
key_file = some (7 ∷ 9 ∷ [])

readable : from_file load_pem key_file ≡ ok (7 ∷ 9 ∷ [])
unfolding from_file contains begins
readable = refl

abbrev store : Store
store = record {
  counters = (text "lamp", record { count = pos 1; updated_at = pos 0 }) ∷ [];
  events = event_row (text "lamp") (text "on") (pos 0) none none none (pos 0) [] ∷ [];
  sequence = some (pos 2);
}

abbrev counter : Counter
counter = record { counts = (text "lamp", pos 1) ∷ []; sequence = pos 2 }

store-IsBacked : IsBacked store counter
unfolding known_events get get_or lookup unknown str_eq
store-IsBacked = record {
  dict = (refl, tt);
  counts = λ d. ground arith;
  live = λ d. ground arith;
  log = λ d. ground arith;
}

cmd_report_lem_example :
    (rs : List ReportTuple) × Reports
      (stored_count store)
      (run_sequence store)
      (pos 900 -ℤ pos 300)
      (pos 900)
      rs
    × (map (λ r. r.device_id) rs ≡ map (λ row. row.0) store.counters)
    × (((cmd_report toy settings server load_pem key_file (pos 900) store).0 ≡ ok 0)
        ↔ All (Delivered toy settings server (7 ∷ 9 ∷ [])) rs)
    × ((cmd_report toy settings server load_pem key_file (pos 900) store).1
        ≡ record store { sequence = some (run_sequence store) })
cmd_report_lem_example =
    cmd_report_lem toy settings server load_pem key_file (pos 900) store counter (7 ∷ 9 ∷ [])
      store-IsBacked readable

-- There is no key.
abbrev no_key : Invocation
no_key = record { loaded = ok settings; command = report server none; clock = λ n. pos 900 }

no_key-refused : (main toy load_pem no_key store).0 ≡ ok 2
unfolding main main_with run_command main_exit cmd_report with_counter with_key from_file
no_key-refused =
    let (c, loaded, _, _) = load-get store store-IsBacked.dict store-IsBacked.counts in
    rw loaded refl

main_refused_example :
    ((main toy load_pem no_key store).1 ≡ store)
    × ((ok settings ≡ err config_error)
        ⊎ (((cfg : GatewayConfig) × (ok settings ≡ ok cfg))
            × ((e : Error) × (from_file load_pem none ≡ err e) × (unsignable e ≡ true))))
main_refused_example =
    main_refused toy load_pem (ok settings) (λ n. pos 900) server none store no_key-refused

cmd_status_lem_example :
    (r : Status) × (cmd_status settings (pos 5) store ≡ (ok r, store))
    × IsSorted by_device r.counters
    × Perm r.counters (load_counters store)
    × (r.sequence ≡ max_ℤ (pos 0) (load_sequence store))
    × (r.events_logged ≡ 1)
    × IsTail (pos 5) store.events r.recent
cmd_status_lem_example =
    cmd_status_lem settings (pos 5) store store-IsBacked.dict store-IsBacked.counts refl
