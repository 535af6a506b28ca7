-- ===== src/System/Commands/Tests.antt =====
-- A device that is observed, then proxied after a key that cannot be read, on new tables.
use ble_usage_meter.Common.{
  ℕ, Str, Bytes, text, List, [], ◌∷◌, true, none, completed, interrupted, Result, ok, ◌≡◌, refl,
  arith, str_is_eq, str_eq, lower_char,
}
use ble_usage_meter.Common.Int.{ℤ, pos, ◌+ℤ◌}
use ble_usage_meter.Common.Dict.{lookup, insert}
use ble_usage_meter.Common.Ed25519.{toy}
use ble_usage_meter.Gateway.Config.{EventRule}
use ble_usage_meter.Gateway.Config.Settings.{GatewayConfig}
use ble_usage_meter.Gateway.Signer.{PrivateKey, ed25519}
use ble_usage_meter.Gateway.Store.{new_store, load_sequence}
use ble_usage_meter.Gateway.Store.AppendOnly.{stored_count}
use ble_usage_meter.Gateway.Pipeline.Counts.{known_events}
use ble_usage_meter.Gateway.Matcher.{has_prefix, unknown}
use ble_usage_meter.Gateway.Matcher.First.{first_match}
use ble_usage_meter.Gateway.Reporter.{Payload, Attempt, answered}
use ble_usage_meter.Gateway.Observer.{
  Notification, handler, has_property, attach, observe_all, deliver_to,
}
use ble_usage_meter.Gateway.Proxy.{from_app}
use ble_usage_meter.Gateway.Command.Watch.{Observation, Relaying}
use ble_usage_meter.Gateway.Command.Main.{
  Command, observe, proxy, report, status, Invocation, main_all,
}
use ble_usage_meter.System.Metered.{uses_among}
use ble_usage_meter.System.Commands.{
  AgreesWithLog, HasRoom, writes_of, writes_seen, uses_seen, total_writes, total_uses,
}
use ble_usage_meter.System.Commands.All.{main_all_refines}

abbrev rule : EventRule
rule = record {
  service = text "ab";
  characteristic = text "01";
  prefix = 170 ∷ [];
  event = text "on";
}

abbrev settings : GatewayConfig
settings = record {
  meter_id = text "meter";
  report_endpoint = text "https://example.invalid/reports";
  report_interval_sec = pos 300;
  db_path = text "meter.sqlite3";
  private_key_path = text "gateway.key";
  retry_base_sec = pos 5;
  retry_max_sec = pos 600;
  retry_max_attempts = pos 8;
  rules = rule ∷ [];
}

abbrev clock : ℕ → ℤ
clock n = pos n

abbrev run_of : Command → Invocation
run_of command = record { loaded = ok settings; command = command; clock = clock }

abbrev notification : Bytes → Notification
notification bytes = record {
  service_uuid = text "ab";
  char_uuid = text "01";
  mtu_payload = 2;
  received = bytes;
}

-- A write in two fragments, and one without a rule.
abbrev observation : Observation
observation = record {
  link = completed;
  characteristics =
      record { service_uuid = text "ab"; uuid = text "01"; properties = text "notify" ∷ [] } ∷ [];
  start_notify = λ service_uuid char_uuid. completed;
  notifications =
      notification (170 ∷ 1 ∷ []) ∷ notification (2 ∷ []) ∷ notification (187 ∷ []) ∷ [];
  waits = interrupted;
  leaves = completed;
}

abbrev relaying : Relaying
relaying = record {
  link = completed;
  events = from_app (ok tt) (text "ab") (text "01") (170 ∷ []) true ∷ [];
  waits = interrupted;
  disconnects = completed;
}

abbrev server : Payload → ℕ → Attempt
server payload attempt = answered 200

abbrev load_pem : Bytes → Result PrivateKey
load_pem content = ok (ed25519 content)

abbrev invocations : List Invocation
invocations =
    run_of (observe (text "lamp") observation)
    ∷ run_of (report server none)
    ∷ run_of (proxy (text "lamp") relaying)
    ∷ run_of (status (pos 5))
    ∷ []

new-AgreesWithLog : AgreesWithLog new_store
unfolding lookup known_events
new-AgreesWithLog = record { dict = tt; stored = λ d. refl }

writes : total_writes invocations ≡ 3
unfolding total_writes writes_seen writes_of attach has_property str_eq observe_all deliver_to
    handler lookup insert
writes = refl

uses : total_uses (text "lamp") invocations ≡ 2
unfolding total_uses uses_seen uses_among writes_of attach has_property str_eq observe_all
    deliver_to handler lookup insert first_match lower_char has_prefix unknown
uses = refl

new-HasRoom : HasRoom (total_writes invocations) 4 new_store
unfolding lookup load_sequence ◌+ℤ◌
new-HasRoom = rw writes (record { counts = λ d. omega arith; sequence = omega arith })

main_all_refines_example :
    let t = main_all toy load_pem invocations new_store in
    AgreesWithLog t
    × ((d : Str) → stored_count t d ≡ stored_count new_store d +ℤ pos (total_uses d invocations))
main_all_refines_example =
    main_all_refines toy load_pem invocations new_store new-AgreesWithLog new-HasRoom
