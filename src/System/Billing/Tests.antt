-- ===== src/System/Billing/Tests.antt =====
-- One report run of a gateway that has counted one use, and its report at the backend.
use ble_usage_meter.Common.{
  ℕ, Bytes, text, List, [], ◌∷◌, none, some, Result, ok, bind-eq-ok, ◌≡◌, refl, arith, str_is_eq,
  str_eq,
}
use ble_usage_meter.Common.Int.{ℤ, pos, ◌≤ℤ◌, ◌+ℤ◌, ◌-ℤ◌}
use ble_usage_meter.Common.Dict.{lookup, insert, get_or}
use ble_usage_meter.Common.Ed25519.{toy}
use ble_usage_meter.Gateway.Signer
use ble_usage_meter.Gateway.Signer.{ReportTuple, PrivateKey, ed25519}
use ble_usage_meter.Gateway.Matcher.{unknown}
use ble_usage_meter.Gateway.Store.{Store, event_row, load_sequence, counts_of, save_sequence}
use ble_usage_meter.Gateway.Counter.{restore, restore_sequence, next_sequence}
use ble_usage_meter.Gateway.Pipeline.{load, restore_all}
use ble_usage_meter.Gateway.Store.AppendOnly.{stored_count}
use ble_usage_meter.Gateway.Pipeline.Counts.{known_events}
use ble_usage_meter.Gateway.Reporter.{Payload, Attempt, answered, tuples_of, prepare}
use ble_usage_meter.Gateway.Command.Main.{report, Invocation}
use ble_usage_meter.Backend.Models.Agreement.{signed_bytes}
use ble_usage_meter.Backend.App.{usage, get_usage}
use ble_usage_meter.Backend.App.Replay
use ble_usage_meter.Backend.App.Replay.{Request, serve}
use ble_usage_meter.Backend.Example
use ble_usage_meter.Backend.Example.{meter, device, db}
use ble_usage_meter.Gateway.Command.Tests.{settings}
use ble_usage_meter.System.Commands.{
  AgreesWithLog, HasRoom, writes_of, writes_seen, total_writes, total_uses,
}
use ble_usage_meter.System.Billing.{HasBytesOf, all_tuples, tuples_in, usage_within_uses}
use mathlib.Core.List.Memᴰ

abbrev store : Store
store = record {
  counters = (meter, record { count = pos 3; updated_at = pos 0 }) ∷ [];
  events =
      event_row meter (text "on") (pos 0) none none none (pos 2) []
      ∷ event_row meter (text "on") (pos 0) none none none (pos 1) []
      ∷ event_row meter (text "on") (pos 0) none none none (pos 0) []
      ∷ [];
  sequence = none;
}

abbrev server : Payload → ℕ → Attempt
server payload attempt = answered 201

abbrev load_pem : Bytes → Result PrivateKey
load_pem content = ok (ed25519 content)

abbrev runs : List Invocation
runs =
    record {
      loaded = ok settings;
      command = report server (some (7 ∷ 9 ∷ []));
      clock = λ n. pos 1700000300;
    }
    ∷ []

store-AgreesWithLog : AgreesWithLog store
unfolding known_events lookup unknown str_eq
store-AgreesWithLog = record { dict = (refl, tt); stored = λ d. ground arith }

runs-HasRoom : HasRoom (total_writes runs) 1 store
unfolding load_sequence lookup ◌+ℤ◌ total_writes writes_seen writes_of
runs-HasRoom = record { counts = λ d. ground arith; sequence = omega arith }

abbrev posted : List Request
posted = Replay.report (Example.report 3 1) [] ∷ []

tuples : all_tuples toy load_pem runs store ≡ Example.tuple 3 1 ∷ []
unfolding all_tuples tuples_in prepare load restore_all counts_of restore get_or save_sequence
    next_sequence ◌+ℤ◌ restore_sequence tuples_of insert ◌-ℤ◌
tuples = refl

bytes : HasBytesOf (all_tuples toy load_pem runs store) (Example.report 3 1)
unfolding Signer.sign
bytes =
    let (m, gateway, _) =
      bind-eq-ok (Signer.canonical_bytes (Example.tuple 3 1)) _ Example.signed_first in
    (
      Example.tuple 3 1,
      rw tuples (Memᴰ.head refl),
      (
        m,
        gateway,
        signed_bytes (Example.report 3 1) (pos 1700000000) (pos 1700000300) m Example.starts_at
            Example.ends_at gateway,
      ),
    )

registered : lookup meter db.devices ≡ some device
unfolding lookup str_eq
registered = refl

nothing_accepted : device.last_accepted_count ≤ℤ stored_count store meter
unfolding lookup str_eq
nothing_accepted = omega arith

usage_within_uses_example :
    (total sequence : ℤ) × (reports : ℕ) × (get_usage (serve toy posted db) meter
      ≡ usage meter total sequence reports)
    × (total ≤ℤ stored_count store meter +ℤ pos (total_uses meter runs))
usage_within_uses_example =
    usage_within_uses toy load_pem runs store meter device.public_key db device posted
      store-AgreesWithLog runs-HasRoom registered refl nothing_accepted
      ((λ d own authentic. bytes), tt)
