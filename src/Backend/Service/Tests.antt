-- ===== src/Backend/Service/Tests.antt =====
-- A service whose first process is killed while it makes the tables.
use ble_usage_meter.Common.{text, List, [], ◌∷◌, none, ◌≡◌, refl, err, operational_error}
use ble_usage_meter.Common.Ed25519.{toy}
use ble_usage_meter.Backend.Migrate.{contents}
use ble_usage_meter.Backend.Migrate.Crash.{IsSound}
use ble_usage_meter.Backend.Migrate.Tests.{new_file, new_file-IsSound}
use ble_usage_meter.Backend.App.{RegisterDeviceRequest}
use ble_usage_meter.Backend.Example
use ble_usage_meter.Backend.Example.{meter, device}
use ble_usage_meter.Backend.Service.{
  Visit, served, killed, health, register, report, usage, visit_all, answer_all, response, on_file,
  on_devices,
}
use ble_usage_meter.Backend.Service.Migrated.{visit_all_refines}

abbrev request : RegisterDeviceRequest
request = record { device_id = meter; public_key = device.public_key; label = none }

abbrev visits : List Visit
visits =
    killed 2 (text "t0")
    ∷ served health (text "t1")
    ∷ served (register request) (text "t2")
    ∷ served (report (Example.report 3 1)) (text "t3")
    ∷ killed 5 (text "t4")
    ∷ served (usage meter) (text "t5")
    ∷ []

visit_all_refines_example :
    ((visit_all toy visits new_file).0 ≡ (answer_all toy visits (contents new_file)).0)
    × (contents (visit_all toy visits new_file).1 ≡ (answer_all toy visits (contents new_file)).1)
    × IsSound (visit_all toy visits new_file).1
visit_all_refines_example = visit_all_refines toy visits new_file new_file-IsSound

-- Without a migration there is no table to read.
unmigrated : (on_file toy (usage meter) (text "t0") new_file).0 ≡ response (err operational_error)
unfolding on_file on_devices
unmigrated = refl
