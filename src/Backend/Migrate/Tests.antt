-- ===== src/Backend/Migrate/Tests.antt =====
-- A file whose first migration was broken off after two statements.
use ble_usage_meter.Common.{Str, text, ◌≡◌, true, false, none}
use ble_usage_meter.Common.Dict.{lookup}
use ble_usage_meter.Backend.Migrate.{File, has_version, migrate_until, migrate, contents}
use ble_usage_meter.Backend.Migrate.Crash.{HasObjects, IsSound, migrate_recovers}

abbrev pub new_file : File
new_file = record {
  migrations = none;
  devices = none;
  usage_reports = none;
  policies = none;
  index = false;
  no_update = false;
  no_delete = false;
}

pub new_file-IsSound : IsSound new_file
unfolding has_version lookup
new_file-IsSound h = absurd (cc)

migrate_recovers_example :
    let g = migrate (text "later") (migrate_until 2 (text "now") new_file) in
    HasObjects g
    × (has_version g ≡ true)
    × (contents g ≡ contents new_file)
    × ((again : Str) → migrate again g ≡ g)
migrate_recovers_example = migrate_recovers 2 (text "now") (text "later") new_file new_file-IsSound
