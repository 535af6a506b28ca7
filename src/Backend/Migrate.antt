-- ===== src/Backend/Migrate.antt =====
-- backend/db.py and backend/schema.sql: the migrations runner, on the objects of a database file.
pub mod Crash
pub mod Tests
use ble_usage_meter.Common.{
  ℕ, suc, zero, ◌≡◌, ◌↔◌, refl, Str, List, [], ◌∷◌, ◌++◌, Bool, true, false, Option, none, some,
  take, eqb, eqb_iff, if◌then◌else◌, Key, arith,
}
use ble_usage_meter.Common.Dict.{Dict, lookup, insert}
use ble_usage_meter.Backend.Models.{DeviceRecord}
use ble_usage_meter.Backend.Db.{Database, ReportRow, PolicyRow}

abbrev pub schema_version : ℕ
schema_version = 1

-- A version is a key of `schema_migrations`.
instance abbrev pub version_is_eq : Key ℕ
version_is_eq = record { same = eqb; same_iff = eqb_iff }

-- What a database file has: its tables with their rows, `none` before they are created, and whether the
-- index and the two triggers are there.
pub record File : Type 0 where
  pub migrations : Option (Dict ℕ Str)
  pub devices : Option (Dict Str DeviceRecord)
  pub usage_reports : Option (List ReportRow)
  pub policies : Option (Dict Str PolicyRow)
  pub index : Bool
  pub no_update : Bool
  pub no_delete : Bool

-- A statement that `migrate` runs; each is its own transaction.
pub data Statement : Type 0 where
  create_migrations create_devices create_usage_reports create_policies : Statement
  create_index create_no_update create_no_delete : Statement
  record_version : Str → Statement

-- `CREATE TABLE IF NOT EXISTS`
abbrev pub or_empty {ℓ} : {A : Type ℓ} → Option (List A) → List A
or_empty none = []
or_empty (some rows) = rows

unfoldable pub run : Statement → File → File
run create_migrations f = record f { migrations = some (or_empty f.migrations) }
run create_devices f = record f { devices = some (or_empty f.devices) }
run create_usage_reports f = record f { usage_reports = some (or_empty f.usage_reports) }
run create_policies f = record f { policies = some (or_empty f.policies) }
run create_index f = record f { index = true }
run create_no_update f = record f { no_update = true }
run create_no_delete f = record f { no_delete = true }
run (record_version now) f = record f {
  migrations = some (insert schema_version now (or_empty f.migrations));
}

unfoldable pub run_script : List Statement → File → File
run_script [] f = f
run_script (s ∷ statements) f = run_script statements (run s f)

-- schema.sql
abbrev pub schema : List Statement
schema =
    create_migrations ∷ create_devices ∷ create_usage_reports ∷ create_index ∷ create_no_update
    ∷ create_no_delete ∷ create_policies ∷ []

abbrev pub is_some {ℓ} : {A : Type ℓ} → Option A → Bool
is_some none = false
is_some (some a) = true

-- Whether this version is recorded.
unfoldable pub has_version : File → Bool
has_version f = is_some (lookup schema_version (or_empty f.migrations))

-- `migrate`, broken off after so many statements of the schema and of the record of its version.
unfoldable pub migrate_until : ℕ → Str → File → File
migrate_until n now f =
    let f' = run create_migrations f in
    if has_version f' then f' else run_script (take n (schema ++ record_version now ∷ [])) f'

-- `migrate` that is not broken off.
unfoldable pub migrate : Str → File → File
migrate now f = migrate_until (suc (suc (suc (suc (suc (suc (suc (suc zero)))))))) now f

-- The rows that the service reads.
abbrev pub contents : File → Database
contents f = record {
  devices = or_empty f.devices;
  usage_reports = or_empty f.usage_reports;
  policies = or_empty f.policies;
}
