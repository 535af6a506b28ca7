-- ===== src/Backend/Service.antt =====
-- backend/app.py on backend/db.py: the endpoints as the service serves them, each on a connection of its
-- own (`Depends(get_conn)`), which migrates the database file first.
pub mod Migrated
mod Tests
use ble_usage_meter.Common.{
  ℕ, ◌≡◌, refl, sym, ap, ◌∙◌, Str, text, List, [], ◌∷◌, Bool, true, Option, none, some, Result, ok,
  err, operational_error, if◌then◌else◌, str_is_eq,
}
use ble_usage_meter.Common.Ed25519.{Ed25519}
use ble_usage_meter.Common.Dict.{Dict, lookup}
use ble_usage_meter.Backend.Models.{UsageReport, DeviceRecord}
use ble_usage_meter.Backend.Verify.{VerifyResult, accepted, verify_report}
use ble_usage_meter.Backend.Db.{Database, ReportRow}
use ble_usage_meter.Backend.Policy.{Decision, Faults}
use ble_usage_meter.Backend.Migrate.{File, is_some, has_version, migrate, migrate_until, contents}
use ble_usage_meter.Backend.Migrate.Crash.{
  IsSound, HasObjects, migrate-has_version, migrate_until-IsSound, migrate_until-contents,
}
use ble_usage_meter.Backend.App.{
  Response, RegisterDeviceRequest, register_device, post_verified, post_report, get_usage,
}
use ble_usage_meter.Backend.App.License.{get_license}

-- A request that FastAPI has validated. `license` has the faults of its statements, and the clock's day
-- and second.
pub data Call : Type 0 where
  health : Call
  register : RegisterDeviceRequest → Call
  report : UsageReport → Call
  usage : Str → Call
  license : Faults → Str → ℕ → ℕ → Call

pub data Answer : Type 0 where
  healthy : Str → Answer
  response : Result Response → Answer
  decision : Result Decision → Answer

-- A table after a handler: one that is not there is not made.
abbrev pub written {ℓ} : {A : Type ℓ} → Option A → A → Option A
written none rows = none
written (some old) rows = some rows

abbrev pub store_in : Database → File → File
store_in db f = record f {
  devices = written f.devices db.devices;
  usage_reports = written f.usage_reports db.usage_reports;
  policies = written f.policies db.policies;
}

-- What happens to the file: a request is served, or the process is killed after so many statements of
-- a migration.
pub data Visit : Type 0 where
  served : Call → Str → Visit
  killed : ℕ → Str → Visit

module _ (scheme : Ed25519) where
  -- The endpoints on the rows, at a time.
  unfoldable pub endpoint : Call → Str → Database → Answer × Database
  endpoint health now db = (healthy (text "ok"), db)
  endpoint (register req) now db =
      let (r, db') = register_device db req now in (response (ok r), db')
  endpoint (report r) now db = let (a, db') = post_report scheme db r now in (response a, db')
  endpoint (usage device_id) now db = (response (ok (get_usage db device_id)), db)
  endpoint (license faults device_id today second) now db =
      (decision (get_license faults db device_id today second), db)

  -- A report without the table of reports: what is accepted cannot be inserted.
  unfoldable pub unstored :
      Database → UsageReport → Str → Result VerifyResult → Result Response × Database
  unstored db r now (ok accepted) = (err operational_error, db)
  unstored db r now verdict = post_verified db r now verdict

  -- A statement on a table that is not there raises `OperationalError`. All handlers read `devices`
  -- first; an accepted report is inserted into `usage_reports`, and the usage counts its rows.
  unfoldable pub report_rows :
      Option (List ReportRow) → UsageReport → Str → Database → Result Response × Database
  report_rows (some rows) r now db = post_report scheme db r now
  report_rows none r now db = unstored db r now (verify_report scheme db r)

  unfoldable pub usage_rows : Option (List ReportRow) → Str → Database → Result Response
  usage_rows (some rows) device_id db = ok (get_usage db device_id)
  usage_rows none device_id db = elim (lookup device_id db.devices) [
    | none ↦ ok (get_usage db device_id)
    | some d ↦ err operational_error
  ]

  -- `decide` takes it for a read that fails.
  unfoldable pub failing : File → Faults → Faults
  failing f faults = record {
    policy = if is_some f.policies then faults.policy else true;
    usage = if is_some f.usage_reports then faults.usage else true;
  }

  -- The handlers on a file that has its devices.
  unfoldable pub on_rows : Call → Str → File → Database → Answer × Database
  on_rows (report r) now f db =
      let (a, db') = report_rows f.usage_reports r now db in (response a, db')
  on_rows (usage device_id) now f db = (response (usage_rows f.usage_reports device_id db), db)
  on_rows (license faults device_id today second) now f db =
      endpoint (license (failing f faults) device_id today second) now db
  on_rows call now f db = endpoint call now db

  -- The handler of a request with its connection's file as it is.
  unfoldable pub on_devices : Option (Dict Str DeviceRecord) → Call → Str → File → Answer × File
  on_devices none call now f = (response (err operational_error), f)
  on_devices (some rows) call now f =
      let (a, db) = on_rows call now f (contents f) in (a, store_in db f)

  unfoldable pub on_file : Call → Str → File → Answer × File
  on_file call now f = on_devices f.devices call now f

  -- `get_conn`: the file is migrated, then the handler has it; `health` takes no connection.
  unfoldable pub with_conn : Call → Str → File → Answer × File
  with_conn health now f = (healthy (text "ok"), f)
  with_conn call now f = on_file call now (migrate now f)

  unfoldable pub visit_all : List Visit → File → List Answer × File
  visit_all [] f = ([], f)
  visit_all (served call now ∷ rest) f =
      let (a, f') = with_conn call now f in let (answers, g) = visit_all rest f' in (a ∷ answers, g)
  visit_all (killed n now ∷ rest) f = visit_all rest (migrate_until n now f)

  -- The specification: the same requests on rows that are always there.
  unfoldable pub answer_all : List Visit → Database → List Answer × Database
  answer_all [] db = ([], db)
  answer_all (served call now ∷ rest) db =
      let (a, db') = endpoint call now db in
      let (answers, end) = answer_all rest db' in (a ∷ answers, end)
  answer_all (killed n now ∷ rest) db = answer_all rest db
