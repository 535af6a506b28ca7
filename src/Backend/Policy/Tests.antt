-- ===== src/Backend/Policy/Tests.antt =====
-- Decisions on the example's device.
use ble_usage_meter.Common.{
  ℕ, [], ◌∷◌, true, false, none, some, ok, err, overflow_error, ◌≡◌, refl, arith, str_eq, List,
  str_is_eq,
}
use ble_usage_meter.Common.Int.{pos}
use ble_usage_meter.Common.Dict.{lookup}
use ble_usage_meter.Common.Calendar.{year_of, ord2ymd}
use ble_usage_meter.Backend.Db.{Database, ReportRow, PolicyRow}
use ble_usage_meter.Backend.App.{row_of}
use ble_usage_meter.Backend.App.License.{license_of, get_license, get_license-IsGranted}
use ble_usage_meter.Backend.Models.{DeviceRecord}
use ble_usage_meter.Backend.App.History.{IsHistory}
use ble_usage_meter.Backend.Policy.{
  PolicyRecord, Decision, within_policy, Faults, evaluate, decide, load_policy, record_of,
  load_expiry, decide_loaded, used_for, evaluate_record, evaluate_quota, usage_in_period,
  days_before, usage_since, newest,
}
use ble_usage_meter.Backend.Policy.Closed.{evaluate_iff, IsGranted, decide_raises}
use ble_usage_meter.Backend.Example
use ble_usage_meter.Backend.Example.{meter, db, db-IsConsistent, device, found}

abbrev limited : PolicyRecord
limited = record {
  active = true;
  quota_units = some (pos 10);
  period_days = some (pos 30);
  expires_on = some 739000;
}

evaluate_iff_example : (evaluate (some limited) (some (pos 9)) 739000).allowed ≡ true
evaluate_iff_example =
    (evaluate_iff (some limited) (some (pos 9)) 739000).1
      (limited, refl, (refl, omega arith, (omega arith, omega arith)))

abbrev no_faults : Faults
no_faults = record { policy = false; usage = false }

abbrev granted : Decision
granted = record {
  allowed = true;
  reason = within_policy;
  used_in_period = some (pos 0);
  quota_units = some (pos 10);
  expires_on = none;
}

-- An instant in 2023, in microseconds since the start of the year 1.
abbrev now : ℕ
now = 63835596800000000

granted_lem : decide no_faults db meter 738000 now ≡ ok granted
unfolding decide load_policy record_of load_expiry lookup str_eq decide_loaded used_for
    usage_in_period days_before usage_since newest evaluate evaluate_record evaluate_quota
granted_lem = refl

licensed_lem : get_license no_faults db meter 738000 now ≡ ok granted
unfolding get_license license_of decide load_policy record_of load_expiry lookup str_eq
    decide_loaded used_for usage_in_period days_before usage_since newest evaluate evaluate_record
    evaluate_quota
licensed_lem = refl

get_license-IsGranted_example :
    ((d : DeviceRecord) × (lookup meter db.devices ≡ some d))
    × IsGranted no_faults db meter 738000 now
get_license-IsGranted_example =
    get_license-IsGranted no_faults db meter 738000 now granted licensed_lem refl

-- A period of about 2700 years.
abbrev far_back : PolicyRow
far_back = record Example.policy { period_days = some (pos 1000000) }

abbrev far_db : Database
far_db = record db { policies = (meter, far_back) ∷ [] }

far_found : lookup meter far_db.policies ≡ some far_back
unfolding lookup str_eq
far_found = refl

decide_raises_example : decide no_faults far_db meter 738000 now ≡ err overflow_error
decide_raises_example =
    decide_raises far_db meter far_back (pos 10) 1000000 738000 now far_found refl refl refl
      (omega arith)

abbrev rows : List ReportRow
rows = row_of (Example.report 5 2) [] ∷ row_of (Example.report 3 1) [] ∷ []

rows-IsHistory : IsHistory rows
unfolding str_eq
rows-IsHistory = omega arith

usage_lem : usage_in_period db meter (pos 30) now ≡ ok (pos 0)
unfolding usage_in_period days_before usage_since newest
usage_lem = refl

-- The cutoff of a period that ends 300 seconds after the reports' window starts.
abbrev cutoff : ℕ
cutoff = 63835597100000000

year_lem : year_of cutoff ≡ 2023
unfolding year_of ord2ymd
year_lem = refl
