-- ===== src/Backend/Policy.antt =====
-- backend/policy.py: a licence decision from the policy row and the usage in the rolling period.
-- A date is its ordinal, an instant its microseconds since the start of the year 1, in UTC.
pub mod Closed
pub mod Usage
pub mod Cutoff
mod Tests
use ble_usage_meter.Common.{
  ℕ, zero, suc, ◌+◌, ◌-◌, ◌*◌, ◌/◌, ◌%◌, ◌<◌, Str, List, [], ◌∷◌, ◌++◌, Bool, true, false, not,
  ◌&&◌, ◌||◌, Option, none, some, Result, ok, err, value_error, overflow_error, ◌>>=◌, ◌>>◌,
  raise_if, ltb, leb, eqb, if◌then◌else◌, str_is_eq, ◌==◌,
}
use ble_usage_meter.Common.Int.{ℤ, pos, negsuc, pos_part, ◌+ℤ◌, ◌-ℤ◌, ltb_ℤ, leb_ℤ, eqb_ℤ, max_ℤ}
use ble_usage_meter.Common.Dict.{lookup}
use ble_usage_meter.Common.Calendar.{iso_seconds, strftime_z, pad2, pad6}
use ble_usage_meter.Common.IsoDate.{date_fromisoformat}
use ble_usage_meter.Backend.TimeText.{isoformat, text_lt}
use ble_usage_meter.Backend.Models.{DateTime, min_wall}
use ble_usage_meter.Backend.Db.{Database, ReportRow, PolicyRow}

pub data Reason : Type 0 where
  within_policy no_policy_on_record not_activated expired quota_exceeded policy_unevaluable : Reason

pub record PolicyRecord : Type 0 where
  pub active : Bool
  pub quota_units : Option ℤ
  pub period_days : Option ℤ
  pub expires_on : Option ℕ

pub record Decision : Type 0 where
  pub allowed : Bool
  pub reason : Reason
  pub used_in_period : Option ℤ
  pub quota_units : Option ℤ
  pub expires_on : Option ℕ

-- `Decision(False, reason)`
abbrev pub deny : Reason → Decision
deny r = record {
  allowed = false;
  reason = r;
  used_in_period = none;
  quota_units = none;
  expires_on = none;
}

-- `date.fromisoformat(text) if text else None`; a text that is no date raises.
unfoldable pub load_expiry : Option Str → Result (Option ℕ)
load_expiry none = ok none
load_expiry (some []) = ok none
load_expiry (some (c ∷ s)) = elim (date_fromisoformat (c ∷ s)) [
  | none ↦ err value_error
  | some d ↦ ok (some d)
]

unfoldable pub record_of : PolicyRow → Result (Option PolicyRecord)
record_of row = do
  expires ← load_expiry row.expires_on
  ok (
      some (record {
        active = not (eqb_ℤ row.active (pos 0));
        quota_units = row.quota_units;
        period_days = row.period_days;
        expires_on = expires;
      }))

unfoldable pub load_policy : Database → Str → Result (Option PolicyRecord)
load_policy db device_id = elim (lookup device_id db.policies) [
  | none ↦ ok none
  | some row ↦ record_of row
]

-- The decision on a quota, for a device that is active and not expired.
unfoldable pub evaluate_quota : PolicyRecord → ℤ → Option ℤ → Decision
evaluate_quota policy quota used =
    let unevaluable = record (deny policy_unevaluable) { quota_units = some quota } in
    if (elim policy.period_days [ none ↦ true | some p ↦ leb_ℤ p (pos 0) ])
    then unevaluable
    else elim used [
      | none ↦ unevaluable
      | some u ↦
          if leb_ℤ quota u
          then record {
            allowed = false;
            reason = quota_exceeded;
            used_in_period = some u;
            quota_units = some quota;
            expires_on = policy.expires_on;
          }
          else record {
            allowed = true;
            reason = within_policy;
            used_in_period = some u;
            quota_units = some quota;
            expires_on = policy.expires_on;
          }
    ]

abbrev pub is_past : ℕ → Option ℕ → Bool
is_past today none = false
is_past today (some d) = ltb d today

unfoldable pub evaluate_record : PolicyRecord → Option ℤ → ℕ → Decision
evaluate_record policy used today =
    if not policy.active
    then record (deny not_activated) { expires_on = policy.expires_on }
    else if is_past today policy.expires_on
    then record (deny expired) { expires_on = policy.expires_on }
    else elim policy.quota_units [
      | some quota ↦ evaluate_quota policy quota used
      | none ↦ record {
        allowed = true;
        reason = within_policy;
        used_in_period = none;
        quota_units = none;
        expires_on = policy.expires_on;
      }
    ]

unfoldable pub evaluate : Option PolicyRecord → Option ℤ → ℕ → Decision
evaluate none used today = deny no_policy_on_record
evaluate (some policy) used today = evaluate_record policy used today

-- `now - timedelta(days=n)`, in the years 1 to 9999.
unfoldable pub days_before : ℕ → ℤ → Result ℕ
days_before now (pos n) =
    if ltb 999999999 n || ltb now (n * 86400000000)
    then err overflow_error
    else ok (now - n * 86400000000)
days_before now (negsuc n) =
    let t = now + suc n * 86400000000 in
    if ltb 999999999 (suc n) || leb 315537897600000000 t then err overflow_error else ok t

-- The row of a device with the greatest sequence, among those that pass a test.
unfoldable pub newest : (ReportRow → Bool) → Str → List ReportRow → Option ReportRow
newest keep device_id [] = none
newest keep device_id (r ∷ rs) =
    let rest = newest keep device_id rs in
    if r.device_id == device_id && keep r
    then elim rest [
      | none ↦ some r
      | some q ↦ if ltb_ℤ r.sequence q.sequence then some q else some r
    ]
    else rest

unfoldable pub ended_before : Str → ReportRow → Bool
ended_before cutoff r = text_lt (isoformat r.window_end) cutoff

abbrev pub count_or_zero : Option ReportRow → ℤ
count_or_zero none = pos 0
count_or_zero (some r) = r.count

-- The usage against a cutoff: the newest count less the newest one from before.
unfoldable pub usage_since : List ReportRow → Str → Str → ℤ
usage_since rows device_id cutoff = elim (newest (λ _. true) device_id rows) [
  | none ↦ pos 0
  | some latest ↦
      max_ℤ (pos 0) (latest.count -ℤ count_or_zero (newest (ended_before cutoff) device_id rows))
]

unfoldable pub usage_in_period : Database → Str → ℤ → ℕ → Result ℤ
usage_in_period db device_id period_days now = do
  cutoff ← days_before now period_days
  ok (usage_since db.usage_reports device_id (strftime_z cutoff))

-- Which of the two reads of `decide` the database fails, with a `sqlite3.Error`.
pub record Faults : Type 0 where
  pub policy : Bool
  pub usage : Bool

-- `decide`'s `used`: computed for a quota with a period other than 0.
unfoldable pub used_for : Faults → Database → Str → Option PolicyRecord → ℕ → Result (Option ℤ)
used_for faults db device_id none now = ok none
used_for faults db device_id (some p) now = elim p.quota_units [
  | none ↦ ok none
  | some q ↦ elim p.period_days [
    | none ↦ ok none
    | some n ↦
        if eqb_ℤ n (pos 0) || faults.usage
        then ok none
        else (do used ← usage_in_period db device_id n now; ok (some used))
  ]
]

-- `except` around `load_policy`: every exception that it can raise is denied.
unfoldable pub decide_loaded :
    Faults → Database → Str → Result (Option PolicyRecord) → ℕ → ℕ → Result Decision
decide_loaded faults db device_id (err e) today now = ok (deny policy_unevaluable)
decide_loaded faults db device_id (ok policy) today now = do
  used ← used_for faults db device_id policy now
  ok (evaluate policy used today)

unfoldable pub decide : Faults → Database → Str → ℕ → ℕ → Result Decision
decide faults db device_id today now =
    if faults.policy
    then ok (deny policy_unevaluable)
    else decide_loaded faults db device_id (load_policy db device_id) today now
