-- ===== src/Backend/App.antt =====
-- backend/app.py: the endpoints, as functions from the database to a response and the database after.
-- A request whose handler raises writes nothing: its transaction is never committed.
pub mod History
pub mod Replay
pub mod Accept
pub mod Concurrent
pub mod License
pub mod Bounded
mod Tests
use ble_usage_meter.Common.{
  ℕ, ◌+◌, suc, Str, Bytes, List, [], ◌∷◌, Bool, true, false, not, Option, none, some, Error, Result,
  ok, err, value_error, overflow_error, length, eqb, ◌&&◌, ◌||◌, if◌then◌else◌, str_is_eq, ◌==◌,
}
use ble_usage_meter.Common.Int.{ℤ, pos, negsuc, ltb_ℤ, eqb_ℤ}
use ble_usage_meter.Common.Dict.{lookup, insert}
use ble_usage_meter.Common.Base64.{b64decode}
use ble_usage_meter.Common.Ed25519.{Ed25519}
use ble_usage_meter.Backend.Models.{UsageReport, DeviceRecord}
use ble_usage_meter.Backend.Db.{Database, ReportRow}
use ble_usage_meter.Backend.Verify.{
  Code, unknown_device, bad_signature, bad_signature_encoding, bad_registered_key, replay,
  count_rollback, VerifyResult, accepted, rejected, verify_report,
}

-- The reason in a rejection's body: a code of verify.py, or one that only the endpoint gives.
pub data Reason : Type 0 where
  code : Code → Reason
  bad_public_key device_exists : Reason

-- `STATUS_FOR_CODE.get(code, 400)`
unfoldable pub status_for : Reason → ℕ
status_for (code unknown_device) = 404
status_for (code bad_signature) = 401
status_for (code bad_signature_encoding) = 400
status_for (code replay) = 409
status_for (code count_rollback) = 409
status_for _ = 400

pub data Response : Type 0 where
  registered : Str → Response
  report_accepted : Str → ℤ → ℤ → Response
  usage : Str → ℤ → ℤ → ℕ → Response
  rejection : ℕ → Reason → Response

unfoldable pub reject : Reason → Response
unfolding status_for
reject r = rejection (status_for r) r

pub record RegisterDeviceRequest : Type 0 where
  pub device_id : Str
  pub public_key : Str
  pub label : Option Str

abbrev pub new_device : RegisterDeviceRequest → Str → DeviceRecord
new_device req now = record {
  public_key = req.public_key;
  label = req.label;
  registered_at = now;
  last_accepted_sequence = negsuc 0;
  last_accepted_count = pos 0;
}

-- The INSERT into `devices`.
unfoldable pub add_device : Database → RegisterDeviceRequest → Str → Database
add_device db req now = record db { devices = insert req.device_id (new_device req now) db.devices }

-- Registration once the key has been decoded.
unfoldable pub register_decoded :
    Database → RegisterDeviceRequest → Str → Result Bytes → Response × Database
unfolding reject
register_decoded db req now (err e) = (reject bad_public_key, db)
register_decoded db req now (ok raw) =
    if not (eqb (length raw) 32)
    then (reject bad_public_key, db)
    else elim (lookup req.device_id db.devices) [
      | some d ↦ (reject device_exists, db)
      | none ↦ (registered req.device_id, add_device db req now)
    ]

unfoldable pub register_device : Database → RegisterDeviceRequest → Str → Response × Database
unfolding register_decoded
register_device db req now = register_decoded db req now (b64decode req.public_key)

-- SQLite's integers have 64 bits; the driver raises `OverflowError` for others.
abbrev pub is_int64 : ℤ → Bool
is_int64 z = not (ltb_ℤ z (negsuc 9223372036854775807) || ltb_ℤ (pos 9223372036854775807) z)

-- `UNIQUE (device_id, sequence)`: is there such a row?
unfoldable pub has_sequence : Str → ℤ → List ReportRow → Bool
has_sequence device_id sequence [] = false
has_sequence device_id sequence (r ∷ rs) =
    (r.device_id == device_id && eqb_ℤ r.sequence sequence) || has_sequence device_id sequence rs

abbrev pub row_of : UsageReport → Str → ReportRow
row_of r now = record {
  device_id = r.device_id;
  count = r.count;
  sequence = r.sequence;
  window_start = r.window_start;
  window_end = r.window_end;
  signature = r.signature;
  received_at = now;
}

-- The device's row with its marks moved to the report.
abbrev pub advanced : DeviceRecord → UsageReport → DeviceRecord
advanced d r = record d { last_accepted_sequence = r.sequence; last_accepted_count = r.count }

-- The INSERT into `usage_reports` and the UPDATE of the device's row.
unfoldable pub append_report : Database → DeviceRecord → UsageReport → Str → Database
append_report db d r now = record db {
  devices = insert r.device_id (advanced d r) db.devices;
  usage_reports = row_of r now ∷ db.usage_reports;
}

-- The transaction: INSERT, which the two constraints of the table can refuse, then UPDATE.
unfoldable pub store_report : Database → UsageReport → Str → Result Response × Database
unfolding reject
store_report db r now =
    if not (is_int64 r.count && is_int64 r.sequence)
    then (err overflow_error, db)
    else elim (lookup r.device_id db.devices) [
      | none ↦ (ok (reject (code replay)), db)
      | some d ↦
          if has_sequence r.device_id r.sequence db.usage_reports
          then (ok (reject (code replay)), db)
          else (ok (report_accepted r.device_id r.sequence r.count), append_report db d r now)
    ]

-- What follows the verification.
unfoldable pub post_verified :
    Database → UsageReport → Str → Result VerifyResult → Result Response × Database
unfolding reject
post_verified db r now (err e) = (err e, db)
post_verified db r now (ok (rejected c)) = (ok (reject (code c)), db)
post_verified db r now (ok accepted) = store_report db r now

unfoldable pub post_report : Ed25519 → Database → UsageReport → Str → Result Response × Database
post_report scheme db r now = post_verified db r now (verify_report scheme db r)

-- `SELECT COUNT(*) FROM usage_reports WHERE device_id = ?`
unfoldable pub count_reports : Str → List ReportRow → ℕ
count_reports device_id [] = 0
count_reports device_id (r ∷ rs) =
    (if r.device_id == device_id then 1 else 0) + count_reports device_id rs

unfoldable pub get_usage : Database → Str → Response
unfolding reject
get_usage db device_id = elim (lookup device_id db.devices) [
  | none ↦ reject (code unknown_device)
  | some d ↦
      usage device_id d.last_accepted_count d.last_accepted_sequence
        (count_reports device_id db.usage_reports)
]

-- The status of the answer; what a handler raises is answered with 500. A registration answers 201.
abbrev pub status_of : Result Response → ℕ
status_of (ok (rejection status reason)) = status
status_of (ok (registered device_id)) = 201
status_of (ok response) = 200
status_of (err e) = 500
