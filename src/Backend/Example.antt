-- ===== src/Backend/Example.antt =====
-- Test data: a registered device, and two reports of it as the gateway signs them.
use ble_usage_meter.Common.{
  ℕ, ◌*◌, Str, Bytes, text, [], ◌∷◌, none, some, Result, ok, err, ◌≡◌, refl, arith, str_is_eq,
  str_eq,
}
use ble_usage_meter.Common.Int.{◌-ℤ◌, pos, negsuc}
use ble_usage_meter.Common.Dict.{lookup}
use ble_usage_meter.Common.Base64.{b64encode}
use ble_usage_meter.Common.BigEndian.{pack_int, pack_four, big_endian, read_big_endian}
use ble_usage_meter.Common.Utf8.{utf8, utf8_char}
use ble_usage_meter.Common.Ed25519.{toy, toy_public}
use ble_usage_meter.Gateway.Signer
use ble_usage_meter.Gateway.Signer.{ReportTuple}
use ble_usage_meter.Backend.Models.{
  DateTime, UsageReport, DeviceRecord, canonical_unix_seconds, to_utc, whole_seconds,
}
use ble_usage_meter.Backend.Db.{Database, PolicyRow}
use ble_usage_meter.Backend.Verify.Signed.{IsAuthentic, IsFresh, verify_report_iff}
use ble_usage_meter.Backend.Verify.{accepted, fetch_device, verify_report}
use ble_usage_meter.Backend.Verify.Origin.{gateway_report-IsAuthentic}
use ble_usage_meter.Backend.App.History.{IsConsistent}

abbrev pub meter : Str
meter = text "meter"

abbrev pub private_key : Bytes
private_key = 7 ∷ 9 ∷ []

-- An instant in 2023, as a datetime in UTC.
abbrev pub at : ℕ → DateTime
at seconds = record { wall = pos (seconds * 1000000); utcoffset = some (pos 0) }

-- What the gateway counts in one window.
abbrev pub tuple : ℕ → ℕ → ReportTuple
tuple count sequence = record {
  device_id = meter;
  count = pos count;
  sequence = pos sequence;
  window_start = pos 1700000000;
  window_end = pos 1700000300;
}

abbrev signature_of : Result Bytes → Bytes
signature_of (ok sig) = sig
signature_of (err e) = []

abbrev pub signed : ℕ → ℕ → Bytes
signed count sequence = signature_of (Signer.sign toy private_key (tuple count sequence))

abbrev pub report : ℕ → ℕ → UsageReport
report count sequence = record {
  device_id = meter;
  count = pos count;
  sequence = pos sequence;
  window_start = at 1700000000;
  window_end = at 1700000300;
  signature = b64encode (signed count sequence);
}

-- A row whose device has not reported yet.
abbrev pub device : DeviceRecord
device = record {
  public_key = b64encode (toy_public private_key);
  label = none;
  registered_at = [];
  last_accepted_sequence = negsuc 0;
  last_accepted_count = pos 0;
}

abbrev pub policy : PolicyRow
policy = record {
  active = pos 1;
  quota_units = some (pos 10);
  period_days = some (pos 30);
  expires_on = none;
}

abbrev pub db : Database
db = record { devices = (meter, device) ∷ []; usage_reports = []; policies = (meter, policy) ∷ [] }

pub db-IsConsistent : IsConsistent db
unfolding lookup
db-IsConsistent = record { history = tt; marked = λ id d h. ground arith; known = λ id h. refl }

pub signed_first : Signer.sign toy private_key (tuple 3 1) ≡ ok (signed 3 1)
unfolding Signer.sign Signer.canonical_bytes Signer.domain utf8 utf8_char pack_int pack_four
    big_endian read_big_endian
signed_first = refl

pub signed_second : Signer.sign toy private_key (tuple 5 2) ≡ ok (signed 5 2)
unfolding Signer.sign Signer.canonical_bytes Signer.domain utf8 utf8_char pack_int pack_four
    big_endian read_big_endian
signed_second = refl

pub starts_at : canonical_unix_seconds (at 1700000000) ≡ ok (pos 1700000000)
unfolding canonical_unix_seconds to_utc whole_seconds ◌-ℤ◌
starts_at = refl

pub ends_at : canonical_unix_seconds (at 1700000300) ≡ ok (pos 1700000300)
unfolding canonical_unix_seconds to_utc whole_seconds ◌-ℤ◌
ends_at = refl

pub report_of :
    (count sequence : ℕ)
    → Signer.sign toy private_key (tuple count sequence) ≡ ok (signed count sequence)
    → IsAuthentic toy device (report count sequence)
report_of count sequence h =
    gateway_report-IsAuthentic toy private_key device (report count sequence) (pos 1700000000)
      (pos 1700000300) (signed count sequence) refl starts_at ends_at h refl

pub is_fresh : (count sequence : ℕ) → IsFresh device (report count sequence)
is_fresh count sequence = record { sequence = omega arith; count = omega arith }

pub found : lookup meter db.devices ≡ some device
unfolding lookup str_eq
found = refl

pub passes_first : verify_report toy db (report 3 1) ≡ ok accepted
unfolding fetch_device
passes_first =
    (verify_report_iff toy db (report 3 1)).1
      (device, found, report_of 3 1 signed_first, is_fresh 3 1)

pub passes_second : verify_report toy db (report 5 2) ≡ ok accepted
unfolding fetch_device
passes_second =
    (verify_report_iff toy db (report 5 2)).1
      (device, found, report_of 5 2 signed_second, is_fresh 5 2)

-- The first report with the same instants on the clock of another zone.
abbrev pub other_zone : UsageReport
other_zone = record (report 3 1) {
  window_start = record { wall = pos 1700003600000000; utcoffset = some (pos 3600000000) };
}
