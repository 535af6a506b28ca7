-- ===== src/Backend/Wire.antt =====
-- backend/models.py: how the JSON object of a request becomes a report (`UsageReport`) or a registration
-- (`RegisterDeviceRequest`), and what backend/app.py answers to the object.
use ble_usage_meter.Common.{
  ℕ, Str, text, Bool, false, Option, none, some, Result, ok, err, value_error, ◌>>=◌, ◌>>◌,
  raise_if, length, ltb, ◌||◌, str_is_eq,
}
use ble_usage_meter.Common.Int.{ℤ}
use ble_usage_meter.Common.Dict.{Dict, lookup}
use ble_usage_meter.Common.Ed25519.{Ed25519}
use ble_usage_meter.Backend.Models.{DateTime, UsageReport, before, validate}
use ble_usage_meter.Backend.Db.{Database}
use ble_usage_meter.Backend.App.{RegisterDeviceRequest, status_of, post_report}

-- A value of a JSON object: a text, an integer, a null, or anything else, with its JSON text.
pub data Json : Type 0 where
  string : Str → Json
  integer : ℤ → Json
  null : Json
  other : Str → Json

-- What pydantic makes of a value for a field of a type; `none` is a validation error.
pub record Pydantic : Type 0 where
  pub read_str : Json → Option Str
  pub read_int : Json → Option ℤ
  pub read_datetime : Json → Option DateTime

-- `value_error` is a validation error, which is answered with 422.
unfoldable pub valid {ℓ} : {A : Type ℓ} → Option A → Result A
valid none = err value_error
valid (some a) = ok a

-- A required field: a missing key is a validation error as well.
unfoldable pub read_member {ℓ} : {A : Type ℓ} → (Json → Option A) → Option Json → Result A
read_member read none = err value_error
read_member read (some v) = valid (read v)

unfoldable pub required {ℓ} : {A : Type ℓ} → (Json → Option A) → Str → Dict Str Json → Result A
required read key body = read_member read (lookup key body)

module _ (p : Pydantic) where
  -- The fields of a report, before the tests that its model adds.
  unfoldable pub fields : Dict Str Json → Result UsageReport
  fields body = do
    device_id ← required p.read_str (text "device_id") body
    count ← required p.read_int (text "count") body
    sequence ← required p.read_int (text "sequence") body
    window_start ← required p.read_datetime (text "window_start") body
    window_end ← required p.read_datetime (text "window_end") body
    signature ← required p.read_str (text "signature") body
    ok (record {
      device_id = device_id;
      count = count;
      sequence = sequence;
      window_start = window_start;
      window_end = window_end;
      signature = signature;
    })

  -- `_window_ordered` runs where both instants are valid, whatever the other fields are. What it raises
  -- but a `ValueError` is no validation error and ends the validation.
  unfoldable pub compare_windows : Result DateTime → Result DateTime → Result Bool
  compare_windows (ok start) (ok stop) = before stop start
  compare_windows start stop = ok false

  -- `UsageReport` of an object.
  unfoldable pub parse_report : Dict Str Json → Result UsageReport
  parse_report body = do
    unordered ←
        compare_windows (required p.read_datetime (text "window_start") body)
          (required p.read_datetime (text "window_end") body)
    r ← fields body
    validate r

  -- `label`, which may be missing or null.
  unfoldable pub optional_label : Option Json → Result (Option Str)
  unfolding valid
  optional_label none = ok none
  optional_label (some null) = ok none
  optional_label (some v) = do s ← valid (p.read_str v); ok (some s)

  -- `RegisterDeviceRequest` of an object.
  unfoldable pub parse_registration : Dict Str Json → Result RegisterDeviceRequest
  parse_registration body = do
    device_id ← required p.read_str (text "device_id") body
    public_key ← required p.read_str (text "public_key") body
    label ← optional_label (lookup (text "label") body)
    raise_if (ltb (length device_id) 1 || (ltb 128 (length device_id) || ltb (length public_key) 1))
        value_error
    ok (record { device_id = device_id; public_key = public_key; label = label })

  -- The status of the answer to an object that is posted to `/reports`, and the tables after it.
  unfoldable pub receive_parsed : Ed25519 → Database → Str → Result UsageReport → ℕ × Database
  receive_parsed scheme db now (ok r) =
      (status_of (post_report scheme db r now).0, (post_report scheme db r now).1)
  receive_parsed scheme db now (err value_error) = (422, db)
  receive_parsed scheme db now (err e) = (500, db)

  unfoldable pub receive : Ed25519 → Dict Str Json → Str → Database → ℕ × Database
  receive scheme body now db = receive_parsed scheme db now (parse_report body)
