-- ===== src/Backend/Verify.antt =====
-- backend/verify.py: a report is authenticated, then judged for freshness, then for monotonicity.
pub mod Signed
pub mod Origin
mod Tests
use ble_usage_meter.Common.{
  ℕ, Str, Bytes, Bool, true, false, not, Option, none, some, Result, ok, err, value_error, ◌>>=◌,
  ◌>>◌, raise_if, length, eqb, if◌then◌else◌, str_is_eq,
}
use ble_usage_meter.Common.Int.{ℤ, ltb_ℤ, leb_ℤ}
use ble_usage_meter.Common.Dict.{lookup}
use ble_usage_meter.Common.Base64.{b64decode}
use ble_usage_meter.Common.Ed25519.{Ed25519}
use ble_usage_meter.Backend.Models.{UsageReport, DeviceRecord, canonical_bytes}
use ble_usage_meter.Backend.Db.{Database}

-- The rejection codes.
pub data Code : Type 0 where
  unknown_device bad_signature bad_signature_encoding bad_registered_key replay count_rollback :
      Code

-- `VerifyResult`: `ok`, or the code of the rejection. The detail is left out.
pub data VerifyResult : Type 0 where
  accepted : VerifyResult
  rejected : Code → VerifyResult

-- A later check is made only where the earlier one passed.
infixl 6 ◌then◌
abbrev pub ◌then◌ : Result VerifyResult → Result VerifyResult → Result VerifyResult
(ok accepted) then k = k
(ok (rejected c)) then k = ok (rejected c)
(err e) then k = err e

-- The raw key. `from_public_bytes` takes any 32 bytes.
unfoldable pub load_public_key : Str → Result Bytes
load_public_key b64_key = do
  raw ← b64decode b64_key
  raise_if (not (eqb (length raw) 32)) value_error
  ok raw

unfoldable pub check_sequence : UsageReport → ℤ → VerifyResult
check_sequence report last = if leb_ℤ report.sequence last then rejected replay else accepted

unfoldable pub check_count_monotonic : UsageReport → ℤ → VerifyResult
check_count_monotonic report last =
    if ltb_ℤ report.count last then rejected count_rollback else accepted

unfoldable pub fetch_device : Database → Str → Option DeviceRecord
fetch_device db device_id = lookup device_id db.devices

module _ (scheme : Ed25519) where
  -- The last step of `check_signature`: what `canonical_bytes` raises is no `InvalidSignature`, and
  -- goes up.
  unfoldable pub check_message : UsageReport → Bytes → Bytes → Result VerifyResult
  check_message report pub_key sig = do
    message ← canonical_bytes report
    ok (if scheme.accepts pub_key sig message then accepted else rejected bad_signature)

  unfoldable pub check_decoded : UsageReport → Bytes → Result Bytes → Result VerifyResult
  check_decoded report pub_key (err e) = ok (rejected bad_signature_encoding)
  check_decoded report pub_key (ok sig) = check_message report pub_key sig

  unfoldable pub check_loaded : UsageReport → Result Bytes → Result VerifyResult
  check_loaded report (err e) = ok (rejected bad_registered_key)
  check_loaded report (ok pub_key) = check_decoded report pub_key (b64decode report.signature)

  unfoldable pub check_signature : UsageReport → Str → Result VerifyResult
  check_signature report public_key_b64 = check_loaded report (load_public_key public_key_b64)

  -- The checks against the row of the device.
  unfoldable pub verify_with : UsageReport → Option DeviceRecord → Result VerifyResult
  verify_with report none = ok (rejected unknown_device)
  verify_with report (some device) =
      check_signature report device.public_key
      then ok (check_sequence report device.last_accepted_sequence)
      then ok (check_count_monotonic report device.last_accepted_count)

  unfoldable pub verify_report : Database → UsageReport → Result VerifyResult
  verify_report db report = verify_with report (fetch_device db report.device_id)
