-- ===== src/Backend/App/Accept.antt =====
-- backend/app.py: which reports `post_report` takes.
use ble_usage_meter.Common.{
  Str, Bytes, true, false, ◌≡◌, refl, ◌&&◌, some, ok, arith, str_is_eq, Bool-cases, inl, inr,
}
use ble_usage_meter.Common.Int.{ℤ, ◌<ℤ◌}
use ble_usage_meter.Common.Dict.{lookup}
use ble_usage_meter.Common.Base64.{b64encode}
use ble_usage_meter.Common.Ed25519.{Ed25519}
use ble_usage_meter.Gateway.Signer
use ble_usage_meter.Backend.Models.{UsageReport, DeviceRecord, canonical_unix_seconds}
use ble_usage_meter.Backend.Models.Agreement.{tuple_of}
use ble_usage_meter.Backend.Db.{Database}
use ble_usage_meter.Backend.Verify.{fetch_device}
use ble_usage_meter.Backend.Verify.Signed.{IsAuthentic, IsFresh, verify_report_iff}
use ble_usage_meter.Backend.Verify.Origin.{gateway_report-IsAuthentic}
use ble_usage_meter.Backend.App.{
  report_accepted, is_int64, has_sequence, append_report, store_report, post_verified, post_report,
}
use ble_usage_meter.Backend.App.History.{IsConsistent, has_sequence-le}

-- A sequence above the device's mark is not stored yet.
pub fresh-new :
    (db : Database) (d : DeviceRecord) (r : UsageReport)
    → IsConsistent db
    → lookup r.device_id db.devices ≡ some d
    → d.last_accepted_sequence <ℤ r.sequence
    → has_sequence r.device_id r.sequence db.usage_reports ≡ false
fresh-new db d r c found above =
    elim (Bool-cases (has_sequence r.device_id r.sequence db.usage_reports)) [
      | inr new ↦ new
      | inl old ↦ absurd (
          ground (
            arith,
            (c.marked r.device_id d found).0,
            has_sequence-le r.device_id r.sequence db.usage_reports c.history old,
          ))
    ]

-- A new sequence of a known device is stored.
pub store_report-append :
    (db : Database) (d : DeviceRecord) (r : UsageReport) (now : Str)
    → lookup r.device_id db.devices ≡ some d
    → (is_int64 r.count && is_int64 r.sequence) ≡ true
    → has_sequence r.device_id r.sequence db.usage_reports ≡ false
    → store_report db r now
      ≡ (ok (report_accepted r.device_id r.sequence r.count), append_report db d r now)
unfolding store_report
store_report-append db d r now found fits new = rw (found, fits, new) refl

-- In a consistent database an authentic report with a new sequence and a count that has not fallen,
-- both of 64 bits, is answered with `accepted` and appended, and the device's marks move to it.
pub post_report_accepts :
    (scheme : Ed25519) (db : Database) (d : DeviceRecord) (r : UsageReport) (now : Str)
    → IsConsistent db
    → lookup r.device_id db.devices ≡ some d
    → IsAuthentic scheme d r
    → IsFresh d r
    → (is_int64 r.count && is_int64 r.sequence) ≡ true
    → post_report scheme db r now
      ≡ (ok (report_accepted r.device_id r.sequence r.count), append_report db d r now)
unfolding post_report post_verified fetch_device
post_report_accepts scheme db d r now c found authentic fresh fits =
    rw ((verify_report_iff scheme db r).1 (d, found, authentic, fresh))
      (store_report-append db d r now found fits (fresh-new db d r c found fresh.sequence))

-- End to end: a report that the gateway signs for a device registered with the gateway's public key
-- is stored in a consistent database, if its sequence is new, its count has not fallen, and both have
-- 64 bits.
pub gateway_report_accepted :
    (scheme : Ed25519) (private_key : Bytes) (db : Database) (d : DeviceRecord) (r : UsageReport)
    (now : Str) (start end : ℤ) (sig : Bytes)
    → IsConsistent db
    → lookup r.device_id db.devices ≡ some d
    → d.public_key ≡ b64encode (scheme.public_of private_key)
    → canonical_unix_seconds r.window_start ≡ ok start
    → canonical_unix_seconds r.window_end ≡ ok end
    → Signer.sign scheme private_key (tuple_of r start end) ≡ ok sig
    → r.signature ≡ b64encode sig
    → IsFresh d r
    → (is_int64 r.count && is_int64 r.sequence) ≡ true
    → post_report scheme db r now
      ≡ (ok (report_accepted r.device_id r.sequence r.count), append_report db d r now)
gateway_report_accepted scheme private_key db d r now start end sig c found hk hs he hsig hr fresh
      fits =
    post_report_accepts scheme db d r now c found
      (gateway_report-IsAuthentic scheme private_key d r start end sig hk hs he hsig hr) fresh fits
