-- ===== src/Backend/App/History.antt =====
-- The stored reports of a device and its high-water marks: an invariant of every request.
use ble_usage_meter.Common.{
  Str, List, [], ◌∷◌, true, ◌≡◌, refl, ◌⊎◌, none, some, Result, ok, err, ◌&&◌, if◌then◌else◌, arith,
  str_is_eq, ◌==◌, str_eq_iff, Option-cases, Bool-cases, inl, inr, Bytes,
}
use ble_usage_meter.Common.Int.{ℤ, pos, negsuc, ◌≤ℤ◌, ◌<ℤ◌, eqb_ℤ_iff}
use ble_usage_meter.Common.Dict.{lookup, lookup-insert}
use ble_usage_meter.Common.Base64.{b64decode}
use ble_usage_meter.Common.Ed25519.{Ed25519}
use ble_usage_meter.Backend.Models.{UsageReport, DeviceRecord}
use ble_usage_meter.Backend.Db.{Database, ReportRow}
use ble_usage_meter.Backend.Verify.{VerifyResult, accepted, rejected, verify_report}
use ble_usage_meter.Backend.Verify.Signed.{IsFresh, verify_report-IsFresh}
use ble_usage_meter.Backend.App.{
  RegisterDeviceRequest, new_device, add_device, append_report, register_decoded, register_device,
  is_int64, has_sequence, advanced, store_report, post_verified, post_report,
}

-- The sequence and the count of a device's newest stored report, or where a device starts.
abbrev pub marks : Str → List ReportRow → ℤ × ℤ
marks device_id [] = (negsuc 0, pos 0)
marks device_id (r ∷ rs) =
    if r.device_id == device_id then (r.sequence, r.count) else marks device_id rs

-- Each report has a sequence above, and a count not below, those of the device's report before it.
abbrev pub IsHistory : List ReportRow → Type 0
IsHistory [] = Unit
IsHistory (r ∷ rs) =
    ((marks r.device_id rs).0 <ℤ r.sequence) × ((marks r.device_id rs).1 ≤ℤ r.count) × IsHistory rs

-- The marks in a device's row are those of its newest report.
pub record IsConsistent (db : Database) : Type 0 where
  pub history : IsHistory db.usage_reports
  pub marked :
      (device_id : Str) (d : DeviceRecord)
      → lookup device_id db.devices ≡ some d
      → (d.last_accepted_sequence ≡ (marks device_id db.usage_reports).0)
        × (d.last_accepted_count ≡ (marks device_id db.usage_reports).1)
  -- `device_id … REFERENCES devices`
  pub known :
      (device_id : Str)
      → lookup device_id db.devices ≡ none
      → marks device_id db.usage_reports ≡ (negsuc 0, pos 0)

-- No stored sequence of a device is above its mark.
pub has_sequence-le :
    (device_id : Str) (s : ℤ) (rs : List ReportRow)
    → IsHistory rs
    → has_sequence device_id s rs ≡ true
    → s ≤ℤ (marks device_id rs).0
unfolding has_sequence
has_sequence-le device_id s [] h e = cc
has_sequence-le device_id s (r ∷ rs) h e = ground (
  arith,
  has_sequence-le device_id s rs h.2,
  eqb_ℤ_iff r.sequence s,
  str_eq_iff r.device_id device_id,
)

-- A request to register leaves the tables alone or adds a row for a new device.
pub register_decoded-cases :
    (db : Database) (req : RegisterDeviceRequest) (now : Str) (raw : Result Bytes)
    → ((register_decoded db req now raw).1 ≡ db)
      ⊎ ((lookup req.device_id db.devices ≡ none)
          × ((register_decoded db req now raw).1 ≡ add_device db req now))
unfolding register_decoded
register_decoded-cases db req now (err e) = inl refl
register_decoded-cases db req now (ok raw) = ground arith

-- Storing a report leaves the tables alone or appends it and moves its device's marks.
pub store_report-cases :
    (db : Database) (r : UsageReport) (now : Str)
    → ((store_report db r now).1 ≡ db)
      ⊎ ((d : DeviceRecord) × (lookup r.device_id db.devices ≡ some d)
          × ((store_report db r now).1 ≡ append_report db d r now))
unfolding store_report
store_report-cases db r now = elim (Option-cases (lookup r.device_id db.devices)) [
  | inl e ↦ inl (ground arith)
  | inr (d, e) ↦ elim (Bool-cases (has_sequence r.device_id r.sequence db.usage_reports)) [
    | inl dup ↦ inl (ground arith)
    | inr new ↦ elim (Bool-cases (is_int64 r.count && is_int64 r.sequence)) [
      | inl fits ↦ inr (d, e, ground arith)
      | inr big ↦ inl (ground arith)
    ]
  ]
]

module _ {db : Database} (c : IsConsistent db) where
  add_device-IsConsistent :
      (req : RegisterDeviceRequest) (now : Str)
      → lookup req.device_id db.devices ≡ none
      → IsConsistent (add_device db req now)
  unfolding add_device
  add_device-IsConsistent req now new = record {
    history = c.history;
    marked = λ id d h. ground (
      arith,
      lookup-insert req.device_id id (new_device req now) db.devices,
      str_eq_iff req.device_id id,
      c.marked id d,
      c.known id,
    );
    known = λ id h.
        ground (arith, lookup-insert req.device_id id (new_device req now) db.devices, c.known id);
  }

  pub append_report-IsConsistent :
      (d : DeviceRecord) (r : UsageReport) (now : Str)
      → lookup r.device_id db.devices ≡ some d
      → IsFresh d r
      → IsConsistent (append_report db d r now)
  unfolding append_report
  append_report-IsConsistent d r now e f = record {
    history = ground (arith, c.marked r.device_id d e, c.history);
    marked = λ id d' h. ground (
      arith,
      lookup-insert r.device_id id (advanced d r) db.devices,
      str_eq_iff r.device_id id,
      c.marked id d',
    );
    known = λ id h. ground (
      arith,
      lookup-insert r.device_id id (advanced d r) db.devices,
      str_eq_iff r.device_id id,
      c.known id,
    );
  }

  pub register_device-IsConsistent :
      (req : RegisterDeviceRequest) (now : Str) → IsConsistent (register_device db req now).1
  unfolding register_device
  register_device-IsConsistent req now =
      elim (register_decoded-cases db req now (b64decode req.public_key)) [
        | inl e ↦ rw e c
        | inr (new, e) ↦ rw e (add_device-IsConsistent req now new)
      ]

  store_report-IsConsistent :
      (r : UsageReport) (now : Str)
      → ((d : DeviceRecord) → lookup r.device_id db.devices ≡ some d → IsFresh d r)
      → IsConsistent (store_report db r now).1
  store_report-IsConsistent r now fresh = elim (store_report-cases db r now) [
    | inl e ↦ rw e c
    | inr (d, found, e) ↦ rw e (append_report-IsConsistent d r now found (fresh d found))
  ]

  -- The report that was verified is fresh for the row that the verification read.
  post_verified-IsConsistent :
      (scheme : Ed25519) (r : UsageReport) (now : Str) (verdict : Result VerifyResult)
      → verify_report scheme db r ≡ verdict
      → IsConsistent (post_verified db r now verdict).1
  unfolding post_verified
  post_verified-IsConsistent scheme r now (err e) h = c
  post_verified-IsConsistent scheme r now (ok (rejected code)) h = c
  post_verified-IsConsistent scheme r now (ok accepted) h =
      store_report-IsConsistent r now (λ d. verify_report-IsFresh scheme db r d h)

  pub post_report-IsConsistent :
      (scheme : Ed25519) (r : UsageReport) (now : Str)
      → IsConsistent (post_report scheme db r now).1
  unfolding post_report
  post_report-IsConsistent scheme r now =
      post_verified-IsConsistent scheme r now (verify_report scheme db r) refl
