-- ===== src/Backend/App/Bounded.antt =====
-- backend/app.py: a bound on what a device's accepted count can become.
use ble_usage_meter.Common.{
  Str, List, [], ◌∷◌, All, ◌≡◌, refl, sym, ap, subst, ◌∙◌, inl, inr, some, none, Option, Result, ok,
  err, Bool-cases, str_is_eq, str_eq_iff, ◌==◌, some-eq,
}
use ble_usage_meter.Common.Int.{ℤ, ◌≤ℤ◌}
use ble_usage_meter.Common.Dict.{lookup, lookup-insert}
use ble_usage_meter.Common.Base64.{b64decode}
use ble_usage_meter.Common.Ed25519.{Ed25519}
use ble_usage_meter.Backend.Models.{UsageReport, DeviceRecord}
use ble_usage_meter.Backend.Db.{Database}
use ble_usage_meter.Backend.Verify.{VerifyResult, accepted, rejected, verify_report, fetch_device}
use ble_usage_meter.Backend.Verify.Signed.{IsAuthentic, verify_report_iff}
use ble_usage_meter.Backend.App.{
  RegisterDeviceRequest, register_device, new_device, add_device, append_report, advanced,
  post_verified, post_report,
}
use ble_usage_meter.Backend.App.History.{register_decoded-cases, store_report-cases}
use ble_usage_meter.Backend.App.Replay.{Request, register, report, handle, serve}

module _ (scheme : Ed25519) (id key : Str) (bound : ℤ) where
  -- The device is registered with the key, and its accepted count is within the bound.
  abbrev pub IsBounded : Database → Type 0
  IsBounded db =
      (d : DeviceRecord) × (lookup id db.devices ≡ some d)
      × (d.public_key ≡ key)
      × (d.last_accepted_count ≤ℤ bound)

  -- What is authentic for the device under the key counts no more.
  abbrev pub Within : Request → Type 0
  Within (register req now) = Unit
  Within (report r now) =
      (d : DeviceRecord)
      → r.device_id ≡ id
      → d.public_key ≡ key
      → IsAuthentic scheme d r
      → r.count ≤ℤ bound

  add_device-IsBounded :
      (db : Database) (req : RegisterDeviceRequest) (now : Str)
      → lookup req.device_id db.devices ≡ none
      → IsBounded db
      → IsBounded (add_device db req now)
  unfolding add_device
  add_device-IsBounded db req now new (d, found, same_key, small) =
      elim (Bool-cases (req.device_id == id)) [
        | inl own ↦
            absurd (
              clash (ap (λ i. lookup i db.devices) ((str_eq_iff req.device_id id).0 own)) new found)
        | inr foreign ↦ (
          d,
          lookup-insert req.device_id id (new_device req now) db.devices ∙ rw foreign found,
          same_key,
          small,
        )
      ]
    where
      clash : {o p : Option DeviceRecord} → o ≡ p → o ≡ none → p ≡ some d → ⊥
      clash e h k = cc

  register-IsBounded :
      (db : Database) (req : RegisterDeviceRequest) (now : Str)
      → IsBounded db
      → IsBounded (register_device db req now).1
  unfolding register_device
  register-IsBounded db req now b =
      elim (register_decoded-cases db req now (b64decode req.public_key)) [
        | inl e ↦ rw e b
        | inr (new, e) ↦ rw e (add_device-IsBounded db req now new b)
      ]

  append_report-IsBounded :
      (db : Database) (d : DeviceRecord) (r : UsageReport) (now : Str)
      → lookup r.device_id db.devices ≡ some d
      → IsAuthentic scheme d r
      → Within (report r now)
      → IsBounded db
      → IsBounded (append_report db d r now)
  unfolding append_report
  append_report-IsBounded db d r now found authentic within (d', found', same_key, small) =
      elim (Bool-cases (r.device_id == id)) [
        | inl own ↦
            let same : r.device_id ≡ id = (str_eq_iff r.device_id id).0 own in
            let e : d ≡ d' = some-eq (sym found ∙ ap (λ i. lookup i db.devices) same ∙ found') in
            let key' = ap (λ x. x.public_key) e ∙ same_key in
            (
              advanced d r,
              lookup-insert r.device_id id (advanced d r) db.devices ∙ rw own refl,
              key',
              within d same key' authentic,
            )
        | inr foreign ↦ (
          d',
          lookup-insert r.device_id id (advanced d r) db.devices ∙ rw foreign found',
          same_key,
          small,
        )
      ]

  post_verified-IsBounded :
      (db : Database) (r : UsageReport) (now : Str) (verdict : Result VerifyResult)
      → verify_report scheme db r ≡ verdict
      → Within (report r now)
      → IsBounded db
      → IsBounded (post_verified db r now verdict).1
  unfolding post_verified fetch_device
  post_verified-IsBounded db r now (err e) h within b = b
  post_verified-IsBounded db r now (ok (rejected code)) h within b = b
  post_verified-IsBounded db r now (ok accepted) h within b = elim (store_report-cases db r now) [
    | inl e ↦ rw e b
    | inr (d, found, e) ↦
        let (d', found', authentic, _) = (verify_report_iff scheme db r).0 h in
        let same : d' ≡ d = some-eq (sym found' ∙ found) in
        rw e (
          append_report-IsBounded db d r now found
            (subst (λ x. IsAuthentic scheme x r) same authentic) within b)
  ]

  handle-IsBounded :
      (q : Request) (db : Database) → Within q → IsBounded db → IsBounded (handle scheme q db)
  unfolding handle post_report
  handle-IsBounded (register req now) db within b = register-IsBounded db req now b
  handle-IsBounded (report r now) db within b =
      post_verified-IsBounded db r now (verify_report scheme db r) refl within b

  -- A registered key stays the device's key, whatever is requested, and its accepted count stays within
  -- the bound where every posted report does that is authentic for the device under that key.
  pub serve-IsBounded :
      (qs : List Request) (db : Database)
      → All Within qs
      → IsBounded db
      → IsBounded (serve scheme qs db)
  unfolding serve
  serve-IsBounded [] db within b = b
  serve-IsBounded (q ∷ qs) db (w, within) b =
      serve-IsBounded qs (handle scheme q db) within (handle-IsBounded q db w b)
