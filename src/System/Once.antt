-- ===== src/System/Once.antt =====
-- What a report that is sent several times does to the tables of the backend (gateway/reporter.py,
-- backend/app.py).
use ble_usage_meter.Common.{
  ℕ, zero, suc, ◌≡◌, ◌⊎◌, inl, inr, refl, sym, subst, Str, some, Result, ok, err, arith, str_is_eq,
  str_eq_iff,
}
use ble_usage_meter.Common.Dict.{lookup, lookup-insert}
use ble_usage_meter.Common.Ed25519.{Ed25519}
use ble_usage_meter.Backend.Models.{UsageReport, DeviceRecord}
use ble_usage_meter.Backend.Db.{Database}
use ble_usage_meter.Backend.Verify.{VerifyResult, accepted, rejected, verify_report}
use ble_usage_meter.Backend.Verify.Signed.{IsFresh, verify_report-IsFresh}
use ble_usage_meter.Backend.App.{append_report, post_verified, post_report, advanced}
use ble_usage_meter.Backend.App.History.{store_report-cases}
use ble_usage_meter.System.{answer, Fate, lost_request, lost_response, arrives, send, backend}

module _ (scheme : Ed25519) (report : UsageReport) where
  -- A request leaves the tables alone or appends a fresh report.
  abbrev Effect : Str → Database → Database → Type 0
  Effect now db db' =
      (db' ≡ db)
      ⊎ ((d : DeviceRecord) × (lookup report.device_id db.devices ≡ some d)
          × IsFresh d report
          × (db' ≡ append_report db d report now))

  post_verified-Effect :
      (db : Database) (now : Str) (verdict : Result VerifyResult)
      → verify_report scheme db report ≡ verdict
      → Effect now db (post_verified db report now verdict).1
  unfolding post_verified
  post_verified-Effect db now (err e) h = inl refl
  post_verified-Effect db now (ok (rejected code)) h = inl refl
  post_verified-Effect db now (ok accepted) h = elim (store_report-cases db report now) [
    | inl e ↦ inl e
    | inr (d, found, e) ↦ inr (d, found, verify_report-IsFresh scheme db report d h found, e)
  ]

  pub post_report-Effect :
      (db : Database) (now : Str) → Effect now db (post_report scheme db report now).1
  unfolding post_report
  post_report-Effect db now = post_verified-Effect db now (verify_report scheme db report) refl

  pub send-Effect :
      (fate : Fate) (now : Str) (db : Database)
      → Effect now db (send (answer scheme report) fate now db).1
  unfolding send
  send-Effect lost_request now db = inl refl
  send-Effect lost_response now db = post_report-Effect db now
  send-Effect arrives now db = post_report-Effect db now

  -- The report is in the tables, on top of what was there, and its device's marks are at it.
  pub record IsStored (db db' : Database) : Type 0 where
    pub device : DeviceRecord
    pub now : Str
    pub found : lookup report.device_id db.devices ≡ some device
    pub fresh : IsFresh device report
    pub same : db' ≡ append_report db device report now

  stored-row :
      (db db' : Database)
      → IsStored db db'
      → (d : DeviceRecord) → lookup report.device_id db'.devices ≡ some d
      → d.last_accepted_sequence ≡ report.sequence
  unfolding append_report
  stored-row db db' s d h =
      let e = rw s.same at h in
      ground (
        arith,
        e,
        lookup-insert report.device_id report.device_id (advanced s.device report) db.devices,
        str_eq_iff report.device_id report.device_id,
      )

  -- Sending a stored report again changes nothing.
  send-IsStored :
      (fate : Fate) (now : Str) (db db' : Database)
      → IsStored db db'
      → (send (answer scheme report) fate now db').1 ≡ db'
  send-IsStored fate now db db' s = elim (send-Effect fate now db') [
    | inl same ↦ same
    | inr (d, found, fresh, e) ↦ absurd (ground (arith, stored-row db db' s d found, fresh))
  ]

  one_more :
      (fate : Fate) (now : Str) (db before : Database)
      → (before ≡ db) ⊎ IsStored db before
      → ((send (answer scheme report) fate now before).1 ≡ db)
        ⊎ IsStored db (send (answer scheme report) fate now before).1
  one_more fate now db before (inr stored) =
      inr (subst (IsStored db) (sym (send-IsStored fate now db before stored)) stored)
  one_more fate now db before (inl same) = rw same (elim (send-Effect fate now db) [
    | inl still ↦ inl still
    | inr (d, found, fresh, e) ↦
        inr (record { device = d; now = now; found = found; fresh = fresh; same = e })
  ])

  -- However many attempts are made and whichever requests and responses are lost, the tables are as
  -- before, or have the report once, with its device's marks at it, and nothing else besides.
  pub backend_once :
      (fates : ℕ → Fate) (now : ℕ → Str) (db : Database) (n : ℕ)
      → (backend (answer scheme report) fates now db n ≡ db)
        ⊎ IsStored db (backend (answer scheme report) fates now db n)
  unfolding backend
  backend_once fates now db zero = inl refl
  backend_once fates now db (suc n) =
      one_more (fates (suc n)) (now (suc n)) db (backend (answer scheme report) fates now db n)
        (backend_once fates now db n)
