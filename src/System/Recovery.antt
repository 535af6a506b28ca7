-- ===== src/System/Recovery.antt =====
-- The window after one whose report was given up (the end of `post` in gateway/reporter.py).
use ble_usage_meter.Common.{
  ℕ, ◌≡◌, ◌⊎◌, inl, inr, refl, sym, ap, subst, ◌∙◌, ◌&&◌, Str, true, some, some-eq, str_is_eq,
  ==-refl,
}
use ble_usage_meter.Common.Int.{◌≤ℤ◌, ◌<ℤ◌}
use ble_usage_meter.Common.Dict.{lookup, lookup-insert}
use ble_usage_meter.Common.Ed25519.{Ed25519}
use ble_usage_meter.Backend.Models.{UsageReport, DeviceRecord}
use ble_usage_meter.Backend.Db.{Database}
use ble_usage_meter.Backend.Verify.Signed.{IsAuthentic, IsFresh}
use ble_usage_meter.Backend.App.{status_of, is_int64, append_report, advanced}
use ble_usage_meter.Backend.App.History.{IsConsistent, append_report-IsConsistent}
use ble_usage_meter.Backend.App.Accept.{post_report_accepts}
use ble_usage_meter.System.{answer, Fate, backend}
use ble_usage_meter.System.Once.{IsStored, backend_once}

-- The marks do not matter for a signature.
advanced-IsAuthentic :
    (scheme : Ed25519) (d : DeviceRecord) (report later : UsageReport)
    → IsAuthentic scheme d later
    → IsAuthentic scheme (advanced d report) later
advanced-IsAuthentic scheme d report later a = record {
  key = a.key;
  sig = a.sig;
  message = a.message;
  loads = a.loads;
  decodes = a.decodes;
  serialises = a.serialises;
  verifies = a.verifies;
}

advanced_device :
    (db : Database) (d : DeviceRecord) (report : UsageReport) (now : Str)
    → lookup report.device_id (append_report db d report now).devices ≡ some (advanced d report)
unfolding append_report
advanced_device db d report now =
    lookup-insert report.device_id report.device_id (advanced d report) db.devices
    ∙ rw (==-refl report.device_id) refl

module _ (scheme : Ed25519) (report later : UsageReport) (db : Database) (d : DeviceRecord)
    (c : IsConsistent db) (found : lookup report.device_id db.devices ≡ some d)
    (same_device : later.device_id ≡ report.device_id) (authentic : IsAuthentic scheme d later)
    (fresh : IsFresh d later) (above : report.sequence <ℤ later.sequence)
    (no_less : report.count ≤ℤ later.count)
    (fits : (is_int64 later.count && is_int64 later.sequence) ≡ true) where
  -- A device that takes the later report as fresh, in a consistent database.
  abbrev Takes : Database → Type 0
  Takes db' =
      IsConsistent db'
      × ((d' : DeviceRecord) × (lookup later.device_id db'.devices ≡ some d')
          × IsAuthentic scheme d' later
          × IsFresh d' later)

  before-Takes : Takes db
  before-Takes = (c, (d, ap (λ id. lookup id db.devices) same_device ∙ found, authentic, fresh))

  stored-Takes : (db' : Database) → IsStored scheme report db db' → Takes db'
  stored-Takes db' s =
      let same : d ≡ s.device = some-eq (sym found ∙ s.found) in
      subst Takes (sym s.same) (
        append_report-IsConsistent c s.device report s.now s.found s.fresh,
        (
          advanced s.device report,
          ap (λ id. lookup id (append_report db s.device report s.now).devices) same_device
              ∙ advanced_device db s.device report s.now,
          advanced-IsAuthentic scheme s.device report later
              (subst (λ e. IsAuthentic scheme e later) same authentic),
          record { sequence = above; count = no_less },
        ),
      )

  still-Takes : (db' : Database) → (db' ≡ db) ⊎ IsStored scheme report db db' → Takes db'
  still-Takes db' (inl unchanged) = subst Takes (sym unchanged) before-Takes
  still-Takes db' (inr stored) = stored-Takes db' stored

  -- Whatever became of a report's requests: the next report of its device, with a greater sequence and a
  -- count that is not lower, is answered with 200 and stored, if the backend would have taken it without
  -- the first one. So the count of a window that was given up arrives with the next one.
  pub next_report_accepted :
      (fates : ℕ → Fate) (now : ℕ → Str) (n : ℕ) (at : Str)
      → let before = backend (answer scheme report) fates now db n in
        (d' : DeviceRecord) × (lookup later.device_id before.devices ≡ some d')
        × (answer scheme later at before ≡ (200, append_report before d' later at))
  next_report_accepted fates now n at =
      let before = backend (answer scheme report) fates now db n in
      let (consistent, (d', at_device, signed, new)) =
        still-Takes before (backend_once scheme report fates now db n) in
      (
        d',
        at_device,
        ap (λ x. (status_of x.0, x.1))
            (post_report_accepts scheme before d' later at consistent at_device signed new fits),
      )
