-- ===== src/System/Stored.antt =====
-- A report that the backend has stored: what is answered to it, and to the question for the usage.
use ble_usage_meter.Common.{
  suc, ◌≡◌, refl, ap, ◌∙◌, Str, some, ok, arith, str_is_eq, str_eq_iff, ==-refl,
}
use ble_usage_meter.Common.Dict.{lookup, lookup-insert}
use ble_usage_meter.Common.Ed25519.{Ed25519}
use ble_usage_meter.Backend.Models.{UsageReport, DeviceRecord}
use ble_usage_meter.Backend.Db.{Database}
use ble_usage_meter.Backend.Verify.{rejected, replay, verify_report, fetch_device}
use ble_usage_meter.Backend.Verify.Signed.{IsAuthentic, verify_with_stale}
use ble_usage_meter.Backend.App.{
  usage, count_reports, get_usage, code, reject, append_report, post_verified, post_report,
  advanced,
}

pub get_usage-found :
    (db : Database) (device_id : Str) (d : DeviceRecord)
    → lookup device_id db.devices ≡ some d
    → get_usage db device_id
      ≡ usage device_id d.last_accepted_count d.last_accepted_sequence
          (count_reports device_id db.usage_reports)
unfolding get_usage
get_usage-found db device_id d h = rw (h, get_usage) refl

counted_row :
    (db : Database) (d : DeviceRecord) (report : UsageReport) (now : Str)
    → count_reports report.device_id (append_report db d report now).usage_reports
      ≡ suc (count_reports report.device_id db.usage_reports)
unfolding append_report count_reports
counted_row db d report now = rw (==-refl report.device_id) (omega arith)

-- A device that has a report on top, and the answer to the same report again.
module _ (scheme : Ed25519) (db : Database) (d : DeviceRecord) (report : UsageReport)
    (now : Str) where
  abbrev pub stored_db : Database
  stored_db = append_report db d report now

  stored_device : lookup report.device_id stored_db.devices ≡ some (advanced d report)
  unfolding append_report
  stored_device =
      lookup-insert report.device_id report.device_id (advanced d report) db.devices
      ∙ rw ((str_eq_iff report.device_id report.device_id).1 refl) refl

  stored-IsAuthentic : IsAuthentic scheme d report → IsAuthentic scheme (advanced d report) report
  stored-IsAuthentic a = record {
    key = a.key;
    sig = a.sig;
    message = a.message;
    loads = a.loads;
    decodes = a.decodes;
    serialises = a.serialises;
    verifies = a.verifies;
  }

  -- What the backend answers for the device's usage.
  pub get_usage-stored :
      get_usage stored_db report.device_id
      ≡ usage report.device_id report.count report.sequence
          (suc (count_reports report.device_id db.usage_reports))
  get_usage-stored =
      get_usage-found stored_db report.device_id (advanced d report) stored_device
      ∙ ap (usage report.device_id report.count report.sequence) one_more_row
    where
      one_more_row :
          count_reports report.device_id stored_db.usage_reports
          ≡ suc (count_reports report.device_id db.usage_reports)
      one_more_row = counted_row db d report now

  verify_report-again :
      IsAuthentic scheme d report → verify_report scheme stored_db report ≡ ok (rejected replay)
  unfolding verify_report fetch_device
  verify_report-again a =
      rw stored_device (
        (verify_with_stale scheme (advanced d report) report (stored-IsAuthentic a)).0
          (omega arith))

  pub post_report-again :
      (later : Str)
      → IsAuthentic scheme d report
      → post_report scheme stored_db report later ≡ (ok (reject (code replay)), stored_db)
  unfolding post_report post_verified
  post_report-again later a = rw (verify_report-again a) refl
