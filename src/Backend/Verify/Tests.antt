-- ===== src/Backend/Verify/Tests.antt =====
-- The verification of the example's reports.
use ble_usage_meter.Common.{ok, some, ◌≡◌}
use ble_usage_meter.Common.Int.{pos}
use ble_usage_meter.Backend.Models.{UsageReport}
use ble_usage_meter.Common.Ed25519.{toy}
use ble_usage_meter.Backend.Verify.{accepted, verify_report, fetch_device}
use ble_usage_meter.Backend.Verify.Signed.{verify_report_iff}
use ble_usage_meter.Backend.Example
use ble_usage_meter.Backend.Example.{
  db, device, found, signed_second, starts_at, is_fresh, report_of,
}

verify_report_iff_example : verify_report toy db (Example.report 5 2) ≡ ok accepted
unfolding fetch_device
verify_report_iff_example =
    (verify_report_iff toy db (Example.report 5 2)).1
      (device, found, report_of 5 2 signed_second, is_fresh 5 2)

-- The same report with its window moved by half a second, which the signature does not cover.
abbrev half_later : UsageReport
half_later = record (Example.report 3 1) {
  window_start = record { wall = pos 1700000000500000; utcoffset = some (pos 0) };
}
