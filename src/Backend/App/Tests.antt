-- ===== src/Backend/App/Tests.antt =====
-- The endpoints on the example's device and reports.
use ble_usage_meter.Common.{
  List, ap, str_is_eq, [], ◌∷◌, true, some, ok, ◌≡◌, ◌≢◌, refl, arith, inl,
}
use ble_usage_meter.Common.Int.{pos, ◌<ℤ◌}
use ble_usage_meter.Common.Dict.{lookup}
use ble_usage_meter.Common.Ed25519.{toy}
use ble_usage_meter.Backend.Models.{DeviceRecord}
use ble_usage_meter.Backend.Db.{Database}
use ble_usage_meter.Backend.App.{report_accepted, append_report, post_report, has_sequence}
use ble_usage_meter.Backend.App.History.{IsConsistent}
use ble_usage_meter.Backend.App.Replay.{Request, report, serve, serve-IsConsistent, no_replay}
use ble_usage_meter.Backend.App.Accept.{post_report_accepts}
use ble_usage_meter.Backend.App.Concurrent.{
  Server, Reach, verify, here, next, IsUnique, Reach-IsUnique, marks_fall_back,
}
use ble_usage_meter.Backend.Example
use ble_usage_meter.Backend.Example.{
  db, db-IsConsistent, device, found, meter, private_key, signed, signed_first, signed_second,
  starts_at, ends_at, is_fresh, report_of, passes_first, passes_second,
}

-- A valid report with an earlier sequence, after a later one.
abbrev requests : List Request
requests = report (Example.report 5 2) [] ∷ report (Example.report 3 1) [] ∷ []

serve-IsConsistent_example : IsConsistent (serve toy requests db)
serve-IsConsistent_example = serve-IsConsistent toy requests db db-IsConsistent

no_replay_example :
    (post_report toy
      (serve toy requests (post_report toy db (Example.report 5 2) []).1)
      (Example.report 3 1)
      []).0
    ≢ ok (report_accepted meter (pos 1) (pos 3))
no_replay_example =
    no_replay toy db (Example.report 5 2) (Example.report 3 1) [] [] requests db-IsConsistent
      (ap (λ p. p.0) gateway_report_accepted_again) refl (inl (omega arith))
  where
    gateway_report_accepted_again : post_report toy db (Example.report 5 2) [] ≡ (
      ok (report_accepted meter (pos 2) (pos 5)),
      append_report db device (Example.report 5 2) [],
    )
    gateway_report_accepted_again =
        post_report_accepts toy db device (Example.report 5 2) [] db-IsConsistent found
          (report_of 5 2 signed_second) (is_fresh 5 2) refl

abbrev idle : Server
idle = record { db = db; verified = [] }

abbrev one_verified : Server
one_verified = record { db = db; verified = Example.report 3 1 ∷ [] }

Reach-IsUnique_example : IsUnique one_verified.db.usage_reports
Reach-IsUnique_example =
    Reach-IsUnique toy {s = idle} {t = one_verified}
      (next here (verify idle (Example.report 3 1) passes_first)) tt

marks_fall_back_example :
    (end : Database) × Reach toy idle (record { db = end; verified = [] })
    × (has_sequence meter (pos 2) end.usage_reports ≡ true)
    × ((d : DeviceRecord) × (lookup meter end.devices ≡ some d)
        × (d.last_accepted_sequence <ℤ pos 2)
        × (d.last_accepted_count <ℤ pos 5))
marks_fall_back_example =
    marks_fall_back toy db device (Example.report 3 1) (Example.report 5 2) [] db-IsConsistent found
      refl passes_first passes_second (omega arith) (omega arith) refl refl
