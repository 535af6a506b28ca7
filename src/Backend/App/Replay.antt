-- ===== src/Backend/App/Replay.antt =====
-- backend/app.py: sequences of requests.
use ble_usage_meter.Common.{
  Str, List, [], ◌∷◌, ◌++◌, append_assoc, ◌≡◌, ◌≢◌, refl, sym, ap, subst, ◌∙◌, ◌⊎◌, some, Result,
  ok, err, arith, str_is_eq, str_eq_iff, Option-cases, inl, inr,
}
use ble_usage_meter.Common.Int.{ℤ, ◌≤ℤ◌, ◌<ℤ◌}
use ble_usage_meter.Common.Dict.{lookup}
use ble_usage_meter.Common.Base64.{b64decode}
use ble_usage_meter.Common.Ed25519.{Ed25519}
use ble_usage_meter.Backend.Models.{UsageReport, DeviceRecord}
use ble_usage_meter.Backend.Db.{Database, ReportRow}
use ble_usage_meter.Backend.Verify.{VerifyResult, accepted, rejected, verify_report}
use ble_usage_meter.Backend.Verify.Signed.{IsFresh, verify_report-IsFresh}
use ble_usage_meter.Backend.App.{
  Response, report_accepted, RegisterDeviceRequest, register_device, append_report, add_device,
  store_report, post_verified, post_report, row_of, reject,
}
use ble_usage_meter.Backend.App.History.{
  marks, IsHistory, IsConsistent, register_decoded-cases, store_report-cases,
  register_device-IsConsistent, post_report-IsConsistent,
}

-- A request that writes, with the time at which it is served.
pub data Request : Type 0 where
  register : RegisterDeviceRequest → Str → Request
  report : UsageReport → Str → Request

module _ (scheme : Ed25519) where
  unfoldable pub handle : Request → Database → Database
  handle (register req now) db = (register_device db req now).1
  handle (report r now) db = (post_report scheme db r now).1

  unfoldable pub serve : List Request → Database → Database
  serve [] db = db
  serve (q ∷ qs) db = serve qs (handle q db)

  handle-IsConsistent : (q : Request) {db : Database} → IsConsistent db → IsConsistent (handle q db)
  unfolding handle
  handle-IsConsistent (register req now) c = register_device-IsConsistent c req now
  handle-IsConsistent (report r now) c = post_report-IsConsistent c scheme r now

  -- From a consistent database on, whatever is requested: the stored reports of each device go up in
  -- sequence and never down in count, and every device's marks are those of its newest report.
  pub serve-IsConsistent :
      (qs : List Request) (db : Database) → IsConsistent db → IsConsistent (serve qs db)
  unfolding serve
  serve-IsConsistent [] db c = c
  serve-IsConsistent (q ∷ qs) db c = serve-IsConsistent qs (handle q db) (handle-IsConsistent q c)

  -- A request leaves the reports alone or puts one in front.
  abbrev Extends : List ReportRow → List ReportRow → Type 0
  Extends new old = (added : List ReportRow) × (new ≡ added ++ old)

  post_verified-Extends :
      (db : Database) (r : UsageReport) (now : Str) (verdict : Result VerifyResult)
      → Extends (post_verified db r now verdict).1.usage_reports db.usage_reports
  unfolding post_verified append_report
  post_verified-Extends db r now (err e) = ([], refl)
  post_verified-Extends db r now (ok (rejected code)) = ([], refl)
  post_verified-Extends db r now (ok accepted) = elim (store_report-cases db r now) [
    | inl e ↦ ([], ap (λ x. x.usage_reports) e)
    | inr (d, found, e) ↦ (row_of r now ∷ [], ap (λ x. x.usage_reports) e)
  ]

  handle-Extends :
      (q : Request) (db : Database) → Extends (handle q db).usage_reports db.usage_reports
  unfolding handle post_report register_device add_device
  handle-Extends (report r now) db = post_verified-Extends db r now (verify_report scheme db r)
  handle-Extends (register req now) db =
      elim (register_decoded-cases db req now (b64decode req.public_key)) [
        | inl e ↦ ([], ap (λ x. x.usage_reports) e)
        | inr (new, e) ↦ ([], ap (λ x. x.usage_reports) e)
      ]

  -- The log is append-only: after any requests the old reports are all there, unchanged and in
  -- their order, behind the ones that were added.
  pub serve-Extends :
      (qs : List Request) (db : Database) → Extends (serve qs db).usage_reports db.usage_reports
  unfolding serve
  serve-Extends [] db = ([], refl)
  serve-Extends (q ∷ qs) db =
      let (added, e) = handle-Extends q db in
      let (later, e') = serve-Extends qs (handle q db) in
      (
        later ++ added,
        e' ∙ ap (λ l. later ++ l) e ∙ sym (append_assoc later added db.usage_reports),
      )

  -- The response to a report that was stored.
  abbrev stored : UsageReport → Result Response
  stored r = ok (report_accepted r.device_id r.sequence r.count)

  store_report-stored :
      (db : Database) (r : UsageReport) (now : Str)
      → (store_report db r now).0 ≡ stored r
      → (d : DeviceRecord) × (lookup r.device_id db.devices ≡ some d)
        × ((store_report db r now).1 ≡ append_report db d r now)
  unfolding store_report reject
  store_report-stored db r now h = elim (Option-cases (lookup r.device_id db.devices)) [
    | inl e ↦ absurd (ground arith)
    | inr (d, e) ↦ (d, e, ground arith)
  ]

  post_verified-stored :
      (db : Database) (r : UsageReport) (now : Str) (verdict : Result VerifyResult)
      → (post_verified db r now verdict).0 ≡ stored r
      → (verdict ≡ ok accepted)
        × ((d : DeviceRecord) × (lookup r.device_id db.devices ≡ some d)
            × ((post_verified db r now verdict).1 ≡ append_report db d r now))
  unfolding post_verified reject
  post_verified-stored db r now (err e) h = cc
  post_verified-stored db r now (ok (rejected code)) h = cc
  post_verified-stored db r now (ok accepted) h = (refl, store_report-stored db r now h)

  -- A report that is answered with `accepted` was fresh, and is now its device's newest.
  post_report-stored :
      (db : Database) (r : UsageReport) (now : Str)
      → (post_report scheme db r now).0 ≡ stored r
      → (d : DeviceRecord) × (lookup r.device_id db.devices ≡ some d)
        × IsFresh d r
        × ((post_report scheme db r now).1 ≡ append_report db d r now)
  unfolding post_report
  post_report-stored db r now h =
      let (verified, kept) = post_verified-stored db r now (verify_report scheme db r) h in
      let (d, found, e) = kept in (d, found, verify_report-IsFresh scheme db r d verified found, e)

  -- No request lowers the marks of a device.
  abbrev NotBelow : ℤ × ℤ → ℤ × ℤ → Type 0
  NotBelow a b = (a.0 ≤ℤ b.0) × (a.1 ≤ℤ b.1)

  marks-append :
      (id : Str) (rs : List ReportRow) (added : List ReportRow)
      → IsHistory (added ++ rs)
      → NotBelow (marks id rs) (marks id (added ++ rs))
  marks-append id rs [] h = omega arith
  marks-append id rs (r ∷ added) h =
      ground (arith, marks-append id rs added h.2, str_eq_iff r.device_id id)

  marks-serve :
      (id : Str) (qs : List Request) (db : Database)
      → IsConsistent db
      → NotBelow (marks id db.usage_reports) (marks id (serve qs db).usage_reports)
  marks-serve id qs db c =
      let (added, e) = serve-Extends qs db in
      let history = subst IsHistory e (serve-IsConsistent qs db c).history in
      rw e (marks-append id db.usage_reports added history)

  -- A report's device has its sequence and count for marks right after the report was accepted.
  marks-stored :
      (db : Database) (r : UsageReport) (now : Str)
      → (post_report scheme db r now).0 ≡ stored r
      → marks r.device_id (post_report scheme db r now).1.usage_reports ≡ (r.sequence, r.count)
  unfolding append_report
  marks-stored db r now h =
      let (d, found, fresh, e) = post_report-stored db r now h in
      rw e (ground (arith, str_eq_iff r.device_id r.device_id))

  -- An accepted report was above its device's marks.
  stored-above :
      (db : Database) (r : UsageReport) (now : Str)
      → IsConsistent db
      → (post_report scheme db r now).0 ≡ stored r
      → ((marks r.device_id db.usage_reports).0 <ℤ r.sequence)
        × ((marks r.device_id db.usage_reports).1 ≤ℤ r.count)
  stored-above db r now c h =
      let (d, found, fresh, e) = post_report-stored db r now h in
      let (s, n) = c.marked r.device_id d found in (rw s at fresh.sequence, rw n at fresh.count)

  -- In a consistent database: once a report has been accepted, no report for the same device with the
  -- same or a lower sequence, and none with a lower count, is ever accepted again, whatever is
  -- requested in between.
  pub no_replay :
      (db : Database) (r s : UsageReport) (now later : Str) (qs : List Request)
      → IsConsistent db
      → (post_report scheme db r now).0 ≡ stored r
      → s.device_id ≡ r.device_id
      → ((s.sequence ≤ℤ r.sequence) ⊎ (s.count <ℤ r.count))
      → (post_report scheme (serve qs (post_report scheme db r now).1) s later).0 ≢ stored s
  no_replay db r s now later qs c h same old h' =
      let after = (post_report scheme db r now).1 in
      let c' : IsConsistent after = post_report-IsConsistent c scheme r now in
      let grown = marks-serve r.device_id qs after c' in
      let above = stored-above (serve qs after) s later (serve-IsConsistent qs after c') h' in
      let at = marks-stored db r now h in absurd (no_room _ (rw at at grown) (rw same at above) old)
    where
      no_room :
          (m : ℤ × ℤ)
          → NotBelow (r.sequence, r.count) m
          → (m.0 <ℤ s.sequence) × (m.1 ≤ℤ s.count)
          → ((s.sequence ≤ℤ r.sequence) ⊎ (s.count <ℤ r.count))
          → ⊥
      no_room m g a (inl h) = omega arith
      no_room m g a (inr h) = omega arith
