-- ===== src/Backend/App/Concurrent.antt =====
-- Requests are served by a pool of threads: a report is verified before its transaction begins, so
-- other transactions may come in between.
use ble_usage_meter.Common.{
  Str, List, [], ◌∷◌, ◌++◌, true, false, ◌≡◌, refl, ap, ◌&&◌, some, ok, arith, str_is_eq,
  str_eq_iff, inl, inr,
}
use ble_usage_meter.Common.Int.{◌<ℤ◌, eqb_ℤ_iff}
use ble_usage_meter.Common.Dict.{lookup, lookup-insert}
use ble_usage_meter.Common.Ed25519.{Ed25519}
use ble_usage_meter.Backend.Models.{UsageReport, DeviceRecord}
use ble_usage_meter.Backend.Db.{Database, ReportRow}
use ble_usage_meter.Backend.Verify.{accepted, verify_report}
use ble_usage_meter.Backend.Verify.Signed.{verify_report-IsFresh}
use ble_usage_meter.Backend.App.{
  is_int64, has_sequence, append_report, store_report, advanced, RegisterDeviceRequest,
  register_device, add_device,
}
use ble_usage_meter.Backend.App.Accept.{store_report-append, fresh-new}
use ble_usage_meter.Backend.App.History.{IsConsistent, register_decoded-cases}
use ble_usage_meter.Common.Base64.{b64decode}

-- The tables, and the reports that a thread has verified and not stored yet.
pub record Server : Type 0 where
  pub db : Database
  pub verified : List UsageReport

module _ (scheme : Ed25519) where
  pub data Step : Server → Server → Type 0 where
    verify :
        (s : Server) (r : UsageReport)
        → verify_report scheme s.db r ≡ ok accepted
        → Step s (record s { verified = r ∷ s.verified })
    store :
        (db : Database) (front back : List UsageReport) (r : UsageReport) (now : Str)
        → Step
            (record { db = db; verified = front ++ r ∷ back })
            (record { db = (store_report db r now).1; verified = front ++ back })
    register :
        (s : Server) (req : RegisterDeviceRequest) (now : Str)
        → Step s (record s { db = (register_device s.db req now).1 })

  pub data Reach (s : Server) : Server → Type 0 where
    here : Reach s s
    next : {t u : Server} → Reach s t → Step t u → Reach s u

-- No two stored reports of a device have one sequence.
abbrev pub IsUnique : List ReportRow → Type 0
IsUnique [] = Unit
IsUnique (r ∷ rs) = (has_sequence r.device_id r.sequence rs ≡ false) × IsUnique rs

register_device-reports :
    (db : Database) (req : RegisterDeviceRequest) (now : Str)
    → (register_device db req now).1.usage_reports ≡ db.usage_reports
unfolding register_device add_device
register_device-reports db req now =
    elim (register_decoded-cases db req now (b64decode req.public_key)) [
      | inl e ↦ ap (λ x. x.usage_reports) e
      | inr (new, e) ↦ ap (λ x. x.usage_reports) e
    ]

store_report-IsUnique :
    (db : Database) (r : UsageReport) (now : Str)
    → IsUnique db.usage_reports
    → IsUnique (store_report db r now).1.usage_reports
unfolding store_report append_report
store_report-IsUnique db r now u = ground arith

module _ (scheme : Ed25519) where
  Step-IsUnique :
      {s t : Server} → Step scheme s t → IsUnique s.db.usage_reports → IsUnique t.db.usage_reports
  Step-IsUnique (verify s r h) u = u
  Step-IsUnique (store db front back r now) u = store_report-IsUnique db r now u
  Step-IsUnique (register s req now) u = rw register_device-reports u

  -- From tables in which no sequence of a device is twice, however the threads interleave, no
  -- sequence of a device is stored twice.
  pub Reach-IsUnique :
      {s t : Server} → Reach scheme s t → IsUnique s.db.usage_reports → IsUnique t.db.usage_reports
  Reach-IsUnique here u = u
  Reach-IsUnique (next r step) u = Step-IsUnique step (Reach-IsUnique r u)

-- Two reports of a device, verified against the same tables, are stored in the wrong order.
module _ (db : Database) (d : DeviceRecord) (r s : UsageReport) (now : Str) where
  abbrev first_stored : Database
  first_stored = append_report db d s now

  abbrev both_stored : Database
  both_stored = append_report first_stored (advanced d s) r now

  device_after_first :
      r.device_id ≡ s.device_id → lookup r.device_id first_stored.devices ≡ some (advanced d s)
  unfolding append_report
  device_after_first same = ground (
    arith,
    lookup-insert s.device_id r.device_id (advanced d s) db.devices,
    str_eq_iff s.device_id r.device_id,
  )

  sequence_after_first :
      r.sequence <ℤ s.sequence
      → has_sequence r.device_id r.sequence db.usage_reports ≡ false
      → has_sequence r.device_id r.sequence first_stored.usage_reports ≡ false
  unfolding append_report has_sequence
  sequence_after_first order new = ground (arith, eqb_ℤ_iff s.sequence r.sequence)

  stored_in_wrong_order :
      IsConsistent db
      → lookup s.device_id db.devices ≡ some d
      → r.device_id ≡ s.device_id
      → d.last_accepted_sequence <ℤ r.sequence
      → r.sequence <ℤ s.sequence
      → (is_int64 r.count && is_int64 r.sequence) ≡ true
      → (is_int64 s.count && is_int64 s.sequence) ≡ true
      → (store_report (store_report db s now).1 r now).1 ≡ both_stored
  stored_in_wrong_order c found same new order fr fs =
      let unseen = fresh-new db d r c (rw same found) new in
      rw
        (
          store_report-append db d s now found fs (fresh-new db d s c found (omega arith)),
          store_report-append first_stored (advanced d s) r now (device_after_first same) fr
              (sequence_after_first order unseen),
        )
        refl

  marks_after_both :
      r.device_id ≡ s.device_id
      → (lookup s.device_id both_stored.devices ≡ some (advanced (advanced d s) r))
        × (has_sequence s.device_id s.sequence both_stored.usage_reports ≡ true)
  unfolding append_report has_sequence
  marks_after_both same = (
    ground (
      arith,
      lookup-insert r.device_id s.device_id (advanced (advanced d s) r) first_stored.devices,
      str_eq_iff r.device_id s.device_id,
    ),
    ground (
      arith,
      str_eq_iff s.device_id s.device_id,
      eqb_ℤ_iff s.sequence s.sequence,
      eqb_ℤ_iff r.sequence s.sequence,
    ),
  )

-- Two threads can lower a device's marks. Where two reports of one device are both accepted by the
-- verification of the same consistent tables, the older sequence with the lower count, and all their
-- counts and sequences fit into signed integers of 64 bits, some interleaving stores both and leaves the device's marks at the older report, below the sequence
-- and the count of a report that is stored.
pub marks_fall_back :
    (scheme : Ed25519) (db : Database) (d : DeviceRecord) (r s : UsageReport) (now : Str)
    → IsConsistent db
    → lookup s.device_id db.devices ≡ some d
    → r.device_id ≡ s.device_id
    → verify_report scheme db r ≡ ok accepted
    → verify_report scheme db s ≡ ok accepted
    → r.sequence <ℤ s.sequence
    → r.count <ℤ s.count
    → (is_int64 r.count && is_int64 r.sequence) ≡ true
    → (is_int64 s.count && is_int64 s.sequence) ≡ true
    → (end : Database) × Reach scheme
        (record { db = db; verified = [] })
        (record { db = end; verified = [] })
      × (has_sequence s.device_id s.sequence end.usage_reports ≡ true)
      × ((d' : DeviceRecord) × (lookup s.device_id end.devices ≡ some d')
          × (d'.last_accepted_sequence <ℤ s.sequence)
          × (d'.last_accepted_count <ℤ s.count))
marks_fall_back scheme db d r s now c found same hr hs order less fr fs =
    let fresh = verify_report-IsFresh scheme db r d hr (rw same found) in
    let e = stored_in_wrong_order db d r s now c found same fresh.sequence order fr fs in
    let (row, kept) = marks_after_both db d r s now same in
    (both_stored db d r s now, rw (← e) run, kept, (advanced (advanced d s) r, row, order, less))
  where
    -- Both verify, then the newer report is stored, then the older one.
    run :
        Reach scheme
          (record { db = db; verified = [] })
          (record { db = (store_report (store_report db s now).1 r now).1; verified = [] })
    run =
        next
          (next
            (next (next here (verify _ s hs)) (verify (record { db = db; verified = s ∷ [] }) r hr))
            (store db (r ∷ []) [] s now))
          (store (store_report db s now).1 [] [] r now)
