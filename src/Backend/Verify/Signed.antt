-- ===== src/Backend/Verify/Signed.antt =====
-- When a report passes, and which rejection it gets otherwise.
use ble_usage_meter.Common.{
  Bytes, Bool, true, ◌≡◌, refl, subst, ◌↔◌, Option, none, some, Result, ok, err, bind-eq-ok,
  if◌then◌else◌, arith, str_is_eq, ok-injective,
}
use ble_usage_meter.Common.Int.{◌≤ℤ◌, ◌<ℤ◌}
use ble_usage_meter.Common.Dict.{lookup}
use ble_usage_meter.Common.Base64.{b64decode}
use ble_usage_meter.Common.Ed25519.{Ed25519}
use ble_usage_meter.Backend.Models.{UsageReport, DeviceRecord, canonical_bytes}
use ble_usage_meter.Backend.Db.{Database}
use ble_usage_meter.Backend.Verify.{
  bad_signature, replay, count_rollback, VerifyResult, accepted, rejected, ◌then◌, load_public_key,
  check_sequence, check_count_monotonic, fetch_device, check_message, check_decoded, check_loaded,
  check_signature, verify_with, verify_report,
}

module _ (scheme : Ed25519) where
  -- The signature of the report, under the registered key, is one of the report's own bytes.
  pub record IsAuthentic (device : DeviceRecord) (report : UsageReport) : Type 0 where
    pub key : Bytes
    pub sig : Bytes
    pub message : Bytes
    pub loads : load_public_key device.public_key ≡ ok key
    pub decodes : b64decode report.signature ≡ ok sig
    pub serialises : canonical_bytes report ≡ ok message
    pub verifies : scheme.accepts key sig message ≡ true

-- The sequence is new and the count has not fallen.
pub record IsFresh (device : DeviceRecord) (report : UsageReport) : Type 0 where
  pub sequence : device.last_accepted_sequence <ℤ report.sequence
  pub count : device.last_accepted_count ≤ℤ report.count

module _ (scheme : Ed25519) (device : DeviceRecord) (report : UsageReport) where
  accepted_if :
      (b : Bool) → ok (if b then accepted else rejected bad_signature) ≡ ok accepted → b ≡ true
  accepted_if b h = ground arith

  check_message-IsAuthentic :
      (key sig : Bytes)
      → load_public_key device.public_key ≡ ok key
      → b64decode report.signature ≡ ok sig
      → check_message scheme report key sig ≡ ok accepted
      → IsAuthentic scheme device report
  unfolding check_message
  check_message-IsAuthentic key sig hk hs h =
      let (m, hm, e) = bind-eq-ok (canonical_bytes report) _ h in
      record {
        key = key;
        sig = sig;
        message = m;
        loads = hk;
        decodes = hs;
        serialises = hm;
        verifies = accepted_if (scheme.accepts key sig m) e;
      }

  check_decoded-IsAuthentic :
      (key : Bytes) (decoded : Result Bytes)
      → load_public_key device.public_key ≡ ok key
      → b64decode report.signature ≡ decoded
      → check_decoded scheme report key decoded ≡ ok accepted
      → IsAuthentic scheme device report
  unfolding check_decoded
  check_decoded-IsAuthentic key (ok sig) hk hs h = check_message-IsAuthentic key sig hk hs h
  check_decoded-IsAuthentic key (err e) hk hs h = cc

  check_loaded-IsAuthentic :
      (loaded : Result Bytes)
      → load_public_key device.public_key ≡ loaded
      → check_loaded scheme report loaded ≡ ok accepted
      → IsAuthentic scheme device report
  unfolding check_loaded
  check_loaded-IsAuthentic (ok key) hk h = check_decoded-IsAuthentic key _ hk refl h
  check_loaded-IsAuthentic (err e) hk h = cc

  -- The signature check passes exactly for an authentic report.
  check_signature_iff :
      (check_signature scheme report device.public_key ≡ ok accepted)
      ↔ IsAuthentic scheme device report
  unfolding check_signature check_loaded check_decoded check_message
  check_signature_iff =
      (check_loaded-IsAuthentic _ refl, λ a. rw (a.loads, a.decodes, a.serialises, a.verifies) refl)

  then-accepted :
      (m k : Result VerifyResult) → (m then k) ≡ ok accepted → (m ≡ ok accepted) × (k ≡ ok accepted)
  then-accepted (ok accepted) k h = (refl, h)
  then-accepted (ok (rejected c)) k h = cc
  then-accepted (err e) k h = cc

  check_sequence_iff :
      (check_sequence report device.last_accepted_sequence ≡ accepted)
      ↔ (device.last_accepted_sequence <ℤ report.sequence)
  unfolding check_sequence
  check_sequence_iff = (λ h. ground arith, λ f. ground arith)

  check_count_iff :
      (check_count_monotonic report device.last_accepted_count ≡ accepted)
      ↔ (device.last_accepted_count ≤ℤ report.count)
  unfolding check_count_monotonic
  check_count_iff = (λ h. ground arith, λ f. ground arith)

  pub verify_with_iff :
      (verify_with scheme report (some device) ≡ ok accepted)
      ↔ (IsAuthentic scheme device report × IsFresh device report)
  unfolding verify_with
  verify_with_iff = (
    λ h.
        let (h', c) = then-accepted _ _ h in
        let (a, s) = then-accepted _ _ h' in
        (
          check_signature_iff.0 a,
          record {
            sequence = check_sequence_iff.0 (ok-injective s);
            count = check_count_iff.0 (ok-injective c);
          },
        ),
    λ (a, f).
        rw (check_signature_iff.1 a, check_sequence_iff.1 f.sequence, check_count_iff.1 f.count)
          refl,
  )

  -- An authentic report whose sequence is not above the device's mark is a replay, whatever it
  -- counts; one with a new sequence and a lower count is a rollback.
  pub verify_with_stale :
      IsAuthentic scheme device report
      → ((report.sequence ≤ℤ device.last_accepted_sequence
          → verify_with scheme report (some device) ≡ ok (rejected replay)))
        × (device.last_accepted_sequence <ℤ report.sequence
            → report.count <ℤ device.last_accepted_count
            → verify_with scheme report (some device) ≡ ok (rejected count_rollback))
  unfolding verify_with check_sequence check_count_monotonic
  verify_with_stale a = (
    λ h. rw (check_signature_iff.1 a) (ground arith),
    λ h k. rw (check_signature_iff.1 a) (ground arith),
  )

module _ (scheme : Ed25519) (db : Database) (report : UsageReport) where
  no_device :
      (d : Option DeviceRecord)
      → verify_with scheme report d ≡ ok accepted
      → (device : DeviceRecord) × (d ≡ some device)
  unfolding verify_with
  no_device none h = cc
  no_device (some device) h = (device, refl)

  -- The backend accepts a report exactly if its device is registered, the signature is one of the
  -- report's bytes under the registered key, the sequence is above the last accepted one and the
  -- count is not below the last accepted one.
  pub verify_report_iff : (verify_report scheme db report ≡ ok accepted) ↔ (
      (device : DeviceRecord) × (fetch_device db report.device_id ≡ some device)
      × IsAuthentic scheme device report
      × IsFresh device report)
  unfolding verify_report
  verify_report_iff = (
    λ h.
        let (device, e) = no_device (fetch_device db report.device_id) h in
        let (a, f) = (verify_with_iff scheme device report).0 (rw e at h) in (device, e, a, f),
    λ (device, e, a, f). rw e ((verify_with_iff scheme device report).1 (a, f)),
  )

-- An accepted report is fresh for the row of its device.
pub verify_report-IsFresh :
    (scheme : Ed25519) (db : Database) (r : UsageReport) (d : DeviceRecord)
    → verify_report scheme db r ≡ ok accepted
    → lookup r.device_id db.devices ≡ some d
    → IsFresh d r
unfolding fetch_device
verify_report-IsFresh scheme db r d h found =
    let (d', found', _, fresh) = (verify_report_iff scheme db r).0 h in
    subst (λ x. IsFresh x r) (cc) fresh
