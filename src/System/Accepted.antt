-- ===== src/System/Accepted.antt =====
-- A payload of the gateway (gateway/reporter.py), posted with its signature under the name that the
-- backend (backend/models.py) requires.
use ble_usage_meter.Common.{
  ◌≡◌, refl, sym, ap, subst, Bool, ◌&&◌, Str, Bytes, text, true, some, ok, bind-eq-ok, ok-injective,
  str_eq, str_is_eq,
}
use ble_usage_meter.Common.Int.{ℤ}
use ble_usage_meter.Common.Dict.{lookup}
use ble_usage_meter.Common.Base64.{b64encode}
use ble_usage_meter.Common.Ed25519.{Ed25519}
use ble_usage_meter.Gateway.Signer
use ble_usage_meter.Gateway.Signer.{ReportTuple}
use ble_usage_meter.Gateway.Reporter.{Payload, build_payload}
use ble_usage_meter.Backend.Models.{
  DateTime, UsageReport, DeviceRecord, before, validate, canonical_unix_seconds,
}
use ble_usage_meter.Backend.Models.Agreement.{tuple_of}
use ble_usage_meter.Backend.Db.{Database}
use ble_usage_meter.Backend.Wire.{
  string, integer, Pydantic, valid, read_member, required, fields, compare_windows, parse_report,
  receive_parsed, receive,
}
use ble_usage_meter.Backend.Verify.Signed.{IsFresh}
use ble_usage_meter.Backend.App.{is_int64, append_report}
use ble_usage_meter.Backend.App.History.{IsConsistent}
use ble_usage_meter.Backend.App.Accept.{gateway_report_accepted}
use ble_usage_meter.System.Named.{members}

-- The report that a payload stands for, with its window as instants.
abbrev pub report_of : Payload → DateTime → DateTime → UsageReport
report_of payload start stop = record {
  device_id = payload.device_id;
  count = payload.count;
  sequence = payload.sequence;
  window_start = start;
  window_end = stop;
  signature = payload.sig;
}

-- What pydantic makes of the gateway's JSON values: a text and an integer are what they are, and an
-- integer where an instant is wanted counts the seconds since 1970.
pub record Reads (p : Pydantic) (payload : Payload) (start stop : DateTime) : Type 0 where
  pub texts : (s : Str) → p.read_str (string s) ≡ some s
  pub integers : (n : ℤ) → p.read_int (integer n) ≡ some n
  pub starts : p.read_datetime (integer payload.window_start) ≡ some start
  pub stops : p.read_datetime (integer payload.window_end) ≡ some stop
  pub start_seconds : canonical_unix_seconds start ≡ ok payload.window_start
  pub stop_seconds : canonical_unix_seconds stop ≡ ok payload.window_end

validate-before :
    (r : UsageReport)
    → validate r ≡ ok r
    → (unordered : Bool) × (before r.window_end r.window_start ≡ ok unordered)
unfolding validate
validate-before r h =
    let (unordered, e, rest) = bind-eq-ok (before r.window_end r.window_start) _ h in (unordered, e)

module _ (p : Pydantic) (payload : Payload) (start stop : DateTime)
    (reads : Reads p payload start stop) where
  fields-members : fields p (members (text "signature") payload) ≡ ok (report_of payload start stop)
  unfolding fields members lookup str_eq required read_member valid
  fields-members =
      rw
        (
          reads.texts payload.device_id,
          reads.integers payload.count,
          reads.integers payload.sequence,
          reads.starts,
          reads.stops,
          reads.texts payload.sig,
        )
        refl

  -- The object is read as the report, if that passes the model's tests.
  pub parse_report-members :
      validate (report_of payload start stop) ≡ ok (report_of payload start stop)
      → parse_report p (members (text "signature") payload) ≡ ok (report_of payload start stop)
  unfolding parse_report members lookup str_eq required read_member valid compare_windows
  parse_report-members h =
      let (unordered, e) = validate-before (report_of payload start stop) h in
      let same : fields p (members (text "signature") payload) ≡ ok (report_of payload start stop) =
        fields-members in
      rw (same, reads.starts, reads.stops, e) h

-- The payload that the gateway makes of a tuple is answered with 200 and stored, if its signature is
-- sent under the name `signature`, pydantic reads its members as what they are, the registered key is
-- the gateway's, the database is consistent (the stored reports of each device rise in sequence and do
-- not fall in count, and its marks are those of the newest one), the report is fresh for its device
-- and passes the model's tests, and its count and sequence fit into signed integers of 64 bits.
pub renamed_payload_stored :
    (p : Pydantic) (scheme : Ed25519) (key : Bytes) (r : ReportTuple) (payload : Payload)
    (start stop : DateTime) (db : Database) (d : DeviceRecord) (now : Str)
    → build_payload scheme key r ≡ ok payload
    → Reads p payload start stop
    → validate (report_of payload start stop) ≡ ok (report_of payload start stop)
    → IsConsistent db
    → lookup payload.device_id db.devices ≡ some d
    → d.public_key ≡ b64encode (scheme.public_of key)
    → IsFresh d (report_of payload start stop)
    → (is_int64 payload.count && is_int64 payload.sequence) ≡ true
    → receive p scheme (members (text "signature") payload) now db
      ≡ (200, append_report db d (report_of payload start stop) now)
unfolding receive receive_parsed build_payload
renamed_payload_stored p scheme key r payload start stop db d now built reads valid c found
      registered fresh fits =
    let (sig, signed, e) = bind-eq-ok (Signer.sign scheme key r) _ built in
    let report = report_of payload start stop in
    let signed_report : Signer.sign scheme key
          (tuple_of report payload.window_start payload.window_end)
        ≡ ok sig =
      subst
        (λ q.
          Signer.sign scheme key (tuple_of (report_of q start stop) q.window_start q.window_end)
          ≡ ok sig)
        (ok-injective e) signed in
    rw
      (
        parse_report-members p payload start stop reads valid,
        gateway_report_accepted scheme key db d report now payload.window_start payload.window_end
            sig c found registered reads.start_seconds reads.stop_seconds signed_report
            (ap (λ q. q.sig) (sym (ok-injective e))) fresh fits,
      )
      refl
