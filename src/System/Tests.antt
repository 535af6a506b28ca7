-- ===== src/System/Tests.antt =====
-- The reporter and the endpoint together, on one registered device.
use ble_usage_meter.System.Recovery.{next_report_accepted}
use ble_usage_meter.Backend.Models.{DeviceRecord, DateTime, before, validate}
use ble_usage_meter.Common.Dict.{lookup}
use ble_usage_meter.Common.{
  str_is_eq, ℕ, zero, suc, ◌≡◌, ◌≤◌, ◌⊎◌, refl, arith, Str, text, Option, none, some, ok, false, [],
}
use ble_usage_meter.Backend.Example.{
  signed_second, db, db-IsConsistent, device, report, signed_first, is_fresh, found, at, meter,
  private_key, signed, tuple, starts_at, ends_at,
}
use ble_usage_meter.Common.Ed25519.{toy}
use ble_usage_meter.Backend.Example
use ble_usage_meter.Backend.App.{append_report, get_usage, usage, count_reports}
use ble_usage_meter.Gateway.Reporter.{Payload, build_payload, post}
use ble_usage_meter.Gateway.Signer
use ble_usage_meter.Common.BigEndian.{pack_int, pack_four, big_endian, read_big_endian}
use ble_usage_meter.Common.Utf8.{utf8, utf8_char}
use ble_usage_meter.Common.Int.{ℤ, pos, ◌-ℤ◌}
use ble_usage_meter.Common.Base64.{b64encode}
use ble_usage_meter.Backend.Wire.{Json, string, integer, Pydantic, receive}
use ble_usage_meter.System.Named.{members, unsigned_undelivered}
use ble_usage_meter.System.Accepted.{report_of, Reads, renamed_payload_stored}
use ble_usage_meter.System.{answer, Fate, lost_request, lost_response, arrives, backend, network}
use ble_usage_meter.System.Once.{IsStored, backend_once}
use ble_usage_meter.System.Lost.{accepted_at, rejected_at, delivers, lost_response_undelivered}

-- Two requests are lost, then one arrives.
abbrev two_lost : ℕ → Fate
two_lost zero = lost_request
two_lost (suc zero) = lost_request
two_lost (suc (suc zero)) = lost_request
two_lost (suc (suc (suc n))) = arrives

-- The first response is lost.
abbrev unanswered : ℕ → Fate
unanswered zero = lost_request
unanswered (suc zero) = lost_response
unanswered (suc (suc n)) = arrives

abbrev clock : ℕ → Str
clock n = text "2023-11-14T22:18:20+00:00"

backend_once_example :
    (backend (answer toy (report 3 1)) unanswered clock db 4 ≡ db)
    ⊎ IsStored toy (report 3 1) db (backend (answer toy (report 3 1)) unanswered clock db 4)
backend_once_example = backend_once toy (report 3 1) unanswered clock db 4

delivers_example :
    let after = backend (answer toy (report 3 1)) two_lost clock db 3 in
    ((post (network (answer toy (report 3 1)) two_lost clock db) 5 600 8).0 ≡ accepted_at 3)
    × (after ≡ append_report db device (report 3 1) (clock 3))
    × (get_usage after meter ≡ usage meter (pos 3) (pos 1) (suc (count_reports meter [])))
delivers_example =
    delivers toy db device (report 3 1) db-IsConsistent found (Example.report_of 3 1 signed_first)
      (is_fresh 3 1) refl two_lost clock 2 5 600 8 (omega arith) lost_twice refl
  where
    lost_twice : (i : ℕ) → 1 ≤ i → i ≤ 2 → two_lost i ≡ lost_request
    lost_twice zero lo hi = refl
    lost_twice (suc zero) lo hi = refl
    lost_twice (suc (suc zero)) lo hi = refl
    lost_twice (suc (suc (suc n))) lo hi = absurd (omega arith)

lost_response_undelivered_example :
    ((post (network (answer toy (report 3 1)) unanswered clock db) 5 600 8).0 ≡ rejected_at 2)
    × (backend (answer toy (report 3 1)) unanswered clock db 2
        ≡ append_report db device (report 3 1) (clock 1))
lost_response_undelivered_example =
    lost_response_undelivered toy db device (report 3 1) db-IsConsistent found
      (Example.report_of 3 1 signed_first) (is_fresh 3 1) refl unanswered clock 5 600 8
      (omega arith) refl refl

-- What pydantic reads, on the values that the gateway sends.
abbrev seconds_of : Json → Option DateTime
seconds_of (integer (pos n)) = some (at n)
seconds_of v = none

abbrev text_of : Json → Option Str
text_of (string s) = some s
text_of v = none

abbrev integer_of : Json → Option ℤ
integer_of (integer n) = some n
integer_of v = none

abbrev plain : Pydantic
plain = record { read_str = text_of; read_int = integer_of; read_datetime = seconds_of }

abbrev payload : Payload
payload = record {
  device_id = meter;
  count = pos 3;
  sequence = pos 1;
  window_start = pos 1700000000;
  window_end = pos 1700000300;
  sig = b64encode (signed 3 1);
}

built : build_payload toy private_key (tuple 3 1) ≡ ok payload
unfolding build_payload
built = rw signed_first refl

plain-Reads : Reads plain payload (at 1700000000) (at 1700000300)
plain-Reads = record {
  texts = λ s. refl;
  integers = λ n. refl;
  starts = refl;
  stops = refl;
  start_seconds = starts_at;
  stop_seconds = ends_at;
}

unsigned_undelivered_example :
    let serve = receive plain toy (members (text "sig") payload) in
    ((post (network serve two_lost clock db) 5 600 8).0.delivered ≡ false)
    × ((n : ℕ) → backend serve two_lost clock db n ≡ db)
unsigned_undelivered_example = unsigned_undelivered plain toy payload db two_lost clock 5 600 8

passes_tests :
    validate (report_of payload (at 1700000000) (at 1700000300))
    ≡ ok (report_of payload (at 1700000000) (at 1700000300))
unfolding validate before b64encode ◌-ℤ◌ Signer.sign Signer.canonical_bytes Signer.domain utf8
    utf8_char pack_int pack_four big_endian read_big_endian
passes_tests = refl

renamed_payload_stored_example :
    receive plain toy (members (text "signature") payload) (clock 1) db
    ≡ (200, append_report db device (report_of payload (at 1700000000) (at 1700000300)) (clock 1))
renamed_payload_stored_example =
    renamed_payload_stored plain toy private_key (tuple 3 1) payload (at 1700000000) (at 1700000300)
      db device (clock 1) built plain-Reads passes_tests db-IsConsistent found refl (is_fresh 3 1)
      refl

-- The first report is stored and its response lost; the next window's report follows.
next_report_accepted_example :
    let before = backend (answer toy (report 3 1)) unanswered clock db 2 in
    (d : DeviceRecord) × (lookup meter before.devices ≡ some d)
    × (answer toy (report 5 2) (clock 9) before
        ≡ (200, append_report before d (report 5 2) (clock 9)))
next_report_accepted_example =
    next_report_accepted toy (report 3 1) (report 5 2) db device db-IsConsistent found refl
      (Example.report_of 5 2 signed_second) (is_fresh 5 2) (omega arith) (omega arith) refl
      unanswered clock 2 (clock 9)
