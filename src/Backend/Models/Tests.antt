-- ===== src/Backend/Models/Tests.antt =====
-- The canonical bytes of the example's reports, on both sides.
use ble_usage_meter.Common.{Bytes, Result, ok, err, [], ◌≡◌, refl, value_or_none}
use ble_usage_meter.Common.Int.{pos, ◌-ℤ◌}
use ble_usage_meter.Common.Utf8.{utf8, utf8_char}
use ble_usage_meter.Common.BigEndian.{pack_int, big_endian}
use ble_usage_meter.Gateway.Signer
use ble_usage_meter.Gateway.Signer.{ReportTuple}
use ble_usage_meter.Backend.Models.{
  canonical_bytes, canonical_unix_seconds, to_utc, whole_seconds, canonical_message,
  canonical_domain,
}
use ble_usage_meter.Backend.Models.Agreement.{tuple_of, canonical_bytes_agree}
use ble_usage_meter.Backend.Example

canonical_bytes_agree_example :
    value_or_none (canonical_bytes (Example.report 3 1))
    ≡ value_or_none
        (Signer.canonical_bytes (tuple_of (Example.report 3 1) (pos 1700000000) (pos 1700000300)))
canonical_bytes_agree_example =
    canonical_bytes_agree (Example.report 3 1) (pos 1700000000) (pos 1700000300) Example.starts_at
      Example.ends_at

abbrev bytes_or_none : Result Bytes → Bytes
bytes_or_none (ok m) = m
bytes_or_none (err e) = []

abbrev message : Bytes
message = bytes_or_none (canonical_bytes (Example.report 3 1))

first_message : canonical_bytes (Example.report 3 1) ≡ ok message
unfolding canonical_bytes canonical_message canonical_domain canonical_unix_seconds to_utc
    whole_seconds ◌-ℤ◌ utf8 utf8_char pack_int big_endian
first_message = refl

other_message : canonical_bytes Example.other_zone ≡ ok message
unfolding canonical_bytes canonical_message canonical_domain canonical_unix_seconds to_utc
    whole_seconds ◌-ℤ◌ utf8 utf8_char pack_int big_endian
other_message = refl
