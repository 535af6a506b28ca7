-- ===== src/Gateway/Signer/Tests.antt =====
-- The canonical bytes of one report.
use ble_usage_meter.Common.{Bytes, Result, ok, err, some, [], ◌≡◌, refl, text}
use ble_usage_meter.Common.Int.{pos}
use ble_usage_meter.Common.BigEndian.{pack_int, pack_four, big_endian}
use ble_usage_meter.Common.Utf8.{utf8, utf8_char}
use ble_usage_meter.Gateway.Signer.{ReportTuple, domain, canonical_bytes}
use ble_usage_meter.Gateway.Signer.RoundTrip.{read_message, read_message-canonical_bytes}

abbrev lamp : ReportTuple
lamp = record {
  device_id = text "lamp";
  count = pos 258;
  sequence = pos 1;
  window_start = pos 0;
  window_end = pos 300;
}

abbrev bytes_or_none : Result Bytes → Bytes
bytes_or_none (ok m) = m
bytes_or_none (err e) = []

abbrev message : Bytes
message = bytes_or_none (canonical_bytes lamp)

message_lem : canonical_bytes lamp ≡ ok message
unfolding canonical_bytes domain utf8 utf8_char pack_int pack_four big_endian
message_lem = refl

read_message-canonical_bytes_example : read_message message ≡ some lamp
read_message-canonical_bytes_example = read_message-canonical_bytes lamp message message_lem
