-- ===== src/Gateway/Observer/Tests.antt =====
-- A value in three fragments of at most two bytes, and one after it.
use ble_usage_meter.Common.{Bytes, Str, List, pair_is_eq, str_eq, [], ◌∷◌, ◌≡◌, refl, text}
use ble_usage_meter.Common.Dict.{Dict, lookup}
use ble_usage_meter.Gateway.Observer.{Notification, observe_all}
use ble_usage_meter.Gateway.Observer.Interleaved.{
  writes_of, alone, notifications_of, observe_all-alone,
}

-- Two characteristics, the first of which is in the middle of a value.
abbrev notification : Str → Bytes → Notification
notification char_uuid received = record {
  service_uuid = text "ab";
  char_uuid = char_uuid;
  mtu_payload = 2;
  received = received;
}

abbrev mixed : List Notification
mixed =
    notification (text "01") (1 ∷ 2 ∷ [])
    ∷ notification (text "02") (9 ∷ [])
    ∷ notification (text "01") (3 ∷ [])
    ∷ []

abbrev buffers : Dict (Str × Str) Bytes
buffers = ((text "ab", text "01"), []) ∷ ((text "ab", text "02"), []) ∷ []

observe_all-alone_example :
    writes_of (text "ab", text "01") (observe_all (text "lamp") mixed buffers)
    ≡ alone (text "lamp") (notifications_of (text "ab", text "01") mixed) []
unfolding lookup str_eq
observe_all-alone_example =
    observe_all-alone (text "lamp") (text "ab", text "01") mixed buffers [] refl
