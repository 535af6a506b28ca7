-- ===== src/Gateway/Matcher/Tests.antt =====
-- Rules on one characteristic, and writes to it.
use ble_usage_meter.Common.{text, [], ◌∷◌, ◌≡◌, refl, true}
use ble_usage_meter.Gateway.Config.{EventRule}
use ble_usage_meter.Gateway.Matcher.{GattWrite, matcher_of, match, has_prefix}
use ble_usage_meter.Gateway.Matcher.First.{first_match, match-first_match, has_prefix_iff}

abbrev any : EventRule
any = record { service = text "AB"; characteristic = text "01"; prefix = []; event = text "used" }

abbrev narrow : EventRule
narrow = record {
  service = text "ab";
  characteristic = text "01";
  prefix = 170 ∷ [];
  event = text "on";
}

abbrev write : GattWrite
write = record {
  peer_addr = text "lamp";
  service = text "ab";
  characteristic = text "01";
  payload = 170 ∷ 1 ∷ [];
}

narrow_hit : has_prefix (170 ∷ []) (170 ∷ 1 ∷ []) ≡ true
narrow_hit = (has_prefix_iff (170 ∷ []) (170 ∷ 1 ∷ [])).1 (1 ∷ [], refl)

match-first_match_example :
    match (matcher_of (narrow ∷ any ∷ [])) write ≡ first_match (narrow ∷ any ∷ []) write
match-first_match_example = match-first_match (narrow ∷ any ∷ []) write
