-- ===== src/Gateway/Config/Tests.antt =====
-- A configuration of two rules.
use ble_usage_meter.Common.{
  Str, text, List, [], ◌∷◌, some, Result, ok, err, ◌≡◌, refl, str_eq, lower_char, none,
}
use ble_usage_meter.Common.Dict.{lookup, Dict}
use ble_usage_meter.Gateway.Config.Settings.{
  Scalar, string, GatewayConfig, Machine, load_gateway, get_int, get_str, req, int_of, int_of_text,
  read_digits, starts_with, events_file_of, load_events_file,
}
use ble_usage_meter.Gateway.Config.Settings.Checked.{IsChecked, load_gateway-IsChecked}
use ble_usage_meter.Common.Int.{pos}
use ble_usage_meter.Gateway.Config
use ble_usage_meter.Gateway.Config.{
  EventRule, Item, mapping, load_events, load_items, rule_of, required, is_seen, normalise_uuid,
  full_uuid, base_uuid, lstrip, rstrip, is_space, all_chars, count_char, parse_prefix, parse_hex,
  from_hex, drop_0x, without,
}

abbrev full : Str
full = text "0000180a-0000-1000-8000-00805f9b34fb"

expands : normalise_uuid (text " 180A ") ≡ ok full
unfolding normalise_uuid full_uuid base_uuid lstrip rstrip is_space all_chars count_char lower_char
expands = refl

abbrev item : Str → Item
item prefix = mapping (
    (text "service", Config.string (text "180A"))
    ∷ ((text "characteristic", Config.string (text "2A29"))
        ∷ ((text "event", Config.string (text "on"))
            ∷ ((text "prefix", Config.string prefix) ∷ []))))

abbrev rules_of : Result (List EventRule) → List EventRule
rules_of (ok rules) = rules
rules_of (err e) = []

abbrev items : List Item
items = item (text "0xAA 01") ∷ item [] ∷ []

abbrev rules : List EventRule
rules = rules_of (load_events (some items))

loads : load_events (some items) ≡ ok rules
unfolding load_events load_items rule_of required is_seen lookup str_eq normalise_uuid full_uuid
    base_uuid lstrip rstrip is_space all_chars count_char lower_char parse_prefix parse_hex from_hex
    drop_0x without
loads = refl

abbrev machine : Machine
machine = record { expanduser = λ path. path; read_events = λ path. ok (some items) }

abbrev document : Dict Str Scalar
document =
    (text "meter_id", string (text "meter"))
    ∷ (text "report_endpoint", string (text "https://example.invalid/reports"))
    ∷ (text "report_interval_sec", string (text " 1_0 "))
    ∷ (text "private_key_path", string (text "gateway.key"))
    ∷ (text "events_file", string (text "events.yaml"))
    ∷ []

abbrev settings : GatewayConfig
settings = record {
  meter_id = text "meter";
  report_endpoint = text "https://example.invalid/reports";
  report_interval_sec = pos 10;
  db_path = text "meter.sqlite3";
  private_key_path = text "gateway.key";
  retry_base_sec = pos 5;
  retry_max_sec = pos 600;
  retry_max_attempts = pos 8;
  rules = rules;
}

starts : load_gateway machine document none ≡ ok settings
unfolding load_gateway get_int get_str req int_of int_of_text read_digits starts_with events_file_of
    load_events_file lookup str_eq lstrip rstrip is_space
starts = rw loads refl

load_gateway-IsChecked_example : IsChecked machine document settings
load_gateway-IsChecked_example = load_gateway-IsChecked machine document none settings starts
