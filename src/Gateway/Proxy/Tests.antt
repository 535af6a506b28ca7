-- ===== src/Gateway/Proxy/Tests.antt =====
-- An app that writes before the proxy has a client, while the stack refuses, and then twice.
use ble_usage_meter.Common.{
  Bytes, text, List, [], ◌∷◌, map, false, Result, ok, err, runtime_error, value_error, ◌≡◌,
}
use ble_usage_meter.Gateway.Matcher.{GattWrite}
use ble_usage_meter.Gateway.Proxy.{
  Proxy, Event, connects, from_app, from_appliance, WriteHandler, relay,
}
use ble_usage_meter.Gateway.Proxy.Transparent.{passed, shown, count_all, relay_refines}

-- A meter that keeps what it is shown, and always raises.
abbrev raising : WriteHandler (List GattWrite)
raising w ws = (err value_error, w ∷ ws)

abbrev idle : Proxy (List GattWrite)
idle = record {
  address = text "lamp";
  has_client = false;
  to_appliance = [];
  to_app = [];
  meter = [];
}

abbrev write : Result (Unit {0}) → Bytes → Event
write link bytes = from_app link (text "ab") (text "01") bytes false

abbrev events : List Event
events =
    write (ok tt) (1 ∷ [])
    ∷ connects (ok tt)
    ∷ write (err runtime_error) (2 ∷ [])
    ∷ write (ok tt) (3 ∷ [])
    ∷ from_appliance (text "02") (9 ∷ [])
    ∷ write (ok tt) (4 ∷ [])
    ∷ []

relay_refines_example :
    ((relay raising events idle).to_appliance
      ≡ record { characteristic = text "01"; bytes = 3 ∷ []; response = false }
        ∷ record { characteristic = text "01"; bytes = 4 ∷ []; response = false }
        ∷ [])
    × ((relay raising events idle).to_app ≡ (9 ∷ []) ∷ [])
    × ((relay raising events idle).meter
        ≡ count_all raising (map (shown (text "lamp")) (passed false events)) [])
relay_refines_example = relay_refines raising events idle
