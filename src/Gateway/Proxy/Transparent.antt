-- ===== src/Gateway/Proxy/Transparent.antt =====
-- gateway/proxy.py against a relay that has no meter, and a meter apart from it.
use ble_usage_meter.Common.{
  ◌≡◌, refl, sym, ◌∙◌, Str, Bytes, List, [], ◌∷◌, ◌++◌, append_assoc, append-nil, map, Bool, true,
  false, ok, err,
}
use ble_usage_meter.Gateway.Matcher.{GattWrite}
use ble_usage_meter.Gateway.Proxy.{
  Sent, Proxy, WriteHandler, Event, connects, from_app, from_appliance, connect, forward_from_app,
  forward_from_appliance, forwarded, count_write, step, relay,
}

-- A write of the app that the appliance received, with the service that it belongs to.
pub record Passed : Type 0 where
  pub service : Str
  pub sent : Sent

-- The writes of the app that pass, in order: those after the client was made that the stack takes.
abbrev pub passed : Bool → List Event → List Passed
passed client [] = []
passed client (connects link ∷ es) = passed true es
passed true (from_app (ok done) service_uuid char_uuid received response ∷ es) =
    record {
      service = service_uuid;
      sent = record { characteristic = char_uuid; bytes = received; response = response };
    }
    ∷ passed true es
passed true (from_app (err e) service_uuid char_uuid received response ∷ es) = passed true es
passed false (from_app link service_uuid char_uuid received response ∷ es) = passed false es
passed client (from_appliance char_uuid received ∷ es) = passed client es

-- The notifications of the appliance, in order.
abbrev pub notified : List Event → List Bytes
notified [] = []
notified (connects link ∷ es) = notified es
notified (from_app link service_uuid char_uuid received response ∷ es) = notified es
notified (from_appliance char_uuid received ∷ es) = received ∷ notified es

-- The write that the meter is shown for one that passed.
abbrev pub shown : Str → Passed → GattWrite
shown address x = record {
  peer_addr = address;
  service = x.service;
  characteristic = x.sent.characteristic;
  payload = x.sent.bytes;
}

module _ {M : Type 0} (on_write : WriteHandler M) where
  abbrev pub count_all : List GattWrite → M → M
  count_all [] m = m
  count_all (w ∷ ws) m = count_all ws (on_write w m).1

  -- What the two sides and the meter have after some events.
  abbrev Agrees : Proxy M → List Event → Type 0
  Agrees p es =
      let q = relay on_write es p in
      let xs = passed p.has_client es in
      (q.to_appliance ≡ p.to_appliance ++ map (λ x. x.sent) xs)
      × (q.to_app ≡ p.to_app ++ notified es)
      × (q.meter ≡ count_all (map (shown p.address) xs) p.meter)

  abbrev proxy_of : Str → Bool → List Sent → List Bytes → M → Proxy M
  proxy_of address client sent apps m = record {
    address = address;
    has_client = client;
    to_appliance = sent;
    to_app = apps;
    meter = m;
  }

  relay-Agrees :
      (address : Str) (es : List Event) (client : Bool) (sent : List Sent) (apps : List Bytes)
      (m : M)
      → Agrees (proxy_of address client sent apps m) es
  unfolding relay step connect forward_from_app forward_from_appliance forwarded count_write
  relay-Agrees address [] client sent apps m = (sym (append-nil sent), sym (append-nil apps), refl)
  relay-Agrees address (connects link ∷ es) client sent apps m =
      relay-Agrees address es true sent apps m
  relay-Agrees address (from_app link service_uuid char_uuid received response ∷ es) false sent apps
        m =
      relay-Agrees address es false sent apps m
  relay-Agrees address (from_app (err e) service_uuid char_uuid received response ∷ es) true sent
        apps m =
      relay-Agrees address es true sent apps m
  relay-Agrees address (from_app (ok done) service_uuid char_uuid received response ∷ es) true sent
        apps m =
      let s : Sent = record { characteristic = char_uuid; bytes = received; response = response } in
      let x : Passed = record { service = service_uuid; sent = s } in
      let (a, b, c) =
        relay-Agrees address es true (sent ++ s ∷ []) apps (on_write (shown address x) m).1 in
      (a ∙ append_assoc sent (s ∷ []) _, b, c)
  relay-Agrees address (from_appliance char_uuid received ∷ es) client sent apps m =
      let (a, b, c) = relay-Agrees address es client sent (apps ++ received ∷ []) m in
      (a, b ∙ append_assoc apps (received ∷ []) _, c)

  -- Whatever the meter does or raises: the appliance receives exactly the writes of the app that the
  -- stack took once there was a client, unchanged and in their order, and the app exactly the
  -- notifications of the appliance; and the meter has been shown exactly the writes that the
  -- appliance received, each once and in that order.
  pub relay_refines :
      (es : List Event) (p : Proxy M)
      → let q = relay on_write es p in
        let xs = passed p.has_client es in
        (q.to_appliance ≡ p.to_appliance ++ map (λ x. x.sent) xs)
        × (q.to_app ≡ p.to_app ++ notified es)
        × (q.meter ≡ count_all (map (shown p.address) xs) p.meter)
  relay_refines es p = relay-Agrees p.address es p.has_client p.to_appliance p.to_app p.meter
