-- ===== src/Gateway/Proxy.antt =====
-- gateway/proxy.py: the relay between the operator's app and the operator's own appliance. What the
-- Bluetooth stack does with a call is a parameter; what the meter does is the handler of writes.
pub mod Transparent
mod Tests
use ble_usage_meter.Common.{
  Str, Bytes, List, [], ◌∷◌, ◌++◌, Bool, true, false, Await, completed, then_await, Result, ok, err,
  runtime_error, if◌then◌else◌,
}
use ble_usage_meter.Gateway.Matcher.{GattWrite}

-- What the appliance receives: the characteristic, the bytes, and whether an answer is wanted.
pub record Sent : Type 0 where
  pub characteristic : Str
  pub bytes : Bytes
  pub response : Bool

-- `has_client`: `_client` is not None. The traffic of both sides is kept in its order.
pub record Proxy (M : Type 0) : Type 0 where
  pub address : Str
  pub has_client : Bool
  pub to_appliance : List Sent
  pub to_app : List Bytes
  pub meter : M

-- The handler that the proxy is made with, over the state of the meter.
abbrev pub WriteHandler : Type 0 → Type 0
WriteHandler M = GattWrite → M → Result (Unit {0}) × M

-- What arrives at the proxy. The result is what comes of the call of the Bluetooth stack.
pub data Event : Type 0 where
  connects : Result (Unit {0}) → Event
  from_app : Result (Unit {0}) → Str → Str → Bytes → Bool → Event
  from_appliance : Str → Bytes → Event

module _ {M : Type 0} where
  -- The client is made before it connects.
  unfoldable pub connect : Result (Unit {0}) → Proxy M → Result (Unit {0}) × Proxy M
  connect link p = (link, record p { has_client = true })

  -- The meter's turn, after the forward: whatever it raises is logged and goes no further.
  unfoldable pub count_write : WriteHandler M → GattWrite → Proxy M → Result (Unit {0}) × Proxy M
  count_write on_write w p = (ok tt, record p { meter = (on_write w p.meter).1 })

  -- What follows `write_gatt_char`: an error of it goes up, and nothing is counted.
  unfoldable pub forwarded :
      WriteHandler M → GattWrite → Sent → Result (Unit {0}) → Proxy M → Result (Unit {0}) × Proxy M
  unfolding count_write
  forwarded on_write w sent (err e) p = (err e, p)
  forwarded on_write w sent (ok done) p =
      count_write on_write w (record p { to_appliance = p.to_appliance ++ sent ∷ [] })

  unfoldable pub forward_from_app :
      WriteHandler M
      → Result (Unit {0})
      → Str
      → Str
      → Bytes
      → Bool
      → Proxy M
      → Result (Unit {0}) × Proxy M
  unfolding forwarded
  forward_from_app on_write link service_uuid char_uuid received response p =
      if p.has_client
      then forwarded on_write
          (record {
            peer_addr = p.address;
            service = service_uuid;
            characteristic = char_uuid;
            payload = received;
          })
          (record { characteristic = char_uuid; bytes = received; response = response }) link p
      else (err runtime_error, p)

  unfoldable pub forward_from_appliance : Str → Bytes → Proxy M → Bytes × Proxy M
  forward_from_appliance char_uuid received p =
      (received, record p { to_app = p.to_app ++ received ∷ [] })

  unfoldable pub step : WriteHandler M → Event → Proxy M → Proxy M
  unfolding connect forward_from_app forward_from_appliance
  step on_write (connects link) p = (connect link p).1
  step on_write (from_app link service_uuid char_uuid received response) p =
      (forward_from_app on_write link service_uuid char_uuid received response p).1
  step on_write (from_appliance char_uuid received) p =
      (forward_from_appliance char_uuid received p).1

  unfoldable pub relay : WriteHandler M → List Event → Proxy M → Proxy M
  relay on_write [] p = p
  relay on_write (e ∷ es) p = relay on_write es (step on_write e p)

  -- `run`, with what comes of connecting, what arrives while it waits, how the wait ends, and what comes
  -- of disconnecting, which is called however it ends.
  unfoldable pub run :
      WriteHandler M → Await → List Event → Await → Await → Proxy M → Await × Proxy M
  unfolding connect
  run on_write completed es waits disconnects p =
      (then_await disconnects waits, relay on_write es (connect (ok tt) p).1)
  run on_write stop es waits disconnects p = (stop, (connect (ok tt) p).1)
