-- ===== src/Gateway/Observer.antt =====
-- gateway/observer.py: how the notifications of a characteristic are joined to writes.
pub mod Fragments
pub mod Interleaved
mod Tests
use ble_usage_meter.Common.{
  ℕ, Str, Bytes, text, List, [], ◌∷◌, ◌++◌, Bool, true, false, not, ◌&&◌, ◌||◌, Option, none, some,
  Await, completed, broken, then_await, value_error, length, eqb, if◌then◌else◌, ◌==◌, str_is_eq,
  pair_is_eq,
}
use ble_usage_meter.Common.Dict.{Dict, lookup, insert}
use ble_usage_meter.Gateway.Matcher.{GattWrite}
use ble_usage_meter.Gateway.Proxy.{WriteHandler}

-- The handler of one characteristic, on what it has in its buffer: the write that it passes on, if it
-- does, and the buffer after. `mtu_payload` is 0 where the backend does not know it.
unfoldable pub handler : Str → Str → Str → ℕ → Bytes → Bytes → Option GattWrite × Bytes
handler address service_uuid char_uuid mtu_payload received buf =
    if not (eqb mtu_payload 0) && eqb (length received) mtu_payload
    then (none, buf ++ received)
    else (
      some (record {
        peer_addr = address;
        service = service_uuid;
        characteristic = char_uuid;
        payload = buf ++ received;
      }),
      [],
    )

abbrev pub passed_on : Option GattWrite → List GattWrite → List GattWrite
passed_on none ws = ws
passed_on (some w) ws = w ∷ ws

-- The writes of a sequence of notifications, and what is left in the buffer.
unfoldable pub observe : Str → Str → Str → ℕ → List Bytes → Bytes → List GattWrite × Bytes
observe address service_uuid char_uuid mtu_payload [] buf = ([], buf)
observe address service_uuid char_uuid mtu_payload (received ∷ later) buf =
    let (w, buf') = handler address service_uuid char_uuid mtu_payload received buf in
    let (ws, left) = observe address service_uuid char_uuid mtu_payload later buf' in
    (passed_on w ws, left)

-- A characteristic of the device, with its service, as the Bluetooth stack lists it.
pub record Characteristic : Type 0 where
  pub service_uuid : Str
  pub uuid : Str
  pub properties : List Str

unfoldable pub has_property : Str → List Str → Bool
has_property s [] = false
has_property s (t ∷ ts) = (t == s) || has_property s ts

-- What `start_notify` comes to, for the rest of the loop.
abbrev pub go_on {ℓ} : {A : Type ℓ} → Await → A → Await × A → Await × A
go_on completed here later = later
go_on stop here later = (stop, here)

-- The loop of `run`: the characteristics that get a handler, each with a buffer of its own, up to the
-- first that cannot be subscribed to. Characteristics have different UUIDs here.
unfoldable pub attach :
    (Str → Str → Await)
    → List Characteristic
    → Dict (Str × Str) Bytes
    → Await × Dict (Str × Str) Bytes
attach start_notify [] bufs = (completed, bufs)
attach start_notify (c ∷ cs) bufs =
    if not (has_property (text "notify") c.properties)
      && not (has_property (text "indicate") c.properties)
    then attach start_notify cs bufs
    else go_on (start_notify c.service_uuid c.uuid) bufs
        (attach start_notify cs (insert (c.service_uuid, c.uuid) [] bufs))

-- What the stack delivers to the handler of one characteristic.
pub record Notification : Type 0 where
  pub service_uuid : Str
  pub char_uuid : Str
  pub mtu_payload : ℕ
  pub received : Bytes

abbrev pub key_of : Notification → Str × Str
key_of n = (n.service_uuid, n.char_uuid)

abbrev pub handle_with : Str → Notification → Bytes → Option GattWrite × Bytes
handle_with address n buf = handler address n.service_uuid n.char_uuid n.mtu_payload n.received buf

-- A notification whose characteristic has no handler is not delivered.
unfoldable pub deliver_to :
    Option Bytes
    → Str
    → Notification
    → Dict (Str × Str) Bytes
    → Option GattWrite × Dict (Str × Str) Bytes
deliver_to none address n bufs = (none, bufs)
deliver_to (some buf) address n bufs =
    let (w, buf') = handle_with address n buf in (w, insert (key_of n) buf' bufs)

abbrev pub deliver :
    Str → Notification → Dict (Str × Str) Bytes → Option GattWrite × Dict (Str × Str) Bytes
deliver address n bufs = deliver_to (lookup (key_of n) bufs) address n bufs

-- The writes that all handlers pass on, in the order in which they do.
unfoldable pub observe_all : Str → List Notification → Dict (Str × Str) Bytes → List GattWrite
observe_all address [] bufs = []
observe_all address (n ∷ ns) bufs =
    passed_on (deliver address n bufs).0 (observe_all address ns (deliver address n bufs).1)

module _ {M : Type 0} (on_write : WriteHandler M) where
  -- `on_write` in the handler of a characteristic; what it raises goes to the Bluetooth stack.
  abbrev pub meter_on : Option GattWrite → M → M
  meter_on none m = m
  meter_on (some w) m = (on_write w m).1

  -- The handlers at work.
  unfoldable pub notify_all : Str → List Notification → Dict (Str × Str) Bytes → M → M
  notify_all address [] bufs m = m
  notify_all address (n ∷ ns) bufs m =
      notify_all address ns (deliver address n bufs).1 (meter_on (deliver address n bufs).0 m)

  -- What is left of `run` with a client: the subscriptions, the notifications that come to their
  -- handlers, and the wait for `stop`; however it ends, the client disconnects.
  unfoldable pub run_attached :
      Str → Await × Dict (Str × Str) Bytes → List Notification → Await → Await → M → Await × M
  run_attached address (stop, bufs) ns waits leaves m =
      (then_await leaves (then_await stop waits), notify_all address ns bufs m)

  unfoldable pub run_client :
      Await
      → Str
      → List Characteristic
      → (Str → Str → Await)
      → List Notification
      → Await
      → Await
      → M
      → Await × M
  run_client link address cs start_notify ns waits leaves m =
      go_on link m (run_attached address (attach start_notify cs []) ns waits leaves m)

  -- `run`, with what comes of each call of the stack, and what the device offers and notifies.
  unfoldable pub run :
      Option Str
      → Await
      → List Characteristic
      → (Str → Str → Await)
      → List Notification
      → Await
      → Await
      → M
      → Await × M
  run none link cs start_notify ns waits leaves m = (broken value_error, m)
  run (some address) link cs start_notify ns waits leaves m =
      run_client link address cs start_notify ns waits leaves m
