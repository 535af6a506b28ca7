-- ===== src/Gateway/Command/Watch.antt =====
-- gateway/cli.py: the `observe` and `proxy` commands.
use ble_usage_meter.Common.{
  ℕ, suc, Str, List, [], some, Await, completed, interrupted, broken, Result, ok, err, false,
}
use ble_usage_meter.Common.Int.{ℤ}
use ble_usage_meter.Gateway.Config.Settings.{GatewayConfig}
use ble_usage_meter.Gateway.Counter.{Counter}
use ble_usage_meter.Gateway.Matcher.{matcher_of}
use ble_usage_meter.Gateway.Store.{Store}
use ble_usage_meter.Gateway.Pipeline.{Pipeline, handle, load}
use ble_usage_meter.Gateway.Observer
use ble_usage_meter.Gateway.Observer.{Characteristic, Notification}
use ble_usage_meter.Gateway.Proxy
use ble_usage_meter.Gateway.Proxy.{Proxy, WriteHandler, Event}

-- The pipeline, and how often the clock was read.
pub record Metered : Type 0 where
  pub pipeline : Pipeline
  pub ticks : ℕ

-- `Pipeline(cfg, store, counter)`
abbrev pub pipeline_of : GatewayConfig → Store → Counter → Pipeline
pipeline_of cfg s c = record { matcher = matcher_of cfg.rules; store = s; counter = c }

-- What the Bluetooth stack makes of a run of the observer, and what it delivers.
pub record Observation : Type 0 where
  pub link : Await
  pub characteristics : List Characteristic
  pub start_notify : Str → Str → Await
  pub notifications : List Notification
  pub waits : Await
  pub leaves : Await

-- The same for a run of the proxy.
pub record Relaying : Type 0 where
  pub link : Await
  pub events : List Event
  pub waits : Await
  pub disconnects : Await

abbrev pub proxy_of : Str → Metered → Proxy Metered
proxy_of address m = record {
  address = address;
  has_client = false;
  to_appliance = [];
  to_app = [];
  meter = m;
}

-- The exit code: `KeyboardInterrupt` stops the run as it should.
unfoldable pub exit_of : Await → Result ℕ
exit_of completed = ok 0
exit_of interrupted = ok 0
exit_of (broken e) = err e

module _ (clock : ℕ → ℤ) where
  -- `pipeline.handle` as the observer and the proxy call it; its two statements read the clock.
  unfoldable pub on_write : WriteHandler Metered
  on_write w m = (
    (handle w (clock m.ticks) (clock (suc m.ticks)) m.pipeline).0,
    record {
      pipeline = (handle w (clock m.ticks) (clock (suc m.ticks)) m.pipeline).1;
      ticks = suc (suc m.ticks);
    },
  )

  unfoldable pub observe_with :
      GatewayConfig → Str → Observation → Store → Result Counter → Result ℕ × Store
  observe_with cfg address o s (err e) = (err e, s)
  observe_with cfg address o s (ok c) =
      let (end, m) =
        Observer.run on_write (some address) o.link o.characteristics o.start_notify o.notifications
          o.waits o.leaves (record { pipeline = pipeline_of cfg s c; ticks = 0 }) in
      (exit_of end, m.pipeline.store)

  -- `cmd_observe` after the configuration is loaded: its exit code or what it raises, and the tables.
  unfoldable pub cmd_observe : GatewayConfig → Str → Observation → Store → Result ℕ × Store
  cmd_observe cfg address o s = observe_with cfg address o s (load s)

  unfoldable pub proxy_with :
      GatewayConfig → Str → Relaying → Store → Result Counter → Result ℕ × Store
  proxy_with cfg address r s (err e) = (err e, s)
  proxy_with cfg address r s (ok c) =
      let (end, p) =
        Proxy.run on_write r.link r.events r.waits r.disconnects
          (proxy_of address (record { pipeline = pipeline_of cfg s c; ticks = 0 })) in
      (exit_of end, p.meter.pipeline.store)

  -- `cmd_proxy` in the same way, with the calls that the peripheral's side makes of the proxy.
  unfoldable pub cmd_proxy : GatewayConfig → Str → Relaying → Store → Result ℕ × Store
  cmd_proxy cfg address r s = proxy_with cfg address r s (load s)
