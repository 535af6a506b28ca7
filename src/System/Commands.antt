-- ===== src/System/Commands.antt =====
-- The gateway as the operator runs it: one command after the other on the same tables (gateway/cli.py
-- with gateway/observer.py, gateway/proxy.py, gateway/reporter.py and gateway/store.py).
pub mod Room
pub mod Run
pub mod All
mod Tests
use ble_usage_meter.Common.{
  ℕ, suc, ◌+◌, ◌≤◌, ◌≡◌, refl, sym, ap, subst, ◌∙◌, Str, Bytes, List, [], ◌∷◌, map, length, Bool,
  true, false, Option, none, some, Await, completed, interrupted, broken, Result, ok, err, arith,
  inl, inr, Result-cases, Option-cases, if◌then◌else◌, str_is_eq,
}
use ble_usage_meter.Common.Int.{ℤ, pos, ◌≤ℤ◌, ◌+ℤ◌, max_ℤ, +ℤ_parts, +ℤ_zero, +ℤ_pos_assoc}
use ble_usage_meter.Common.Dict.{Dict, IsDict}
use ble_usage_meter.Common.Ed25519.{Ed25519}
use ble_usage_meter.Gateway.Config.{EventRule}
use ble_usage_meter.Gateway.Config.Settings.{GatewayConfig}
use ble_usage_meter.Gateway.Counter.{Counter}
use ble_usage_meter.Gateway.Matcher.{GattWrite}
use ble_usage_meter.Gateway.Signer.{PrivateKey, from_file}
use ble_usage_meter.Gateway.Store.{Store, is_int64, load_sequence}
use ble_usage_meter.Gateway.Store.AppendOnly.{stored_count}
use ble_usage_meter.Gateway.Pipeline.{load}
use ble_usage_meter.Gateway.Pipeline.Counts.{IsBacked, IsExact, known_events, load-get}
use ble_usage_meter.Gateway.Pipeline.Uses.{IsReady, is_use}
use ble_usage_meter.Gateway.Observer
use ble_usage_meter.Gateway.Proxy
use ble_usage_meter.Gateway.Reporter.{Payload, Attempt}
use ble_usage_meter.Gateway.Observer.{
  Notification, attach, observe_all, passed_on, deliver, meter_on, notify_all,
}
use ble_usage_meter.Gateway.Proxy.{WriteHandler, relay}
use ble_usage_meter.Gateway.Proxy.Transparent.{passed, shown, count_all, relay_refines}
use ble_usage_meter.Gateway.Reporter.Runs.{run_sequence}
use ble_usage_meter.Gateway.Command.{cmd_report, with_counter, with_key}
use ble_usage_meter.Gateway.Command.Report.{cmd_report_lem}
use ble_usage_meter.Gateway.Command.Status.{cmd_status}
use ble_usage_meter.Gateway.Command.Watch.{
  Metered, pipeline_of, Observation, Relaying, proxy_of, on_write, observe_with, cmd_observe,
  proxy_with, cmd_proxy,
}
use ble_usage_meter.Gateway.Command.Main.{
  Command, observe, proxy, report, status, Invocation, run_command, main_with, main, main_all,
}
use ble_usage_meter.System.Metered.{uses_among, count_all-IsReady}

-- The tables of a meter whose counts are what its log shows.
pub record AgreesWithLog (s : Store) : Type 0 where
  pub dict : IsDict s.counters
  pub stored : (d : Str) → stored_count s d ≡ pos (known_events d s.events)

-- So many more writes and runs fit into 64 bits.
pub record HasRoom (writes runs : ℕ) (s : Store) : Type 0 where
  pub counts : (d : Str) → stored_count s d +ℤ pos writes ≤ℤ pos 9223372036854775807
  pub sequence : max_ℤ (pos 0) (load_sequence s) +ℤ pos runs ≤ℤ pos 9223372036854775807

-- The writes that a command hands to the pipeline.
abbrev pub observed_writes : Str → Observation → Await → List GattWrite
observed_writes address o completed =
    observe_all address o.notifications (attach o.start_notify o.characteristics []).1
observed_writes address o stop = []

abbrev pub relayed_writes : Str → Relaying → Await → List GattWrite
relayed_writes address r completed = map (shown address) (passed true r.events)
relayed_writes address r stop = []

unfoldable pub writes_of : Command → List GattWrite
writes_of (observe address o) = observed_writes address o o.link
writes_of (proxy address r) = relayed_writes address r r.link
writes_of (report server key_file) = []
writes_of (status events_tail) = []

-- The specification: the uses that the runs of the program meet, each under its own rules.
unfoldable pub writes_seen : Result GatewayConfig → Command → List GattWrite
writes_seen (err e) command = []
writes_seen (ok cfg) command = writes_of command

unfoldable pub uses_seen : Str → Result GatewayConfig → Command → ℕ
uses_seen d (err e) command = 0
uses_seen d (ok cfg) command = uses_among cfg.rules d (writes_of command)

unfoldable pub total_writes : List Invocation → ℕ
total_writes [] = 0
total_writes (i ∷ rest) = length (writes_seen i.loaded i.command) + total_writes rest

unfoldable pub total_uses : Str → List Invocation → ℕ
total_uses d [] = 0
total_uses d (i ∷ rest) = uses_seen d i.loaded i.command + total_uses d rest
