-- ===== src/Gateway/Command/Main.antt =====
-- gateway/cli.py: `main` from the parsed command line on.
use ble_usage_meter.Common.{ℕ, Str, Bytes, List, [], ◌∷◌, Option, Result, ok, err, ◌>>=◌}
use ble_usage_meter.Common.Int.{ℤ}
use ble_usage_meter.Common.Ed25519.{Ed25519}
use ble_usage_meter.Gateway.Config.Settings.{GatewayConfig}
use ble_usage_meter.Gateway.Signer.{PrivateKey}
use ble_usage_meter.Gateway.Store.{Store}
use ble_usage_meter.Gateway.Reporter.{Payload, Attempt}
use ble_usage_meter.Gateway.Command.{cmd_report, main_exit}
use ble_usage_meter.Gateway.Command.Status.{cmd_status}
use ble_usage_meter.Gateway.Command.Watch.{Observation, Relaying, cmd_observe, cmd_proxy}

-- The subcommands with their arguments and what they meet: the Bluetooth stack, or the server and the
-- file of the private key.
pub data Command : Type 0 where
  observe : Str → Observation → Command
  proxy : Str → Relaying → Command
  report : (Payload → ℕ → Attempt) → Option Bytes → Command
  status : ℤ → Command

-- One run of the program: what `load_gateway` gives, the subcommand, and the clock.
pub record Invocation : Type 0 where
  pub loaded : Result GatewayConfig
  pub command : Command
  pub clock : ℕ → ℤ

module _ (scheme : Ed25519) (load_pem : Bytes → Result PrivateKey) where
  -- `args.func(args)`
  unfoldable pub run_command : GatewayConfig → (ℕ → ℤ) → Command → Store → Result ℕ × Store
  run_command cfg clock (observe address o) s = cmd_observe clock cfg address o s
  run_command cfg clock (proxy address r) s = cmd_proxy clock cfg address r s
  run_command cfg clock (report server key_file) s =
      cmd_report scheme cfg server load_pem key_file (clock 0) s
  run_command cfg clock (status events_tail) s =
      let (printed, s') = cmd_status cfg events_tail s in ((do r ← printed; ok 0), s')

  unfoldable pub main_with : Result GatewayConfig → (ℕ → ℤ) → Command → Store → Result ℕ × Store
  main_with (err e) clock command s = (main_exit (err e), s)
  main_with (ok cfg) clock command s =
      let (code, s') = run_command cfg clock command s in (main_exit code, s')

  unfoldable pub main : Invocation → Store → Result ℕ × Store
  main i s = main_with i.loaded i.clock i.command s

  -- The tables after several runs, one after the other.
  unfoldable pub main_all : List Invocation → Store → Store
  main_all [] s = s
  main_all (i ∷ rest) s = main_all rest (main i s).1
