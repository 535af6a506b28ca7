-- ===== src/Gateway/Command.antt =====
-- gateway/cli.py: the `report` command as a whole, and the exit codes of the program.
pub mod Signing
pub mod Report
pub mod Status
pub mod Watch
pub mod Main
pub mod Refused
pub mod Tests
use ble_usage_meter.Common.{
  ℕ, suc, Bytes, List, [], ◌∷◌, Bool, true, false, Option, Error, value_error, config_error,
  unicode_error, missing_file, Result, ok, err, ◌>>=◌, if◌then◌else◌,
}
use ble_usage_meter.Common.Int.{ℤ, pos_part}
use ble_usage_meter.Common.Ed25519.{Ed25519}
use ble_usage_meter.Gateway.Config.Settings.{GatewayConfig}
use ble_usage_meter.Gateway.Signer.{ReportTuple, PrivateKey, from_file}
use ble_usage_meter.Gateway.Counter.{Counter}
use ble_usage_meter.Gateway.Store.{Store}
use ble_usage_meter.Gateway.Pipeline.{load}
use ble_usage_meter.Gateway.Reporter.{
  Payload, Attempt, PostResult, build_payload, post, prepare, exit_code,
}

-- `except (FileNotFoundError, ValueError)`; `ConfigError` and `UnicodeEncodeError` are `ValueError`s.
abbrev pub unsignable : Error → Bool
unsignable missing_file = true
unsignable value_error = true
unsignable config_error = true
unsignable unicode_error = true
unsignable e = false

module _ (scheme : Ed25519) (cfg : GatewayConfig) (server : Payload → ℕ → Attempt) where
  -- The loop of `run_all`. A payload that cannot be built ends it.
  unfoldable pub post_all : Bytes → List ReportTuple → Result (List PostResult)
  post_all key [] = ok []
  post_all key (r ∷ rs) = do
    payload ← build_payload scheme key r
    rest ← post_all key rs
    ok (
        (post (server payload) (pos_part cfg.retry_base_sec) (pos_part cfg.retry_max_sec)
          (pos_part cfg.retry_max_attempts)).0
        ∷ rest)

  -- What is left of the command once the sequence is saved, or was refused.
  unfoldable pub run_all : Bytes → Store → Result (List ReportTuple × Store) → Result ℕ × Store
  run_all key s (err e) = (err e, s)
  run_all key s (ok (tuples, s')) = (do results ← post_all key tuples; ok (exit_code results), s')

  -- What is left of it once the key is read, or could not be.
  unfoldable pub with_key : ℤ → Store → Result Bytes → Result ℕ × Store
  with_key now s (err e) = (if unsignable e then ok 2 else err e, s)
  with_key now s (ok key) = run_all key s (prepare now cfg.report_interval_sec s)

  unfoldable pub with_counter :
      (Bytes → Result PrivateKey) → Option Bytes → ℤ → Store → Result Counter → Result ℕ × Store
  with_counter load_pem key_file now s (err e) = (err e, s)
  with_counter load_pem key_file now s (ok counter) = with_key now s (from_file load_pem key_file)

  -- `cmd_report` after the configuration is loaded: its exit code or what it raises, and the tables
  -- after it. `server` is what comes of a payload's attempts, `key_file` what the private key's file holds.
  unfoldable pub cmd_report :
      (Bytes → Result PrivateKey) → Option Bytes → ℤ → Store → Result ℕ × Store
  cmd_report load_pem key_file now s = with_counter load_pem key_file now s (load s)

-- The end of `main`: a `ConfigError` is an exit code as well, anything else that is raised ends the
-- program with a traceback.
unfoldable pub main_exit : Result ℕ → Result ℕ
main_exit (err config_error) = ok 2
main_exit result = result
