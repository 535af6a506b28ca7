-- ===== src/Gateway/Command/Report.antt =====
-- What the `report` command comes to: its exit code, and the tables after it.
use ble_usage_meter.Common.{
  ℕ, ◌≡◌, ◌↔◌, ◌⊎◌, inl, refl, ap, ◌∙◌, Bytes, List, [], ◌∷◌, map, true, Option, some, Result, ok,
  ◌>>=◌, All, bind-eq-ok, ok-injective, arith,
}
use ble_usage_meter.Common.Int.{ℤ, pos_part, ◌-ℤ◌}
use ble_usage_meter.Common.Ed25519.{Ed25519}
use ble_usage_meter.Gateway.Config.Settings.{GatewayConfig}
use ble_usage_meter.Gateway.Signer.{ReportTuple, PrivateKey, from_file}
use ble_usage_meter.Gateway.Counter.{Counter}
use ble_usage_meter.Gateway.Store.{Store}
use ble_usage_meter.Gateway.Store.AppendOnly.{stored_count}
use ble_usage_meter.Gateway.Pipeline.Counts.{IsBacked, load-get}
use ble_usage_meter.Gateway.Reporter.{Payload, Attempt, PostResult, build_payload, post, exit_code}
use ble_usage_meter.Gateway.Reporter.Runs.{Reports, run_sequence, prepare_lem}
use ble_usage_meter.Gateway.Command.{post_all, run_all, with_key, with_counter, cmd_report}
use ble_usage_meter.Gateway.Command.Signing.{
  IsSettled, ok-IsSettled, bind-IsSettled, build_payload-IsSettled,
}

module _ (scheme : Ed25519) (cfg : GatewayConfig) (server : Payload → ℕ → Attempt)
    (key : Bytes) where
  -- What comes of one payload.
  abbrev pub outcome : Payload → PostResult
  outcome payload =
      (post (server payload) (pos_part cfg.retry_base_sec) (pos_part cfg.retry_max_sec)
        (pos_part cfg.retry_max_attempts)).0

  -- A report whose payload can be built and is delivered.
  abbrev pub Delivered : ReportTuple → Type 0
  Delivered r =
      (payload : Payload) × (build_payload scheme key r ≡ ok payload)
      × ((outcome payload).delivered ≡ true)

  abbrev run : List ReportTuple → Result ℕ
  run rs = do results ← post_all scheme cfg server key rs; ok (exit_code results)

  pub exit_code-bit :
      (results : List PostResult) → (exit_code results ≡ 0) ⊎ (exit_code results ≡ 1)
  unfolding exit_code
  exit_code-bit [] = inl refl
  exit_code-bit (r ∷ rs) = ground (arith, exit_code-bit rs)

  exit_code-all :
      (r : PostResult) (rs : List PostResult)
      → exit_code (r ∷ rs) ≡ 0
      → (r.delivered ≡ true) × (exit_code rs ≡ 0)
  unfolding exit_code
  exit_code-all r rs h = ground (arith, h)

  run_sound : (rs : List ReportTuple) → run rs ≡ ok 0 → All Delivered rs
  unfolding post_all
  run_sound [] h = tt
  run_sound (r ∷ rs) h =
      let (results, e, zero) = bind-eq-ok (post_all scheme cfg server key (r ∷ rs)) _ h in
      let (payload, built, e1) = bind-eq-ok (build_payload scheme key r) _ e in
      let (rest, posted, e2) = bind-eq-ok (post_all scheme cfg server key rs) _ e1 in
      let (good, others) =
        exit_code-all (outcome payload) rest (ap exit_code (ok-injective e2) ∙ ok-injective zero) in
      ((payload, built, good), run_sound rs (rw posted (ap ok others)))

  run_complete : (rs : List ReportTuple) → All Delivered rs → run rs ≡ ok 0
  unfolding post_all exit_code
  run_complete [] h = refl
  run_complete (r ∷ rs) ((payload, built, good), h) =
      let (results, posted, zero) =
        bind-eq-ok (post_all scheme cfg server key rs) _ (run_complete rs h) in
      rw (built, posted, good) zero

  -- Signing raises nothing that `main` takes for a bad configuration.
  pub post_all-IsSettled : (rs : List ReportTuple) → IsSettled (post_all scheme cfg server key rs)
  unfolding post_all
  post_all-IsSettled [] = ok-IsSettled []
  post_all-IsSettled (r ∷ rs) =
      bind-IsSettled _ _ (build_payload-IsSettled scheme key r) (λ payload.
        bind-IsSettled _ _ (post_all-IsSettled rs) (λ rest. ok-IsSettled (outcome payload ∷ rest)))

module _ (scheme : Ed25519) (cfg : GatewayConfig) (server : Payload → ℕ → Attempt)
    (load_pem : Bytes → Result PrivateKey) (key_file : Option Bytes) (now : ℤ) (s : Store) where
  -- With a key that can be read and counts that are backed by the log, the command makes one report of
  -- each stored device, in the order of the table, with its stored count and a new sequence, exits with 0 exactly when each of them was delivered, and
  -- leaves the tables as they were but for that sequence, whatever comes of the posts.
  pub cmd_report_lem :
      (c : Counter) (key : Bytes)
      → IsBacked s c
      → from_file load_pem key_file ≡ ok key
      → (rs : List ReportTuple) × Reports
          (stored_count s)
          (run_sequence s)
          (now -ℤ cfg.report_interval_sec)
          now
          rs
        × (map (λ r. r.device_id) rs ≡ map (λ row. row.0) s.counters)
        × (((cmd_report scheme cfg server load_pem key_file now s).0 ≡ ok 0)
            ↔ All (Delivered scheme cfg server key) rs)
        × ((cmd_report scheme cfg server load_pem key_file now s).1
            ≡ record s { sequence = some (run_sequence s) })
  unfolding cmd_report with_counter with_key run_all
  cmd_report_lem c key backed readable =
      let (c', loaded, _, _) = load-get s backed.dict backed.counts in
      let (rs, prepared, reports, devices) = prepare_lem now cfg.report_interval_sec s c backed in
      (
        rs,
        reports,
        devices,
        rw (loaded, readable, prepared)
            (run_sound scheme cfg server key rs, run_complete scheme cfg server key rs),
        rw (loaded, readable, prepared) refl,
      )
