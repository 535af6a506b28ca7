-- ===== src/Gateway/Command/Refused.antt =====
-- The `report` command where it cannot be carried out.
use ble_usage_meter.Common.{
  ℕ, ◌≡◌, ◌⊎◌, inl, inr, Bool-cases, true, if◌then◌else◌, Str, ◌∷◌, refl, ap, Bytes, List, [],
  Option, Error, config_error, Result, ok, err, ◌>>=◌, ok-injective, arith,
}
use ble_usage_meter.Common.Int.{ℤ, pos, ltb_ℤ, leb_ℤ}
use ble_usage_meter.Common.Dict.{Dict}
use ble_usage_meter.Common.Ed25519.{Ed25519}
use ble_usage_meter.Gateway.Config.Settings.{GatewayConfig}
use ble_usage_meter.Gateway.Signer.{ReportTuple, PrivateKey, from_file}
use ble_usage_meter.Gateway.Counter.{Counter, init, get, restore, next_sequence}
use ble_usage_meter.Gateway.Store.{Store, load_counters, save_sequence, load_sequence}
use ble_usage_meter.Gateway.Pipeline.{load, restore_all}
use ble_usage_meter.Gateway.Reporter.{Payload, Attempt, PostResult, prepare, exit_code}
use ble_usage_meter.Gateway.Command.{
  unsignable, post_all, run_all, with_key, with_counter, cmd_report, main_exit,
}
use ble_usage_meter.Gateway.Command.Signing.{
  IsSettled, ok-IsSettled, bind-IsSettled, if-IsSettled, value_error-IsSettled,
}
use ble_usage_meter.Gateway.Command.Report.{post_all-IsSettled, exit_code-bit}
use ble_usage_meter.Gateway.Command.Main.{Invocation, report, run_command, main_with, main}

main_exit-two : (e : Error) → main_exit (err e) ≡ ok 2 → e ≡ config_error
unfolding main_exit
main_exit-two config_error h = refl
main_exit-two e h = absurd (cc)

restore-IsSettled : (d : Str) (n : ℤ) (c : Counter) → IsSettled (restore d n c)
unfolding restore
restore-IsSettled d n c =
    if-IsSettled (ltb_ℤ n (pos 0)) _ _ value_error-IsSettled
      (if-IsSettled (leb_ℤ (get c d) n) _ _ (ok-IsSettled _) (ok-IsSettled c))

restore_all-IsSettled : (counts : Dict Str ℤ) (c : Counter) → IsSettled (restore_all counts c)
unfolding restore_all
restore_all-IsSettled [] c = ok-IsSettled c
restore_all-IsSettled ((d, n) ∷ counts) c =
    bind-IsSettled (restore d n c) _ (restore-IsSettled d n c) (restore_all-IsSettled counts)

-- Starting from the tables raises no `ConfigError`, and saving the sequence neither.
load-IsSettled : (s : Store) → IsSettled (load s)
unfolding load
load-IsSettled s =
    bind-IsSettled (restore_all (load_counters s) init) _
      (restore_all-IsSettled (load_counters s) init) (λ c. ok-IsSettled _)

save_sequence-IsSettled : (n : ℤ) (s : Store) → IsSettled (save_sequence n s)
unfolding save_sequence
save_sequence-IsSettled n s =
    if-IsSettled (ltb_ℤ n (load_sequence s)) _ _ value_error-IsSettled (ok-IsSettled _)

prepare-IsSettled : (now interval : ℤ) (s : Store) → IsSettled (prepare now interval s)
unfolding prepare
prepare-IsSettled now interval s = bind-IsSettled (load s) _ (load-IsSettled s) (λ c.
    bind-IsSettled (save_sequence (next_sequence c).0 s) _
      (save_sequence-IsSettled (next_sequence c).0 s) (λ s'. ok-IsSettled _))

module _ (scheme : Ed25519) (cfg : GatewayConfig) (server : Payload → ℕ → Attempt)
    (load_pem : Bytes → Result PrivateKey) (key_file : Option Bytes) (now : ℤ) (s : Store) where
  posts-end :
      (m : Result (List PostResult))
      → IsSettled m
      → main_exit (do results ← m; ok (exit_code results)) ≡ ok 2
      → ⊥
  unfolding main_exit
  posts-end (ok results) h e = elim (exit_code-bit scheme cfg server [] results) [
    | inl zero ↦ omega (arith, zero, ok-injective e)
    | inr one ↦ omega (arith, one, ok-injective e)
  ]
  posts-end (err d) h e = h (ap err (main_exit-two d e))

  run_all-end :
      (key : Bytes) (prepared : Result (List ReportTuple × Store))
      → IsSettled prepared
      → main_exit (run_all scheme cfg server key s prepared).0 ≡ ok 2
      → ⊥
  unfolding run_all
  run_all-end key (err e) settled h = settled (ap err (main_exit-two e h))
  run_all-end key (ok (rs, s')) settled h =
      posts-end (post_all scheme cfg server key rs) (post_all-IsSettled scheme cfg server key rs) h

  -- The private key could not be used.
  abbrev pub NoKey : Result Bytes → Type 0
  NoKey key = (e : Error) × (key ≡ err e) × (unsignable e ≡ true)

  -- An exit with 2 leaves the tables alone, and there is no key to sign with.
  abbrev Settles : Result ℕ × Store → Type 0
  Settles (code, s') = main_exit code ≡ ok 2 → (s' ≡ s) × NoKey (from_file load_pem key_file)

  unsignable-two :
      (e : Error) → main_exit (if unsignable e then ok 2 else err e) ≡ ok 2 → unsignable e ≡ true
  unfolding main_exit
  unsignable-two e h = elim (Bool-cases (unsignable e)) [
    | inl bad ↦ bad
    | inr other ↦ ap unsignable (main_exit-two e (rw other at h))
  ]

  with_key-Settles :
      (key : Result Bytes)
      → main_exit (with_key scheme cfg server now s key).0 ≡ ok 2
      → ((with_key scheme cfg server now s key).1 ≡ s) × NoKey key
  unfolding with_key
  with_key-Settles (err e) h = (refl, (e, refl, unsignable-two e h))
  with_key-Settles (ok key) h = absurd (
      run_all-end key (prepare now cfg.report_interval_sec s)
        (prepare-IsSettled now cfg.report_interval_sec s) h)

  with_counter-Settles :
      (c : Result Counter)
      → IsSettled c
      → Settles (with_counter scheme cfg server load_pem key_file now s c)
  unfolding with_counter
  with_counter-Settles (err e) settled h = absurd (settled (ap err (main_exit-two e h)))
  with_counter-Settles (ok c) settled h = with_key-Settles (from_file load_pem key_file) h

-- Where the program exits with 2 on the command `report`, the tables are as before, so no sequence was
-- spent, and the configuration was refused, or it was loaded and reading the private key raised one of
-- the exceptions that the command expects there.
pub main_refused :
    (scheme : Ed25519) (load_pem : Bytes → Result PrivateKey) (loaded : Result GatewayConfig)
    (clock : ℕ → ℤ) (server : Payload → ℕ → Attempt) (key_file : Option Bytes) (s : Store)
    → let i : Invocation = record {
      loaded = loaded;
      command = report server key_file;
      clock = clock;
    } in
      (main scheme load_pem i s).0 ≡ ok 2
      → ((main scheme load_pem i s).1 ≡ s)
        × ((loaded ≡ err config_error)
            ⊎ (((cfg : GatewayConfig) × (loaded ≡ ok cfg))
                × ((e : Error) × (from_file load_pem key_file ≡ err e) × (unsignable e ≡ true))))
unfolding main run_command main_with cmd_report
main_refused scheme load_pem (err e) clock server key_file s h =
    (refl, inl (ap err (main_exit-two e h)))
main_refused scheme load_pem (ok cfg) clock server key_file s h =
    let (same, no_key) =
      with_counter-Settles scheme cfg server load_pem key_file (clock 0) s (load s)
        (load-IsSettled s) h in
    (same, inr ((cfg, refl), no_key))
