-- ===== src/System/Commands/Run.antt =====
-- The commands of gateway/cli.py one by one, from tables that agree with their log.
use ble_usage_meter.Common.{
  ℕ, ◌≡◌, refl, sym, ◌∙◌, Str, Bytes, List, [], ◌∷◌, length, true, Option, none, some, Await,
  completed, interrupted, broken, Result, ok, inl, inr, Result-cases, str_is_eq,
}
use ble_usage_meter.Common.Int.{ℤ, pos, max_ℤ, +ℤ_zero}
use ble_usage_meter.Common.Dict.{Dict}
use ble_usage_meter.Common.Ed25519.{Ed25519}
use ble_usage_meter.Gateway.Config.Settings.{GatewayConfig}
use ble_usage_meter.Gateway.Counter.{Counter}
use ble_usage_meter.Gateway.Matcher.{GattWrite}
use ble_usage_meter.Gateway.Signer.{PrivateKey, from_file}
use ble_usage_meter.Gateway.Store.{Store, load_sequence}
use ble_usage_meter.Gateway.Store.AppendOnly.{stored_count}
use ble_usage_meter.Gateway.Pipeline.{load}
use ble_usage_meter.Gateway.Pipeline.Counts.{IsBacked, IsExact}
use ble_usage_meter.Gateway.Observer
use ble_usage_meter.Gateway.Proxy
use ble_usage_meter.Gateway.Reporter.{Payload, Attempt}
use ble_usage_meter.Gateway.Observer.{
  Notification, attach, observe_all, passed_on, deliver, meter_on, notify_all,
}
use ble_usage_meter.Gateway.Proxy.{WriteHandler, relay}
use ble_usage_meter.Gateway.Proxy.Transparent.{count_all, relay_refines}
use ble_usage_meter.Gateway.Command.{cmd_report, with_counter, with_key}
use ble_usage_meter.Gateway.Command.Report.{cmd_report_lem}
use ble_usage_meter.Gateway.Command.Status.{cmd_status}
use ble_usage_meter.Gateway.Command.Watch.{
  Metered, pipeline_of, Observation, Relaying, proxy_of, on_write, observe_with, cmd_observe,
  proxy_with, cmd_proxy,
}
use ble_usage_meter.Gateway.Command.Main.{Command, observe, proxy, report, status, run_command}
use ble_usage_meter.System.Metered.{uses_among, count_all-IsReady}
use ble_usage_meter.System.Commands.{
  AgreesWithLog, HasRoom, observed_writes, relayed_writes, writes_of,
}
use ble_usage_meter.System.Commands.Room.{
  Counted, below_next, saved_next, nothing-Counted, load-AgreesWithLog, pipeline_of-IsReady,
}

module _ (clock : ℕ → ℤ) where
  count_all-passed_on :
      (o : Option GattWrite) (ws : List GattWrite) (m : Metered)
      → count_all (on_write clock) (passed_on o ws) m
        ≡ count_all (on_write clock) ws (meter_on (on_write clock) o m)
  count_all-passed_on none ws m = refl
  count_all-passed_on (some w) ws m = refl

  -- The writes of the handlers reach the pipeline in the order in which they are passed on.
  notify_all-count_all :
      (address : Str) (ns : List Notification) (bufs : Dict (Str × Str) Bytes) (m : Metered)
      → notify_all (on_write clock) address ns bufs m
        ≡ count_all (on_write clock) (observe_all address ns bufs) m
  unfolding notify_all observe_all
  notify_all-count_all address [] bufs m = refl
  notify_all-count_all address (n ∷ ns) bufs m =
      let (o, bufs') = deliver address n bufs in
      notify_all-count_all address ns bufs' (meter_on (on_write clock) o m)
      ∙ sym (count_all-passed_on o (observe_all address ns bufs') m)

  module _ (cfg : GatewayConfig) (n k : ℕ) (s : Store) (a : AgreesWithLog s) where
    -- Writes that a new process hands to its pipeline.
    handed-Counted :
        (c : Counter) (ws : List GattWrite)
        → IsExact s c
        → c.sequence ≡ max_ℤ (pos 0) (load_sequence s)
        → HasRoom (length ws) k s
        → Counted s
            (count_all
              (on_write clock)
              ws
              (record { pipeline = pipeline_of cfg s c; ticks = 0 })).pipeline.store
            (λ d. uses_among cfg.rules d ws)
    handed-Counted c ws exact q room =
        let (ready, kept, more) =
          count_all-IsReady clock cfg.rules ws
            (record { pipeline = pipeline_of cfg s c; ticks = 0 })
            (pipeline_of-IsReady cfg (length ws) k s c exact q room) in
        record {
          agrees = record { dict = ready.exact.backed.dict; stored = ready.exact.stored };
          counts = more;
          sequence = rw kept (below_next (load_sequence s));
        }

    module _ (c : Counter) (exact : IsExact s c)
        (q : c.sequence ≡ max_ℤ (pos 0) (load_sequence s)) where
      abbrev fresh : Metered
      fresh = record { pipeline = pipeline_of cfg s c; ticks = 0 }

      observed-Counted :
          (address : Str) (o : Observation) (link : Await)
          → HasRoom (length (observed_writes address o link)) k s
          → Counted s
              (Observer.run
                (on_write clock)
                (some address)
                link
                o.characteristics
                o.start_notify
                o.notifications
                o.waits
                o.leaves
                fresh).1.pipeline.store
              (λ d. uses_among cfg.rules d (observed_writes address o link))
      unfolding Observer.run Observer.run_client Observer.run_attached uses_among
      observed-Counted address o completed room =
          let bufs = (attach o.start_notify o.characteristics []).1 in
          rw (notify_all-count_all address o.notifications bufs fresh)
            (handed-Counted c (observed_writes address o completed) exact q room)
      observed-Counted address o interrupted room = nothing-Counted s a
      observed-Counted address o (broken e) room = nothing-Counted s a

      relayed-Counted :
          (address : Str) (r : Relaying) (link : Await)
          → HasRoom (length (relayed_writes address r link)) k s
          → Counted s
              (Proxy.run
                (on_write clock)
                link
                r.events
                r.waits
                r.disconnects
                (proxy_of address fresh)).1.meter.pipeline.store
              (λ d. uses_among cfg.rules d (relayed_writes address r link))
      unfolding Proxy.run Proxy.connect uses_among
      relayed-Counted address r completed room =
          let p = record (proxy_of address fresh) { has_client = true } in
          let (sent, told, metered) = relay_refines (on_write clock) r.events p in
          rw metered (handed-Counted c (relayed_writes address r completed) exact q room)
      relayed-Counted address r interrupted room = nothing-Counted s a
      relayed-Counted address r (broken e) room = nothing-Counted s a

    report-Counted :
        (scheme : Ed25519) (load_pem : Bytes → Result PrivateKey) (server : Payload → ℕ → Attempt)
        (key_file : Option Bytes) (c : Counter)
        → IsBacked s c
        → load s ≡ ok c
        → Counted s (cmd_report scheme cfg server load_pem key_file (clock 0) s).1 (λ d. 0)
    unfolding cmd_report with_counter with_key
    report-Counted scheme load_pem server key_file c backed loaded =
        elim (Result-cases (from_file load_pem key_file)) [
          | inl (key, e) ↦
              let (rs, _, _, _, done) =
                cmd_report_lem scheme cfg server load_pem key_file (clock 0) s c key backed e in
              rw done (record {
                agrees = record { dict = a.dict; stored = a.stored };
                counts = λ d. sym (+ℤ_zero (stored_count s d));
                sequence = saved_next s;
              })
          | inr (raised, e) ↦ rw (loaded, e) (nothing-Counted s a)
        ]

    pub command-Counted :
        (scheme : Ed25519) (load_pem : Bytes → Result PrivateKey) (command : Command)
        → HasRoom (length (writes_of command)) k s
        → Counted s
            (run_command scheme load_pem cfg clock command s).1
            (λ d. uses_among cfg.rules d (writes_of command))
    unfolding run_command cmd_observe cmd_proxy cmd_status observe_with proxy_with writes_of
        uses_among
    command-Counted scheme load_pem (observe address o) room =
        let (c, e, exact, q) = load-AgreesWithLog s a in
        rw e (observed-Counted c exact q address o o.link room)
    command-Counted scheme load_pem (proxy address r) room =
        let (c, e, exact, q) = load-AgreesWithLog s a in
        rw e (relayed-Counted c exact q address r r.link room)
    command-Counted scheme load_pem (report server key_file) room =
        let (c, e, exact, q) = load-AgreesWithLog s a in
        report-Counted scheme load_pem server key_file c exact.backed e
    command-Counted scheme load_pem (status events_tail) room = nothing-Counted s a
