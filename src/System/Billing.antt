-- ===== src/System/Billing.antt =====
-- The gateway's runs (gateway/cli.py) and the backend's requests (backend/app.py): what is signed, and
-- what comes to count.
mod Tests
use ble_usage_meter.Common.{
  ℕ, suc, ◌+◌, ◌≡◌, refl, sym, ap, ◌∙◌, Str, Bytes, List, [], ◌∷◌, ◌++◌, All, All-map, All-append,
  All-Mem, length, Result, ok, err, arith, inl, inr, bind-eq-ok, ok-injective, str_is_eq,
  value_or_none, value_or_none-eq-some, subst, some,
}
use ble_usage_meter.Common.Int.{ℤ, pos, ◌≤ℤ◌, ◌+ℤ◌, +ℤ_parts, +ℤ_pos_assoc}
use ble_usage_meter.Common.Dict.{lookup}
use ble_usage_meter.Common.Ed25519.{Ed25519}
use ble_usage_meter.Gateway.Config.Settings.{GatewayConfig}
use ble_usage_meter.Gateway.Signer
use ble_usage_meter.Gateway.Signer.{ReportTuple, PrivateKey}
use ble_usage_meter.Gateway.Signer.RoundTrip.{canonical_bytes-injective}
use ble_usage_meter.Gateway.Store.{Store}
use ble_usage_meter.Gateway.Store.AppendOnly.{stored_count}
use ble_usage_meter.Gateway.Reporter.{prepare}
use ble_usage_meter.Gateway.Reporter.Runs.{run_sequence, prepare_lem}
use ble_usage_meter.Gateway.Command.Main.{
  Command, observe, proxy, report, status, Invocation, main, main_all,
}
use ble_usage_meter.Backend.Models.{UsageReport, DeviceRecord, canonical_bytes}
use ble_usage_meter.Backend.Models.Agreement.{tuple_of, windows_of, canonical_bytes_agree}
use ble_usage_meter.Backend.Db.{Database}
use ble_usage_meter.Backend.Verify.Signed.{IsAuthentic}
use ble_usage_meter.Backend.App.{usage, count_reports, get_usage}
use ble_usage_meter.Backend.App.Replay
use ble_usage_meter.Backend.App.Replay.{Request, serve}
use ble_usage_meter.Backend.App.Bounded.{IsBounded, Within, serve-IsBounded}
use ble_usage_meter.System.Stored.{get_usage-found}
use ble_usage_meter.System.Commands.{AgreesWithLog, HasRoom, uses_seen, total_writes, total_uses}
use ble_usage_meter.System.Commands.Room.{load-AgreesWithLog}
use ble_usage_meter.System.Commands.All.{main-Counted, main_all_refines}
use mathlib.Core.List.{Memᴰ}
use mathlib.Core.List.Memᴰ

abbrev prepared : Result (List ReportTuple × Store) → List ReportTuple
prepared (ok (tuples, s)) = tuples
prepared (err e) = []

-- The tuples that a run of the program may sign.
unfoldable pub tuples_in : Result GatewayConfig → (ℕ → ℤ) → Command → Store → List ReportTuple
tuples_in (err e) clock command s = []
tuples_in (ok cfg) clock (observe address o) s = []
tuples_in (ok cfg) clock (proxy address r) s = []
tuples_in (ok cfg) clock (report server key_file) s =
    prepared (prepare (clock 0) cfg.report_interval_sec s)
tuples_in (ok cfg) clock (status events_tail) s = []

-- A report that has the bytes of one of these tuples.
abbrev pub HasBytesOf : List ReportTuple → UsageReport → Type 0
HasBytesOf tuples r =
    (t : ReportTuple) × Memᴰ t tuples
    × ((m : Bytes) × (Signer.canonical_bytes t ≡ ok m) × (canonical_bytes r ≡ ok m))

-- Nothing under a key is forged: what is authentic for a device with it has the bytes of one of the tuples.
abbrev pub IsUnforged : Ed25519 → Str → List ReportTuple → Request → Type 0
IsUnforged scheme key tuples (Replay.register req now) = Unit
IsUnforged scheme key tuples (Replay.report r now) =
    (d : DeviceRecord) → d.public_key ≡ key → IsAuthentic scheme d r → HasBytesOf tuples r

-- Such a report is the tuple.
bytes-tuple :
    (tuples : List ReportTuple) (r : UsageReport)
    → HasBytesOf tuples r
    → (t : ReportTuple) × Memᴰ t tuples × (t.device_id ≡ r.device_id) × (t.count ≡ r.count)
bytes-tuple tuples r (t, member, (m, gateway, backend)) =
    let (start, end, hs, he) = windows_of r backend in
    let same = canonical_bytes-injective t (tuple_of r start end) m gateway (
      value_or_none-eq-some
        (sym (canonical_bytes_agree r start end hs he) ∙ ap value_or_none backend)) in
    (t, member, ap (λ x. x.device_id) same, ap (λ x. x.count) same)

below_sum : (c : ℤ) (n : ℕ) → c ≤ℤ c +ℤ pos n
below_sum c n = omega (arith, +ℤ_parts c (pos n))

module _ (scheme : Ed25519) (load_pem : Bytes → Result PrivateKey) where
  unfoldable pub all_tuples : List Invocation → Store → List ReportTuple
  all_tuples [] s = []
  all_tuples (i ∷ rest) s =
      tuples_in i.loaded i.clock i.command s ++ all_tuples rest (main scheme load_pem i s).1

  -- The tuples of a run have the counts of its tables.
  tuples_in-counts :
      (loaded : Result GatewayConfig) (clock : ℕ → ℤ) (command : Command) (s : Store)
      → AgreesWithLog s
      → All (λ t. t.count ≡ stored_count s t.device_id) (tuples_in loaded clock command s)
  unfolding tuples_in
  tuples_in-counts (err e) clock command s a = tt
  tuples_in-counts (ok cfg) clock (observe address o) s a = tt
  tuples_in-counts (ok cfg) clock (proxy address r) s a = tt
  tuples_in-counts (ok cfg) clock (report server key_file) s a =
      let (c, loaded, exact, _) = load-AgreesWithLog s a in
      let (rs, e, reports, _) = prepare_lem (clock 0) cfg.report_interval_sec s c exact.backed in
      rw e (All-map rs (λ t h. h.0) reports)
  tuples_in-counts (ok cfg) clock (status events_tail) s a = tt

  -- No tuple of a sequence of runs counts more than its tables do in the end.
  all_tuples-counts :
      (invocations : List Invocation) (s : Store)
      → AgreesWithLog s
      → HasRoom (total_writes invocations) (length invocations) s
      → All
          (λ t. t.count ≤ℤ stored_count s t.device_id +ℤ pos (total_uses t.device_id invocations))
          (all_tuples invocations s)
  unfolding all_tuples total_writes total_uses main
  all_tuples-counts [] s a room = tt
  all_tuples-counts (i ∷ rest) s a room =
      let (one, room') =
        main-Counted scheme load_pem i.loaded i.clock i.command (total_writes rest) (length rest) s
          a room in
      let first = tuples_in i.loaded i.clock i.command s in
      let later = all_tuples rest (main scheme load_pem i s).1 in
      All-append _ first later
        (All-map first
          (λ t e.
            subst (λ n. n ≤ℤ stored_count s t.device_id +ℤ pos (total_uses t.device_id (i ∷ rest)))
              (sym e) (below_sum (stored_count s t.device_id) (total_uses t.device_id (i ∷ rest))))
          (tuples_in-counts i.loaded i.clock i.command s a))
        (All-map later
          (λ t h.
            subst (λ n. t.count ≤ℤ n)
              (ap (λ z. z +ℤ pos (total_uses t.device_id rest)) (one.counts t.device_id)
                ∙ +ℤ_pos_assoc (stored_count s t.device_id)
                    (uses_seen t.device_id i.loaded i.command) (total_uses t.device_id rest))
              h)
          (all_tuples-counts rest (main scheme load_pem i s).1 one.agrees room'))

  unforged-Within :
      (invocations : List Invocation) (s : Store) (id key : Str)
      → All
          (λ t. t.count ≤ℤ stored_count s t.device_id +ℤ pos (total_uses t.device_id invocations))
          (all_tuples invocations s)
      → (q : Request) → IsUnforged scheme key (all_tuples invocations s) q
      → Within scheme id key (stored_count s id +ℤ pos (total_uses id invocations)) q
  unforged-Within invocations s id key counts (Replay.register req now) unforged = tt
  unforged-Within invocations s id key counts (Replay.report r now) unforged =
      λ d own same_key authentic.
        let (t, member, device, count) =
          bytes-tuple (all_tuples invocations s) r (unforged d same_key authentic) in
        let small = All-Mem _ (all_tuples invocations s) counts member in
        subst (λ n. n ≤ℤ stored_count s id +ℤ pos (total_uses id invocations)) count
          (subst (λ i. t.count ≤ℤ stored_count s i +ℤ pos (total_uses i invocations)) (device ∙ own)
            small)

  -- Where nothing under a device's registered key is forged: whatever is requested of the backend, by
  -- whomever and in whichever order, its answer for the usage of the device is never above the count
  -- that the gateway started with and the uses that its runs have met. The gateway's counts agree with
  -- its log before and have room, and the device's accepted count is not above its count there.
  pub usage_within_uses :
      (invocations : List Invocation) (s : Store) (id key : Str) (db : Database) (d : DeviceRecord)
      (qs : List Request)
      → AgreesWithLog s
      → HasRoom (total_writes invocations) (length invocations) s
      → lookup id db.devices ≡ some d
      → d.public_key ≡ key
      → d.last_accepted_count ≤ℤ stored_count s id
      → All (IsUnforged scheme key (all_tuples invocations s)) qs
      → (total sequence : ℤ) × (reports : ℕ) × (get_usage (serve scheme qs db) id
          ≡ usage id total sequence reports)
        × (total ≤ℤ stored_count s id +ℤ pos (total_uses id invocations))
  usage_within_uses invocations s id key db d qs a room found same_key start unforged =
      let bound = stored_count s id +ℤ pos (total_uses id invocations) in
      let counts = all_tuples-counts invocations s a room in
      let (d', found', _, small) =
        serve-IsBounded scheme id key bound qs db
          (All-map qs (unforged-Within invocations s id key counts) unforged)
          (
            d,
            found,
            same_key,
            omega (arith, start, below_sum (stored_count s id) (total_uses id invocations)),
          ) in
      (
        d'.last_accepted_count,
        d'.last_accepted_sequence,
        count_reports id (serve scheme qs db).usage_reports,
        get_usage-found (serve scheme qs db) id d' found',
        small,
      )
