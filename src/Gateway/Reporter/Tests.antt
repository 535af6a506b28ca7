-- ===== src/Gateway/Reporter/Tests.antt =====
-- A post that is answered at the third attempt, and runs of the report command.
use ble_usage_meter.Common.{
  ℕ, zero, suc, text, List, [], ◌∷◌, none, some, ok, ◌≡◌, refl, arith, str_is_eq, str_eq, length,
  ◌+◌, All, ◌≤◌, ◌<◌,
}
use ble_usage_meter.Common.Int.{ℤ, pos, ◌<ℤ◌}
use ble_usage_meter.Common.Dict.{lookup, get_or}
use ble_usage_meter.Gateway.Signer.{ReportTuple}
use ble_usage_meter.Gateway.Matcher.{unknown}
use ble_usage_meter.Gateway.Counter.{Counter, get}
use ble_usage_meter.Gateway.Store.{Store, event_row}
use ble_usage_meter.Gateway.Store.AppendOnly.{after_all}
use ble_usage_meter.Gateway.Pipeline.Counts.{IsBacked, known_events}
use ble_usage_meter.Gateway.Reporter.{Attempt, answered, failed, result_of, post, prepare}
use ble_usage_meter.Gateway.Reporter.Delays.{AreBackoff, post-AreBackoff}
use ble_usage_meter.Gateway.Reporter.Delivery.{Explains, post_lem}
use ble_usage_meter.Gateway.Reporter.Runs.{run_sequence, prepare_lem, sequences_rise}

abbrev server : ℕ → Attempt
server zero = failed
server (suc zero) = failed
server (suc (suc zero)) = answered 503
server (suc (suc (suc n))) = answered 201

post_lem_example :
    let (r, sleeps) = post server 5 600 8 in
    Explains server 8 r
    × ((i : ℕ) → 1 ≤ i → i < r.attempts → result_of i (server i) ≡ none)
    × (length sleeps + 1 ≡ r.attempts)
    × (r.attempts ≤ 8)
post_lem_example = post_lem server 5 600 8 (omega arith)

post-AreBackoff_example : AreBackoff 5 600 0 (post server 5 600 8).1
post-AreBackoff_example = post-AreBackoff 5 600 server 8 (omega arith)

abbrev store : Store
store = record {
  counters = (text "lamp", record { count = pos 1; updated_at = pos 0 }) ∷ [];
  events = event_row (text "lamp") (text "on") (pos 0) none none none (pos 0) [] ∷ [];
  sequence = some (pos 2);
}

abbrev counter : Counter
counter = record { counts = (text "lamp", pos 1) ∷ []; sequence = pos 2 }

store-IsBacked : IsBacked store counter
unfolding known_events get get_or lookup unknown str_eq
store-IsBacked = record {
  dict = (refl, tt);
  counts = λ d. ground arith;
  live = λ d. ground arith;
  log = λ d. ground arith;
}

abbrev after_run : Store
after_run = record store { sequence = some (run_sequence store) }

after_run-IsBacked : IsBacked after_run counter
after_run-IsBacked = record {
  dict = store-IsBacked.dict;
  counts = store-IsBacked.counts;
  live = store-IsBacked.live;
  log = store-IsBacked.log;
}

abbrev first_run :
    (rs : List ReportTuple) × (prepare (pos 900) (pos 300) store ≡ ok (rs, after_run))
first_run =
    let (rs, e, _, _) = prepare_lem (pos 900) (pos 300) store counter store-IsBacked in (rs, e)

abbrev second_run :
    (rs : List ReportTuple) × (prepare (pos 1200) (pos 300) after_run
      ≡ ok (rs, record after_run { sequence = some (run_sequence after_run) }))
second_run =
    let (rs, e, _, _) = prepare_lem (pos 1200) (pos 300) after_run counter after_run-IsBacked in
    (rs, e)

sequences_rise_example :
    (a : ℤ) × (b : ℤ) × All (λ r. r.sequence ≡ a) first_run.0
    × All (λ r. r.sequence ≡ b) second_run.0
    × (a <ℤ b)
unfolding after_all
sequences_rise_example =
    sequences_rise (pos 900) (pos 300) (pos 1200) (pos 300) [] store after_run _ first_run.0
      second_run.0 first_run.1 second_run.1
