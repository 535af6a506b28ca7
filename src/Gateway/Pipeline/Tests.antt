-- ===== src/Gateway/Pipeline/Tests.antt =====
-- A process that has just been started with empty tables.
use ble_usage_meter.Common.{Str, text, [], ◌∷◌, ok, ◌≡◌, refl, arith, str_is_eq}
use ble_usage_meter.Common.Int.{pos, ◌+ℤ◌}
use ble_usage_meter.Common.Dict.{lookup, get_or}
use ble_usage_meter.Gateway.Counter.{init, get}
use ble_usage_meter.Gateway.Matcher.{GattWrite, matcher_of, classify}
use ble_usage_meter.Gateway.Store.{new_store, load_sequence}
use ble_usage_meter.Gateway.Store.AppendOnly.{stored_count}
use ble_usage_meter.Gateway.Config.{EventRule}
use ble_usage_meter.Gateway.Pipeline.{Pipeline, handle}
use ble_usage_meter.Gateway.Pipeline.Counts.{IsBacked, IsExact, known_events}
use ble_usage_meter.Gateway.Pipeline.Steps.{is_known, one_if}
use ble_usage_meter.Gateway.Pipeline.Runs.{Run, started, handled, Run-IsBacked}
use ble_usage_meter.Gateway.Pipeline.Exact.{logged_events, handle_lem}
use ble_usage_meter.Gateway.Pipeline.Uses.{IsReady}

abbrev rule : EventRule
rule = record {
  service = text "ab";
  characteristic = text "01";
  prefix = 170 ∷ [];
  event = text "on";
}

abbrev write : GattWrite
write = record {
  peer_addr = text "lamp";
  service = text "ab";
  characteristic = text "01";
  payload = 170 ∷ 1 ∷ [];
}

abbrev fresh : Pipeline
fresh = record { matcher = matcher_of (rule ∷ []); store = new_store; counter = init }

fresh-IsBacked : IsBacked new_store init
unfolding known_events get get_or lookup
fresh-IsBacked = record {
  dict = tt;
  counts = λ d. omega arith;
  live = λ d. omega arith;
  log = λ d. omega arith;
}

fresh-IsExact : IsExact new_store init
unfolding known_events lookup
fresh-IsExact = record { backed = fresh-IsBacked; stored = λ d. refl }

init_small : get init (text "lamp") ≡ pos 0
unfolding get get_or lookup
init_small = refl

handle_lem_example :
    let r = handle write (pos 1) (pos 2) fresh in
    (r.0 ≡ ok tt)
    × (r.1.store.events ≡ logged_events write (pos 1) fresh)
    × IsExact r.1.store r.1.counter
    × ((d : Str)
        → stored_count r.1.store d
          ≡ stored_count new_store d
            +ℤ one_if (is_known (classify fresh.matcher write) (text "lamp") d))
handle_lem_example =
    handle_lem write (pos 1) (pos 2) fresh fresh-IsExact refl (rw init_small (omega arith))

abbrev after_two : Pipeline
after_two = (handle write (pos 3) (pos 4) (handle write (pos 1) (pos 2) fresh).1).1

two_writes : Run fresh after_two
two_writes = handled (handled started write (pos 1) (pos 2)) write (pos 3) (pos 4)

Run-IsBacked_example : IsBacked after_two.store after_two.counter
Run-IsBacked_example = Run-IsBacked two_writes fresh-IsBacked

fresh-IsReady : IsReady (rule ∷ []) 3 fresh
unfolding load_sequence lookup ◌+ℤ◌
fresh-IsReady = record {
  matcher = refl;
  exact = fresh-IsExact;
  sequence = refl;
  in_range = omega arith;
  room = λ d. omega arith;
}
