-- ===== src/Gateway/Store/Tests.antt =====
-- Tables with one counted event, and writes to them.
use ble_usage_meter.Common.{text, List, [], ◌∷◌, none, some}
use ble_usage_meter.Common.Int.{pos}
use ble_usage_meter.Gateway.Store.{Store, event_row}
use ble_usage_meter.Gateway.Store.AppendOnly.{
  Write, save_counter_call, save_sequence_call, append_event_call, after_all, Keeps,
  after_all-Keeps,
}

abbrev store : Store
store = record {
  counters = (text "lamp", record { count = pos 4; updated_at = pos 0 }) ∷ [];
  events = event_row (text "lamp") (text "on") (pos 0) none none none (pos 0) [] ∷ [];
  sequence = some (pos 2);
}

-- A count and a sequence that are too low, and an event.
abbrev writes : List Write
writes =
    save_counter_call (text "lamp") (pos 3) (pos 1)
    ∷ (save_sequence_call (pos 1)
        ∷ (append_event_call (text "lamp") (text "on") (pos 2) none none (some (1 ∷ [])) none
              (pos 1)
            ∷ []))

after_all-Keeps_example : Keeps store (after_all writes store)
after_all-Keeps_example = after_all-Keeps writes store
