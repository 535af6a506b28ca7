-- ===== src/Gateway/Pipeline.antt =====
-- gateway/cli.py: what a process does with a write that it observes, and what it starts from.
pub mod Counts
pub mod Steps
pub mod Runs
pub mod Exact
pub mod Same
pub mod Uses
pub mod Loaded
mod Tests
use ble_usage_meter.Common.{
  ℕ, Str, List, [], ◌∷◌, Bool, true, false, Option, none, some, Result, ok, err, ◌>>=◌,
  if◌then◌else◌, ◌==◌, str_is_eq, take,
}
use ble_usage_meter.Common.Int.{ℤ, pos}
use ble_usage_meter.Common.Dict.{Dict}
use ble_usage_meter.Gateway.Counter.{Counter, init, restore, restore_sequence, increment}
use ble_usage_meter.Gateway.Matcher.{Matcher, GattWrite, unknown, classify}
use ble_usage_meter.Gateway.Store.{Store, append_event, save_counter, load_counters, load_sequence}

pub record Pipeline : Type 0 where
  pub matcher : Matcher
  pub store : Store
  pub counter : Counter

-- The steps of `handle` from the last to the first. Each statement is its own transaction: where one
-- raises, what those before it wrote stays.
unfoldable pub saved : Pipeline → Result Store → Result (Unit {0}) × Pipeline
saved p (err e) = (err e, p)
saved p (ok s) = (ok tt, record p { store = s })

unfoldable pub counted : Str → ℤ → Pipeline → Result (ℤ × Counter) → Result (Unit {0}) × Pipeline
counted device_id now p (err e) = (err e, p)
counted device_id now p (ok (count, c)) =
    saved (record p { counter = c }) (save_counter device_id count now p.store)

unfoldable pub logged : GattWrite → Str → ℤ → Pipeline → Result Store → Result (Unit {0}) × Pipeline
logged w event now p (err e) = (err e, p)
logged w event now p (ok s) =
    if event == unknown
    then (ok tt, record p { store = s })
    else counted w.peer_addr now (record p { store = s }) (increment w.peer_addr (pos 1) p.counter)

-- The event row of a write.
abbrev pub log_event : GattWrite → Str → ℤ → Pipeline → Result Store
log_event w event now p =
    append_event w.peer_addr event p.counter.sequence (some w.service) (some w.characteristic)
      (some (take 16 w.payload)) none now p.store

-- `Pipeline.handle`, with the instants at which the event is logged and the count is saved.
unfoldable pub handle : GattWrite → ℤ → ℤ → Pipeline → Result (Unit {0}) × Pipeline
handle w now later p =
    let event = classify p.matcher w in logged w event later p (log_event w event now p)

unfoldable pub restore_all : Dict Str ℤ → Counter → Result Counter
restore_all [] c = ok c
restore_all ((device_id, n) ∷ counts) c = do c' ← restore device_id n c; restore_all counts c'

-- The counter that `_load` makes of the tables.
unfoldable pub load : Store → Result Counter
load s = do c ← restore_all (load_counters s) init; ok (restore_sequence (load_sequence s) c)
