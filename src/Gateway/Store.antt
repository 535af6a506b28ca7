-- ===== src/Gateway/Store.antt =====
-- gateway/store.py: the tables of the meter, with the rules that SQLite enforces on them. Instants are
-- opaque numbers. `events` is kept newest first, the order of `ORDER BY id DESC`.
pub mod AppendOnly
mod Tests
use ble_usage_meter.Common.{
  ℕ, suc, ◌+◌, Str, Bytes, List, [], ◌∷◌, Bool, true, false, not, ◌&&◌, ◌||◌, Option, none, some,
  Result, ok, err, value_error, overflow_error, integrity_error, length, take, if◌then◌else◌, ◌==◌,
  str_is_eq,
}
use ble_usage_meter.Common.Int.{ℤ, pos, negsuc, ltb_ℤ}
use ble_usage_meter.Common.Dict.{Dict, lookup, insert}

pub record CounterRow : Type 0 where
  pub count : ℤ
  pub updated_at : ℤ

pub record EventRow : Type 0 where
  pub id : ℕ
  pub ts : ℤ
  pub device_id : Str
  pub event : Str
  pub sequence : ℤ
  pub service : Option Str
  pub characteristic : Option Str
  pub payload_head : Option Bytes

-- `sequence` is the value of the key `sequence` in `meta`, read as the number that it writes.
pub record Store : Type 0 where
  pub counters : Dict Str CounterRow
  pub events : List EventRow
  pub sequence : Option ℤ

abbrev pub new_store : Store
new_store = record { counters = []; events = []; sequence = none }

-- SQLite's integers have 64 bits; the driver raises `OverflowError` for others.
abbrev pub is_int64 : ℤ → Bool
is_int64 z = not (ltb_ℤ z (negsuc 9223372036854775807) || ltb_ℤ (pos 9223372036854775807) z)

abbrev pub is_lowered : ℤ → Option CounterRow → Bool
is_lowered count none = false
is_lowered count (some row) = ltb_ℤ count row.count

-- The upsert: the table's CHECK refuses a negative count, its trigger one below the stored one.
unfoldable pub save_counter : Str → ℤ → ℤ → Store → Result Store
save_counter device_id count now s =
    if not (is_int64 count)
    then err overflow_error
    else if ltb_ℤ count (pos 0) || is_lowered count (lookup device_id s.counters)
    then err integrity_error
    else ok (record s {
      counters = insert device_id (record { count = count; updated_at = now }) s.counters;
    })

unfoldable pub counts_of : Dict Str CounterRow → Dict Str ℤ
counts_of [] = []
counts_of ((device_id, row) ∷ rows) = (device_id, row.count) ∷ counts_of rows

abbrev pub load_counters : Store → Dict Str ℤ
load_counters s = counts_of s.counters

unfoldable pub load_sequence : Store → ℤ
load_sequence s = elim s.sequence [ none ↦ pos 0 | some n ↦ n ]

unfoldable pub save_sequence : ℤ → Store → Result Store
unfolding load_sequence
save_sequence sequence s =
    if ltb_ℤ sequence (load_sequence s)
    then err value_error
    else ok (record s { sequence = some sequence })

-- `AUTOINCREMENT`, in a table from which nothing is deleted.
abbrev pub next_id : List EventRow → ℕ
next_id [] = 1
next_id (e ∷ es) = suc e.id

-- `payload_head[:16] if payload_head else None`
abbrev head_of : Option Bytes → Option Bytes
head_of none = none
head_of (some []) = none
head_of (some (b ∷ bs)) = some (take 16 (b ∷ bs))

abbrev or_now : ℤ → Option ℤ → ℤ
or_now now none = now
or_now now (some ts) = ts

-- The row of a new event, in front of the old ones.
abbrev pub event_row :
    Str → Str → ℤ → Option Str → Option Str → Option Bytes → ℤ → List EventRow → EventRow
event_row device_id event sequence service characteristic payload_head ts old = record {
  id = next_id old;
  ts = ts;
  device_id = device_id;
  event = event;
  sequence = sequence;
  service = service;
  characteristic = characteristic;
  payload_head = head_of payload_head;
}

unfoldable pub append_event :
    Str → Str → ℤ → Option Str → Option Str → Option Bytes → Option ℤ → ℤ → Store → Result Store
append_event device_id event sequence service characteristic payload_head ts now s =
    if not (is_int64 sequence)
    then err overflow_error
    else ok (record s {
      events =
          event_row device_id event sequence service characteristic payload_head (or_now now ts)
            s.events
          ∷ s.events;
    })

-- `LIMIT`: a negative one is none.
unfoldable pub limited : ℤ → List EventRow → List EventRow
limited (pos limit) events = take limit events
limited (negsuc n) events = events

unfoldable pub recent_events : ℤ → Store → Result (List EventRow)
recent_events limit s =
    if not (is_int64 limit) then err overflow_error else ok (limited limit s.events)

unfoldable pub count_events : Str → List EventRow → ℕ
count_events device_id [] = 0
count_events device_id (e ∷ es) =
    (if e.device_id == device_id then 1 else 0) + count_events device_id es

unfoldable pub event_count : Option Str → Store → ℕ
unfolding count_events
event_count none s = length s.events
event_count (some device_id) s = count_events device_id s.events
