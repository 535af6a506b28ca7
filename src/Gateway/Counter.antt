-- ===== src/Gateway/Counter.antt =====
-- gateway/counter.py: the per-device usage counter and the report sequence number.
-- A method that raises does so before it writes, so a failed call has no new state.
pub mod Monotonic
use ble_usage_meter.Common.{
  Str, List, [], ◌∷◌, Bool, true, false, Result, ok, err, value_error, if◌then◌else◌, str_is_eq,
}
use ble_usage_meter.Common.Int.{ℤ, pos, ◌+ℤ◌, ltb_ℤ, leb_ℤ}
use ble_usage_meter.Common.Dict.{Dict, get_or, insert}

-- `_counts` and `_sequence`.
pub record Counter : Type 0 where
  pub counts : Dict Str ℤ
  pub sequence : ℤ

abbrev pub init : Counter
init = record { counts = []; sequence = pos 0 }

unfoldable pub get : Counter → Str → ℤ
get c device_id = get_or device_id (pos 0) c.counts

-- A persisted value below the live one is ignored.
unfoldable pub restore : Str → ℤ → Counter → Result Counter
unfolding get
restore device_id count c =
    if ltb_ℤ count (pos 0)
    then err value_error
    else if leb_ℤ (get c device_id) count
    then ok (record c { counts = insert device_id count c.counts })
    else ok c

unfoldable pub restore_sequence : ℤ → Counter → Counter
restore_sequence sequence c =
    if ltb_ℤ c.sequence sequence then record c { sequence = sequence } else c

-- The new count, and the counter that holds it.
unfoldable pub increment : Str → ℤ → Counter → Result (ℤ × Counter)
unfolding get
increment device_id n c =
    if ltb_ℤ n (pos 1)
    then err value_error
    else let new = get c device_id +ℤ n in
      ok (new, record c { counts = insert device_id new c.counts })

abbrev pub snapshot : Counter → Dict Str ℤ
snapshot c = c.counts

unfoldable pub next_sequence : Counter → ℤ × Counter
next_sequence c = let s = c.sequence +ℤ pos 1 in (s, record c { sequence = s })

-- A call of one of the methods that write. There is no decrement, reset or set.
pub data Call : Type 0 where
  restore_call : Str → ℤ → Call
  restore_sequence_call : ℤ → Call
  increment_call : Str → ℤ → Call
  next_sequence_call : Call

abbrev or_same : Counter → Result Counter → Counter
or_same c (ok c') = c'
or_same c (err e) = c

abbrev or_same_after : Counter → Result (ℤ × Counter) → Counter
or_same_after c (ok (n, c')) = c'
or_same_after c (err e) = c

-- The object after a call, whether the call returned or raised.
unfoldable pub after : Call → Counter → Counter
unfolding restore restore_sequence increment next_sequence
after (restore_call d n) c = or_same c (restore d n c)
after (restore_sequence_call s) c = restore_sequence s c
after (increment_call d n) c = or_same_after c (increment d n c)
after next_sequence_call c = (next_sequence c).1

unfoldable pub after_all : List Call → Counter → Counter
after_all [] c = c
after_all (call ∷ calls) c = after_all calls (after call c)
