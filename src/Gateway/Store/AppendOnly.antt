-- ===== src/Gateway/Store/AppendOnly.antt =====
-- gateway/store.py: what writes do to the events, the counts and the sequence.
use ble_usage_meter.Common.{
  Bool-cases, inl, inr, suc, length, ◌≡◌, refl, ap, sym, ◌∙◌, Str, Bytes, List, [], ◌∷◌, ◌++◌,
  append_assoc, Option, none, some, Result, ok, err, arith, str_is_eq, str_eq_iff,
}
use ble_usage_meter.Common.Int.{ℤ, pos, ◌≤ℤ◌}
use ble_usage_meter.Common.Dict.{lookup, lookup-insert}
use ble_usage_meter.Gateway.Store.{
  Store, CounterRow, EventRow, save_counter, save_sequence, load_sequence, append_event, next_id,
  is_int64,
}

-- A call of one of the methods that write.
pub data Write : Type 0 where
  save_counter_call : Str → ℤ → ℤ → Write
  save_sequence_call : ℤ → Write
  append_event_call : Str → Str → ℤ → Option Str → Option Str → Option Bytes → Option ℤ → ℤ → Write

abbrev or_same : Store → Result Store → Store
or_same s (ok s') = s'
or_same s (err e) = s

-- The tables after a call, whether it returned or raised.
unfoldable pub after : Write → Store → Store
unfolding save_counter save_sequence append_event
after (save_counter_call d n t) s = or_same s (save_counter d n t s)
after (save_sequence_call n) s = or_same s (save_sequence n s)
after (append_event_call d e n service c p ts t) s =
    or_same s (append_event d e n service c p ts t s)

unfoldable pub after_all : List Write → Store → Store
after_all [] s = s
after_all (w ∷ ws) s = after_all ws (after w s)

-- A device that has no row is counted 0.
abbrev pub count_of : Option CounterRow → ℤ
count_of none = pos 0
count_of (some row) = row.count

abbrev pub stored_count : Store → Str → ℤ
stored_count s d = count_of (lookup d s.counters)

-- What writing does not undo.
pub record Keeps (s t : Store) : Type 0 where
  pub added : List EventRow
  pub events : t.events ≡ added ++ s.events
  pub counts : (d : Str) → stored_count s d ≤ℤ stored_count t d
  pub sequence : load_sequence s ≤ℤ load_sequence t

-- The ids of the events, from the oldest on, are 1, 2, 3, …
abbrev pub AreNumbered : List EventRow → Type 0
AreNumbered [] = Unit
AreNumbered (e ∷ es) = (e.id ≡ suc (length es)) × AreNumbered es

Keeps-refl : (s : Store) → Keeps s s
Keeps-refl s = record {
  added = [];
  events = refl;
  counts = λ d. omega arith;
  sequence = omega arith;
}

save_counter-Keeps : (d : Str) (n t : ℤ) (s : Store) → Keeps s (or_same s (save_counter d n t s))
unfolding save_counter load_sequence
save_counter-Keeps d n t s = record {
  added = [];
  events = ground arith;
  counts = λ j.
      ground (
        arith,
        lookup-insert d j (record { count = n; updated_at = t }) s.counters,
        str_eq_iff d j,
      );
  sequence = ground arith;
}

save_sequence-Keeps : (n : ℤ) (s : Store) → Keeps s (or_same s (save_sequence n s))
unfolding save_sequence load_sequence
save_sequence-Keeps n s = record {
  added = [];
  events = ground arith;
  counts = λ j. ground arith;
  sequence = ground arith;
}

after-Keeps : (w : Write) (s : Store) → Keeps s (after w s)
unfolding after append_event load_sequence
after-Keeps (save_counter_call d n t) s = save_counter-Keeps d n t s
after-Keeps (save_sequence_call n) s = save_sequence-Keeps n s
after-Keeps (append_event_call d e n service c p ts t) s = elim (Bool-cases (is_int64 n)) [
  | inl fits ↦
      rw fits (record {
        added = _ ∷ [];
        events = refl;
        counts = λ j. omega arith;
        sequence = omega arith;
      })
  | inr big ↦ rw big (Keeps-refl s)
]

Keeps-trans : (s t u : Store) → Keeps s t → Keeps t u → Keeps s u
Keeps-trans s t u k l = record {
  added = l.added ++ k.added;
  events =
      l.events ∙ ap (λ es. l.added ++ es) k.events ∙ sym (append_assoc l.added k.added s.events);
  counts = λ d. omega (arith, k.counts d, l.counts d);
  sequence = omega (arith, k.sequence, l.sequence);
}

-- Whatever is written with whatever arguments, whether it succeeds or is refused: the old events are
-- all there, unchanged and in their order, behind the new ones, no device's stored count is lower
-- than before, and neither is the stored sequence.
pub after_all-Keeps : (ws : List Write) (s : Store) → Keeps s (after_all ws s)
unfolding after_all
after_all-Keeps [] s = Keeps-refl s
after_all-Keeps (w ∷ ws) s =
    Keeps-trans s (after w s) (after_all ws (after w s)) (after-Keeps w s)
      (after_all-Keeps ws (after w s))

next_id-AreNumbered : (es : List EventRow) → AreNumbered es → next_id es ≡ suc (length es)
next_id-AreNumbered [] h = refl
next_id-AreNumbered (e ∷ es) h = omega (arith, h.0)

after-AreNumbered : (w : Write) (s : Store) → AreNumbered s.events → AreNumbered (after w s).events
unfolding after save_counter save_sequence append_event
after-AreNumbered (save_counter_call d n t) s h = ground arith
after-AreNumbered (save_sequence_call n) s h = ground arith
after-AreNumbered (append_event_call d e n service c p ts t) s h =
    ground (arith, next_id-AreNumbered s.events h)

-- The ids of the events stay 1, 2, 3, … without a gap, whatever is written.
pub after_all-AreNumbered :
    (ws : List Write) (s : Store) → AreNumbered s.events → AreNumbered (after_all ws s).events
unfolding after_all
after_all-AreNumbered [] s h = h
after_all-AreNumbered (w ∷ ws) s h = after_all-AreNumbered ws (after w s) (after-AreNumbered w s h)
