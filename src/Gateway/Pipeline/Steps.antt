-- ===== src/Gateway/Pipeline/Steps.antt =====
-- What one write does to the counts, whichever of its statements is refused.
use ble_usage_meter.Common.{
  ◌≡◌, refl, Str, ◌∷◌, Bool, true, false, not, ◌&&◌, ◌||◌, Option, none, some, ◌⊎◌, Error,
  overflow_error, integrity_error, ok, err, arith, if◌then◌else◌, ◌==◌, str_is_eq, str_eq_iff,
  Bool-cases, inl, inr, take,
}
use ble_usage_meter.Common.Int.{ℤ, pos, ◌+ℤ◌, +ℤ_parts, ◌≤ℤ◌, ltb_ℤ}
use ble_usage_meter.Common.Dict.{lookup, insert, lookup-insert, insert-IsDict}
use ble_usage_meter.Gateway.Counter.{Counter, get}
use ble_usage_meter.Gateway.Matcher.{GattWrite, unknown}
use ble_usage_meter.Gateway.Store.{
  Store, CounterRow, append_event, save_counter, is_int64, event_row, is_lowered,
}
use ble_usage_meter.Gateway.Store.AppendOnly.{count_of, stored_count}
use ble_usage_meter.Gateway.Pipeline.{Pipeline, log_event}
use ble_usage_meter.Gateway.Pipeline.Counts.{known_events, IsBacked}

-- Is the write, of a rule's event, one of the device's?
abbrev pub is_known : Str → Str → Str → Bool
is_known event peer d = (peer == d) && not (event == unknown)

abbrev pub one_if : Bool → ℤ
one_if b = if b then pos 1 else pos 0

-- The tables with the event of a write.
abbrev pub with_event : GattWrite → Str → ℤ → Pipeline → Store
with_event w event now p = record p.store {
  events =
      event_row w.peer_addr event p.counter.sequence (some w.service) (some w.characteristic)
        (some (take 16 w.payload)) now p.store.events
      ∷ p.store.events;
}

pub log_event-with_event :
    (w : GattWrite) (event : Str) (now : ℤ) (p : Pipeline)
    → is_int64 p.counter.sequence ≡ true
    → log_event w event now p ≡ ok (with_event w event now p)
unfolding append_event
log_event-with_event w event now p fits = rw fits refl

-- Logging either raises, and nothing is written, or appends the event.
pub log_event-cases :
    (w : GattWrite) (event : Str) (now : ℤ) (p : Pipeline)
    → ((e : Error) × (log_event w event now p ≡ err e))
      ⊎ (log_event w event now p ≡ ok (with_event w event now p))
unfolding append_event
log_event-cases w event now p = elim (Bool-cases (is_int64 p.counter.sequence)) [
  | inl fits ↦ inr (rw fits refl)
  | inr big ↦ inl (overflow_error, rw big refl)
]

-- The tables with the count of a device saved.
abbrev pub with_count : Str → ℤ → ℤ → Store → Store
with_count d n now s = record s {
  counters = insert d (record { count = n; updated_at = now }) s.counters;
}

pub save_counter-cases :
    (d : Str) (n now : ℤ) (s : Store)
    → ((e : Error) × (save_counter d n now s ≡ err e))
      ⊎ ((pos 0 ≤ℤ n)
          × (stored_count s d ≤ℤ n)
          × (save_counter d n now s ≡ ok (with_count d n now s)))
unfolding save_counter
save_counter-cases d n now s = elim (Bool-cases (is_int64 n)) [
  | inr big ↦ inl (overflow_error, rw big refl)
  | inl fits ↦ elim (Bool-cases (ltb_ℤ n (pos 0) || is_lowered n (lookup d s.counters))) [
    | inl bad ↦ inl (integrity_error, rw (fits, bad) refl)
    | inr good ↦
        inr (ground arith, not_lowered (lookup d s.counters) (ground arith), rw (fits, good) refl)
  ]
]
  where
    not_lowered :
        (o : Option CounterRow) → (pos 0 ≤ℤ n) × (is_lowered n o ≡ false) → count_of o ≤ℤ n
    not_lowered none h = h.0
    not_lowered (some row) h = ground arith

pub with_event-IsBacked :
    (w : GattWrite) (event : Str) (now : ℤ) (p : Pipeline)
    → IsBacked p.store p.counter
    → IsBacked (with_event w event now p) p.counter
unfolding known_events
with_event-IsBacked w event now p b = record {
  dict = b.dict;
  counts = b.counts;
  live = b.live;
  log = λ d. ground (arith, b.log d);
}

-- The live count may go up by the event that was logged.
pub incremented-IsBacked :
    (w : GattWrite) (event : Str) (now : ℤ) (p : Pipeline) (c : Counter)
    → IsBacked p.store p.counter
    → (event == unknown) ≡ false
    → ((d : Str)
        → get c d
          ≡ (if w.peer_addr == d then get p.counter w.peer_addr +ℤ pos 1 else get p.counter d))
    → IsBacked (with_event w event now p) c
unfolding known_events
incremented-IsBacked w event now p c b known g = record {
  dict = b.dict;
  counts = b.counts;
  live = λ d.
      ground (arith, b.live d, g d, str_eq_iff w.peer_addr d, +ℤ_parts (get p.counter d) (pos 1));
  log = λ d.
      ground (arith, b.log d, g d, str_eq_iff w.peer_addr d, +ℤ_parts (get p.counter d) (pos 1));
}

-- The live count of a device may be saved.
pub with_count-IsBacked :
    (d : Str) (n now : ℤ) (s : Store) (c : Counter)
    → IsBacked s c
    → pos 0 ≤ℤ n
    → get c d ≡ n
    → IsBacked (with_count d n now s) c
with_count-IsBacked d n now s c b positive e = record {
  dict = insert-IsDict d _ s.counters b.dict;
  counts = λ j.
      ground
        (arith, lookup-insert d j (record { count = n; updated_at = now }) s.counters, b.counts j);
  live = λ j. ground (
    arith,
    lookup-insert d j (record { count = n; updated_at = now }) s.counters,
    b.live j,
    str_eq_iff d j,
  );
  log = b.log;
}
