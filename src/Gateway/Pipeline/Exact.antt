-- ===== src/Gateway/Pipeline/Exact.antt =====
-- gateway/cli.py: a write that nothing refuses.
use ble_usage_meter.Common.{
  List, ◌∷◌, take, ◌≡◌, refl, sym, subst, Str, true, false, Option, none, some, Result, ok, arith,
  ◌==◌, str_is_eq, str_eq_iff, Bool-cases, inl, inr,
}
use ble_usage_meter.Common.Int.{ℤ, pos, ◌+ℤ◌, +ℤ_parts, ◌≤ℤ◌, ◌<ℤ◌}
use ble_usage_meter.Common.Dict.{lookup, lookup-insert}
use ble_usage_meter.Gateway.Counter.{Counter, get, increment}
use ble_usage_meter.Gateway.Counter.Monotonic.{increment-get}
use ble_usage_meter.Gateway.Matcher.{GattWrite, unknown, classify}
use ble_usage_meter.Gateway.Store.{
  Store, CounterRow, EventRow, event_row, save_counter, is_int64, is_lowered,
}
use ble_usage_meter.Gateway.Store.AppendOnly.{count_of, stored_count}
use ble_usage_meter.Gateway.Pipeline.{Pipeline, saved, counted, logged, handle}
use ble_usage_meter.Gateway.Pipeline.Counts.{known_events, IsBacked, IsExact}
use ble_usage_meter.Gateway.Pipeline.Steps.{
  is_known, one_if, with_event, with_count, log_event-with_event, with_event-IsBacked,
  incremented-IsBacked, with_count-IsBacked,
}

abbrev Backed : Pipeline → Type 0
Backed p = IsBacked p.store p.counter

-- The three outcomes of `handle`.
handle-foreign :
    (w : GattWrite) (now later : ℤ) (p : Pipeline)
    → is_int64 p.counter.sequence ≡ true
    → (classify p.matcher w == unknown) ≡ true
    → handle w now later p ≡ (ok tt, record p { store = with_event w (classify p.matcher w) now p })
unfolding handle logged
handle-foreign w now later p fits foreign =
    rw (log_event-with_event w (classify p.matcher w) now p fits, foreign) refl

-- The process after a write that was logged and counted.
abbrev after_count : GattWrite → Str → ℤ → ℤ → Pipeline → Counter → Pipeline
after_count w event now later p c = record p {
  store =
      with_count w.peer_addr (get p.counter w.peer_addr +ℤ pos 1) later (with_event w event now p);
  counter = c;
}

saved_ok :
    (d : Str) (n now : ℤ) (s : Store)
    → pos 0 ≤ℤ n
    → n ≤ℤ pos 9223372036854775807
    → stored_count s d ≤ℤ n
    → save_counter d n now s ≡ ok (with_count d n now s)
unfolding save_counter
saved_ok d n now s positive small above = ground (arith, not_lowered (lookup d s.counters) above)
  where
    not_lowered : (o : Option CounterRow) → count_of o ≤ℤ n → is_lowered n o ≡ false
    not_lowered none h = refl
    not_lowered (some row) h = ground arith

handle-known :
    (w : GattWrite) (now later : ℤ) (p : Pipeline) (c : Counter)
    → is_int64 p.counter.sequence ≡ true
    → (classify p.matcher w == unknown) ≡ false
    → increment w.peer_addr (pos 1) p.counter ≡ ok (get p.counter w.peer_addr +ℤ pos 1, c)
    → let s = with_event w (classify p.matcher w) now p in
      let n = get p.counter w.peer_addr +ℤ pos 1 in
      save_counter w.peer_addr n later s ≡ ok (with_count w.peer_addr n later s)
      → handle w now later p ≡ (ok tt, after_count w (classify p.matcher w) now later p c)
unfolding handle logged counted saved
handle-known w now later p c fits known e h =
    rw (log_event-with_event w (classify p.matcher w) now p fits, known, e, h) refl

-- The log after a write.
abbrev pub logged_events : GattWrite → ℤ → Pipeline → List EventRow
logged_events w now p =
    event_row w.peer_addr (classify p.matcher w) p.counter.sequence (some w.service)
      (some w.characteristic) (some (take 16 w.payload)) now p.store.events
    ∷ p.store.events

abbrev Outcome : GattWrite → ℤ → Pipeline → Result (Unit {0}) × Pipeline → Type 0
Outcome w now p r =
    (r.0 ≡ ok tt)
    × (r.1.store.events ≡ logged_events w now p)
    × IsExact r.1.store r.1.counter
    × ((d : Str)
        → stored_count r.1.store d
          ≡ stored_count p.store d +ℤ one_if (is_known (classify p.matcher w) w.peer_addr d))

foreign-Outcome :
    (w : GattWrite) (event : Str) (now : ℤ) (p : Pipeline)
    → IsExact p.store p.counter
    → classify p.matcher w ≡ event
    → (event == unknown) ≡ true
    → Outcome w now p (ok tt, record p { store = with_event w event now p })
unfolding known_events
foreign-Outcome w event now p x same foreign = (
  refl,
  rw same refl,
  record {
    backed = with_event-IsBacked w event now p x.backed;
    stored = λ d. ground (arith, x.stored d);
  },
  λ d. rw (same, foreign) (ground (arith, +ℤ_parts (stored_count p.store d) (pos 0))),
)

known-Outcome :
    (w : GattWrite) (event : Str) (now later : ℤ) (p : Pipeline) (c : Counter)
    → IsExact p.store p.counter
    → classify p.matcher w ≡ event
    → (event == unknown) ≡ false
    → IsBacked (with_event w event now p) c
    → get c w.peer_addr ≡ get p.counter w.peer_addr +ℤ pos 1
    → Outcome w now p (ok tt, after_count w event now later p c)
unfolding known_events
known-Outcome w event now later p c x same known b e =
    let n = get p.counter w.peer_addr +ℤ pos 1 in
    let plus = +ℤ_parts (get p.counter w.peer_addr) (pos 1) in
    (
      refl,
      rw same refl,
      record {
        backed =
            with_count-IsBacked w.peer_addr n later (with_event w event now p) c b
              (omega (arith, plus, x.backed.counts w.peer_addr, x.backed.live w.peer_addr)) e;
        stored = λ d. ground (
          arith,
          lookup-insert w.peer_addr d (record { count = n; updated_at = later }) p.store.counters,
          str_eq_iff w.peer_addr d,
          plus,
          x.stored d,
          x.backed.live d,
          x.backed.log d,
        );
      },
      λ d. rw same (
          ground (
            arith,
            lookup-insert w.peer_addr d (record { count = n; updated_at = later }) p.store.counters,
            str_eq_iff w.peer_addr d,
            plus,
            +ℤ_parts (stored_count p.store d) (pos 1),
            +ℤ_parts (stored_count p.store d) (pos 0),
            x.stored d,
            x.backed.live d,
            x.backed.log d,
          )),
    )

-- Where the stored counts, the live ones and the log agree, the live sequence has 64 bits and the count of
-- the write's device is below 2⁶³ - 1: no statement is refused, and a write of whatever event appends
-- its row to the log, in front of the others, with its device, its event or `unknown`, the live
-- sequence, its UUIDs and the first 16 bytes of its payload. If it is of a rule, it raises the stored
-- count of its device by one; no other stored count changes, and all three agree after.
pub handle_lem :
    (w : GattWrite) (now later : ℤ) (p : Pipeline)
    → IsExact p.store p.counter
    → is_int64 p.counter.sequence ≡ true
    → get p.counter w.peer_addr <ℤ pos 9223372036854775807
    → let r = handle w now later p in
      (r.0 ≡ ok tt)
      × (r.1.store.events ≡ logged_events w now p)
      × IsExact r.1.store r.1.counter
      × ((d : Str)
          → stored_count r.1.store d
            ≡ stored_count p.store d +ℤ one_if (is_known (classify p.matcher w) w.peer_addr d))
handle_lem w now later p x fits small =
    let event = classify p.matcher w in
    let n = get p.counter w.peer_addr +ℤ pos 1 in
    elim (Bool-cases (event == unknown)) [
      | inl foreign ↦
          subst (Outcome w now p) (sym (handle-foreign w now later p fits foreign))
            (foreign-Outcome w event now p x refl foreign)
      | inr known ↦
          let (c, e, g, q) = increment-get w.peer_addr (pos 1) p.counter (omega arith) in
          let at : get c w.peer_addr ≡ n =
            ground (arith, g w.peer_addr, str_eq_iff w.peer_addr w.peer_addr) in
          let plus = +ℤ_parts (get p.counter w.peer_addr) (pos 1) in
          let fine =
            saved_ok w.peer_addr n later (with_event w event now p)
              (omega (arith, plus, x.backed.counts w.peer_addr, x.backed.live w.peer_addr))
              (omega (arith, plus, x.backed.counts w.peer_addr, x.backed.live w.peer_addr))
              (omega (arith, plus, x.backed.counts w.peer_addr, x.backed.live w.peer_addr)) in
          subst (Outcome w now p) (sym (handle-known w now later p c fits known e fine)) (
            known-Outcome w event now later p c x refl known
              (incremented-IsBacked w event now p c x.backed known g) at)
    ]
