-- ===== src/Gateway/Pipeline/Same.antt =====
-- gateway/cli.py: what handling a write does not touch.
use ble_usage_meter.Common.{◌≡◌, refl, Str, arith, ◌==◌, str_is_eq, Bool-cases, inl, inr}
use ble_usage_meter.Common.Int.{ℤ, pos, ◌+ℤ◌}
use ble_usage_meter.Gateway.Counter.{get, increment}
use ble_usage_meter.Gateway.Counter.Monotonic.{increment-get}
use ble_usage_meter.Gateway.Matcher.{GattWrite, unknown, classify}
use ble_usage_meter.Gateway.Store.{load_sequence}
use ble_usage_meter.Gateway.Pipeline.{Pipeline, saved, counted, logged, handle}
use ble_usage_meter.Gateway.Pipeline.Steps.{with_event, log_event-cases, save_counter-cases}

-- Handling a write leaves the rules, the saved sequence and the live one alone.
abbrev pub Same : Pipeline → Pipeline → Type 0
Same p q =
    (q.matcher ≡ p.matcher)
    × (load_sequence q.store ≡ load_sequence p.store)
    × (q.counter.sequence ≡ p.counter.sequence)

counted-Same :
    (w : GattWrite) (event : Str) (now later : ℤ) (p : Pipeline)
    → Same p
        (counted w.peer_addr later
          (record p { store = with_event w event now p })
          (increment w.peer_addr (pos 1) p.counter)).1
unfolding counted saved load_sequence
counted-Same w event now later p =
    let (c, e, g, q) = increment-get w.peer_addr (pos 1) p.counter (omega arith) in
    let n = get p.counter w.peer_addr +ℤ pos 1 in
    elim (save_counter-cases w.peer_addr n later (with_event w event now p)) [
      | inl (error, h) ↦ rw (e, h) (refl, refl, q)
      | inr (positive, above, h) ↦ rw (e, h) (refl, refl, q)
    ]

pub handle-Same : (w : GattWrite) (now later : ℤ) (p : Pipeline) → Same p (handle w now later p).1
unfolding handle logged load_sequence
handle-Same w now later p =
    let event = classify p.matcher w in
    elim (log_event-cases w event now p) [
      | inl (error, h) ↦ rw h (refl, refl, refl)
      | inr h ↦ elim (Bool-cases (event == unknown)) [
        | inl foreign ↦ rw (h, foreign) (refl, refl, refl)
        | inr known ↦ rw (h, known) (counted-Same w event now later p)
      ]
    ]
