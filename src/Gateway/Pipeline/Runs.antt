-- ===== src/Gateway/Pipeline/Runs.antt =====
-- Processes that handle writes, fail, are killed and start again.
use ble_usage_meter.Common.{
  ◌≡◌, sym, subst, ok-injective, ◌∙◌, Str, false, ok, arith, ◌==◌, str_is_eq, str_eq_iff,
  Bool-cases, inl, inr,
}
use ble_usage_meter.Common.Int.{ℤ, pos, ◌+ℤ◌, max_ℤ}
use ble_usage_meter.Gateway.Counter.{Counter, get, increment}
use ble_usage_meter.Gateway.Counter.Monotonic.{increment-get}
use ble_usage_meter.Gateway.Matcher.{GattWrite, unknown, classify}
use ble_usage_meter.Gateway.Store.{Store, load_sequence}
use ble_usage_meter.Gateway.Store.AppendOnly.{stored_count}
use ble_usage_meter.Gateway.Pipeline.{Pipeline, saved, counted, logged, log_event, handle, load}
use ble_usage_meter.Gateway.Pipeline.Counts.{IsBacked, load-get}
use ble_usage_meter.Gateway.Pipeline.Steps.{
  with_event, log_event-cases, save_counter-cases, with_event-IsBacked, incremented-IsBacked,
  with_count-IsBacked,
}

abbrev Backed : Pipeline → Type 0
Backed p = IsBacked p.store p.counter

counted-IsBacked :
    (w : GattWrite) (event : Str) (now later : ℤ) (p : Pipeline)
    → Backed p
    → (event == unknown) ≡ false
    → Backed
        (counted w.peer_addr later
          (record p { store = with_event w event now p })
          (increment w.peer_addr (pos 1) p.counter)).1
unfolding counted saved
counted-IsBacked w event now later p b known =
    let (c, e, g, q) = increment-get w.peer_addr (pos 1) p.counter (omega arith) in
    let n = get p.counter w.peer_addr +ℤ pos 1 in
    let s = with_event w event now p in
    let b' = incremented-IsBacked w event now p c b known g in
    elim (save_counter-cases w.peer_addr n later s) [
      | inl (error, h) ↦ rw (e, h) b'
      | inr (positive, above, h) ↦
          rw (e, h)
            (with_count-IsBacked w.peer_addr n later s c b' positive
              (ground (arith, g w.peer_addr, str_eq_iff w.peer_addr w.peer_addr)))
    ]

-- Whichever statement of it is refused, handling a write leaves the counts backed.
handle-IsBacked :
    (w : GattWrite) (now later : ℤ) (p : Pipeline) → Backed p → Backed (handle w now later p).1
unfolding handle logged
handle-IsBacked w now later p b =
    let event = classify p.matcher w in
    elim (log_event-cases w event now p) [
      | inl (error, h) ↦ rw h b
      | inr h ↦ elim (Bool-cases (event == unknown)) [
        | inl foreign ↦ rw (h, foreign) (with_event-IsBacked w event now p b)
        | inr known ↦ rw (h, known) (counted-IsBacked w event now later p b known)
      ]
    ]

-- What can happen to a process and its tables: a write is handled, whether or not a statement of it
-- is refused; or the process ends, between two writes or right after an event was logged, and another
-- one starts from the tables.
pub data Run (p : Pipeline) : Pipeline → Type 0 where
  started : Run p p
  handled :
      {q : Pipeline} → Run p q → (w : GattWrite) (now later : ℤ) → Run p (handle w now later q).1
  restarted :
      {q : Pipeline}
      → Run p q
      → (c : Counter) → load q.store ≡ ok c
      → Run p (record q { counter = c })
  killed :
      {q : Pipeline}
      → Run p q
      → (w : GattWrite) (event : Str) (now : ℤ) (s : Store) (c : Counter)
      → log_event w event now q ≡ ok s
      → load s ≡ ok c
      → Run p (record q { store = s; counter = c })

pub load-IsBacked : (s : Store) (c c' : Counter) → IsBacked s c → load s ≡ ok c' → IsBacked s c'
load-IsBacked s c c' b h =
    let (l, e, g, q) = load-get s b.dict b.counts in
    let same : l ≡ c' = ok-injective (sym e ∙ h) in
    record {
      dict = b.dict;
      counts = b.counts;
      live = λ d. rw (← same, g d) (omega arith);
      log = λ d. rw (← same, g d) (omega (arith, b.live d, b.log d));
    }

logged-IsBacked :
    (w : GattWrite) (event : Str) (now : ℤ) (p : Pipeline) (s : Store)
    → Backed p
    → log_event w event now p ≡ ok s
    → IsBacked s p.counter
logged-IsBacked w event now p s b h = elim (log_event-cases w event now p) [
  | inl (error, raised) ↦ absurd (cc)
  | inr done ↦
      subst (λ t. IsBacked t p.counter) (ok-injective (sym done ∙ h))
        (with_event-IsBacked w event now p b)
]

-- Where it is so at the start, however processes handle writes, fail, are killed and start again: no
-- device's stored count is above its live count, and that is never above the number of the device's
-- events of a rule in the log.
pub Run-IsBacked :
    {p q : Pipeline} → Run p q → IsBacked p.store p.counter → IsBacked q.store q.counter
Run-IsBacked started b = b
Run-IsBacked (handled run w now later) b = handle-IsBacked w now later _ (Run-IsBacked run b)
Run-IsBacked (restarted run c h) b = load-IsBacked _ _ c (Run-IsBacked run b) h
Run-IsBacked (killed {q} run w event now s c logs loads) b =
    load-IsBacked s q.counter c (logged-IsBacked w event now q s (Run-IsBacked run b) logs) loads

-- A process can start from any tables whose counts are backed by their log: every device's live count
-- is then its stored one, and the sequence the stored one, or 0 where that is negative.
pub restart_lem :
    (s : Store) (c : Counter)
    → IsBacked s c
    → (c' : Counter) × (load s ≡ ok c')
      × ((d : Str) → get c' d ≡ stored_count s d)
      × (c'.sequence ≡ max_ℤ (pos 0) (load_sequence s))
restart_lem s c b = load-get s b.dict b.counts
