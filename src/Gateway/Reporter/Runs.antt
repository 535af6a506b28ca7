-- ===== src/Gateway/Reporter/Runs.antt =====
-- The reports of one run of the `report` command, and of the runs after it.
use ble_usage_meter.Common.{
  ◌≡◌, inl, inr, refl, ap, sym, ◌∙◌, Str, List, [], ◌∷◌, map, Bool-cases, value_error, some, ok,
  err, bind-eq-ok, ok-injective, arith, All, str_is_eq, str_eq_iff,
}
use ble_usage_meter.Common.Int.{ℤ, pos, ◌≤ℤ◌, ◌<ℤ◌, ◌+ℤ◌, ◌-ℤ◌, +ℤ_parts, max_ℤ, ltb_ℤ, leb_ℤ}
use ble_usage_meter.Common.Dict.{Dict, IsDict, lookup, insert-IsDict, get_or}
use ble_usage_meter.Gateway.Signer.{ReportTuple}
use ble_usage_meter.Gateway.Counter.{
  Counter, init, get, restore, restore_sequence, snapshot, next_sequence,
}
use ble_usage_meter.Gateway.Store.{
  Store, CounterRow, counts_of, load_counters, save_sequence, load_sequence,
}
use ble_usage_meter.Gateway.Store.AppendOnly.{stored_count, Write, after_all, after_all-Keeps}
use ble_usage_meter.Gateway.Pipeline.{load, restore_all}
use ble_usage_meter.Gateway.Pipeline.Loaded.{load-counts}
use ble_usage_meter.Gateway.Pipeline.Counts.{IsBacked, load-get}
use ble_usage_meter.Gateway.Reporter.{tuples_of, prepare}

-- Each report has the run's sequence and window, and its device's count in a dict of counts.
abbrev pub Reports : (Str → ℤ) → ℤ → ℤ → ℤ → List ReportTuple → Type 0
Reports counts sequence start end = All (λ r.
    (r.count ≡ counts r.device_id)
    × (r.sequence ≡ sequence)
    × (r.window_start ≡ start)
    × (r.window_end ≡ end))

restore-keeps :
    (d : Str) (n : ℤ) (c c' : Counter)
    → restore d n c ≡ ok c'
    → IsDict c.counts
    → IsDict c'.counts × (c'.sequence ≡ c.sequence)
unfolding restore
restore-keeps d n c c' h dict = elim (Bool-cases (ltb_ℤ n (pos 0))) [
  | inl bad ↦ absurd (raised (rw bad at h))
  | inr good ↦ elim (Bool-cases (leb_ℤ (get c d) n)) [
    | inl above ↦
        rw (← ok-injective (rw (good, above) at h)) (insert-IsDict d n c.counts dict, refl)
    | inr below ↦ rw (← ok-injective (rw (good, below) at h)) (dict, refl)
  ]
]
  where
    raised : err value_error ≡ ok c' → ⊥
    raised e = cc

restore_all-keeps :
    (counts : Dict Str ℤ) (c c' : Counter)
    → restore_all counts c ≡ ok c'
    → IsDict c.counts
    → IsDict c'.counts × (c'.sequence ≡ c.sequence)
unfolding restore_all
restore_all-keeps [] c c' h dict = rw (← ok-injective h) (dict, refl)
restore_all-keeps ((d, n) ∷ counts) c c' h dict =
    let (c1, e1, e2) = bind-eq-ok (restore d n c) _ h in
    let (dict1, s1) = restore-keeps d n c c1 e1 dict in
    let (dict2, s2) = restore_all-keeps counts c1 c' e2 dict1 in (dict2, s2 ∙ s1)

-- A process starts with a dict of counts and with the stored sequence, or 0 where that is negative.
load-keeps :
    (s : Store) (c : Counter)
    → load s ≡ ok c
    → IsDict c.counts × (c.sequence ≡ max_ℤ (pos 0) (load_sequence s))
unfolding load restore_sequence
load-keeps s c h =
    let (c1, e1, e2) = bind-eq-ok (restore_all (load_counters s) init) _ h in
    let (dict, q) = restore_all-keeps (load_counters s) init c1 e1 tt in
    rw (← ok-injective e2) (ground (arith, dict, q))

-- The tuples of a dict have its values for counts.
tuples_of-Reports :
    (f : Str → ℤ) (counts : Dict Str ℤ) (sequence start end : ℤ)
    → IsDict counts
    → ((d : Str) (n : ℤ) → lookup d counts ≡ some n → f d ≡ n)
    → Reports f sequence start end (tuples_of counts sequence start end)
unfolding tuples_of lookup
tuples_of-Reports f [] sequence start end dict h = tt
tuples_of-Reports f ((j, m) ∷ counts) sequence start end dict h = (
  (sym (h j m (ground (arith, str_eq_iff j j))), refl, refl, refl),
  tuples_of-Reports f counts sequence start end dict.1
      (λ d n e. h d n (ground (arith, str_eq_iff j d, dict.0))),
)

get-lookup : (c : Counter) (d : Str) (n : ℤ) → lookup d c.counts ≡ some n → get c d ≡ n
unfolding get get_or
get-lookup c d n h = ground (arith, h)

next_of : (c : Counter) → (next_sequence c).0 ≡ c.sequence +ℤ pos 1
unfolding next_sequence
next_of c = refl

-- The sequence of a run from these tables.
abbrev pub run_sequence : Store → ℤ
run_sequence s = max_ℤ (pos 0) (load_sequence s) +ℤ pos 1

run_sequence-above : (s : Store) → (load_sequence s <ℤ run_sequence s) × (pos 0 <ℤ run_sequence s)
run_sequence-above s = ground (arith, +ℤ_parts (max_ℤ (pos 0) (load_sequence s)) (pos 1))

save_sequence_ok :
    (q : ℤ) (s : Store)
    → load_sequence s ≤ℤ q
    → save_sequence q s ≡ ok (record s { sequence = some q })
unfolding save_sequence
save_sequence_ok q s h = ground arith

-- Its two statements, where they are not refused.
pub prepare-parts :
    (now interval : ℤ) (s s' : Store) (rs : List ReportTuple)
    → prepare now interval s ≡ ok (rs, s')
    → (c : Counter) × (load s ≡ ok c)
      × (rs ≡ tuples_of (snapshot c) (run_sequence s) (now -ℤ interval) now)
      × (s' ≡ record s { sequence = some (run_sequence s) })
unfolding prepare
prepare-parts now interval s s' rs h =
    let (c, e1, h1) = bind-eq-ok (load s) _ h in
    let (t, e2, h2) = bind-eq-ok (save_sequence (next_sequence c).0 s) _ h1 in
    let q : (next_sequence c).0 ≡ run_sequence s =
      next_of c ∙ ap (λ z. z +ℤ pos 1) (load-keeps s c e1).1 in
    let same = ok-injective h2 in
    let done = save_sequence_ok (run_sequence s) s (omega (arith, (run_sequence-above s).0)) in
    (
      c,
      e1,
      sym (ap (λ x. x.0) same) ∙ ap (λ z. tuples_of (snapshot c) z (now -ℤ interval) now) q,
      sym (ap (λ x. x.1) same) ∙ ok-injective (sym e2 ∙ ap (λ z. save_sequence z s) q ∙ done),
    )

-- The devices of the tuples are those of the rows, in their order.
devices-tuples_of :
    (rows : Dict Str CounterRow) (sequence start end : ℤ)
    → map (λ r. r.device_id) (tuples_of (counts_of rows) sequence start end)
      ≡ map (λ (row : Str × CounterRow). row.0) rows
unfolding tuples_of counts_of
devices-tuples_of [] sequence start end = refl
devices-tuples_of ((d, row) ∷ rows) sequence start end =
    ap (λ ds. d ∷ ds) (devices-tuples_of rows sequence start end)

loaded-counts :
    (s : Store) (c c' : Counter) → IsBacked s c → load s ≡ ok c' → c'.counts ≡ counts_of s.counters
unfolding restore_sequence
loaded-counts s c c' b e =
    rw (← ok-injective (sym (load-counts s b.dict b.counts) ∙ e)) (ground arith)

-- The report command is never refused by its tables: where no stored count is negative and none is
-- twice there, it gives one report of each stored device, in the order of the table, with its stored
-- count and the run's own sequence and window, and leaves the tables as they were but for that sequence, which it has saved.
pub prepare_lem :
    (now interval : ℤ) (s : Store) (c : Counter)
    → IsBacked s c
    → (rs : List ReportTuple) × (prepare now interval s
        ≡ ok (rs, record s { sequence = some (run_sequence s) }))
      × Reports (stored_count s) (run_sequence s) (now -ℤ interval) now rs
      × (map (λ r. r.device_id) rs ≡ map (λ row. row.0) s.counters)
unfolding prepare
prepare_lem now interval s c b =
    let (c', e, g, q) = load-get s b.dict b.counts in
    let next : (next_sequence c').0 ≡ run_sequence s = next_of c' ∙ ap (λ z. z +ℤ pos 1) q in
    let done = save_sequence_ok (run_sequence s) s (omega (arith, (run_sequence-above s).0)) in
    (
      tuples_of (snapshot c') (run_sequence s) (now -ℤ interval) now,
      rw (e, next, done) refl,
      tuples_of-Reports (stored_count s) (snapshot c') (run_sequence s) (now -ℤ interval) now
          (load-keeps s c' e).0 (λ d n h. sym (g d) ∙ get-lookup c' d n h),
      ap
            (λ counts.
              map (λ r. r.device_id) (tuples_of counts (run_sequence s) (now -ℤ interval) now))
            (loaded-counts s c c' b e)
          ∙ devices-tuples_of s.counters (run_sequence s) (now -ℤ interval) now,
    )

sequence_of :
    (q : ℤ) (counts : Dict Str ℤ) (start end : ℤ)
    → All (λ r. r.sequence ≡ q) (tuples_of counts q start end)
unfolding tuples_of
sequence_of q [] start end = tt
sequence_of q ((d, n) ∷ counts) start end = (refl, sequence_of q counts start end)

load-saved : (q : ℤ) (s : Store) → load_sequence (record s { sequence = some q }) ≡ q
unfolding load_sequence
load-saved q s = refl

-- All reports of one run have one sequence, and every later run has a greater one, whatever is written
-- to the tables in between and whichever process does it.
pub sequences_rise :
    (now interval now' interval' : ℤ) (ws : List Write) (s t u : Store)
    (rs later : List ReportTuple)
    → prepare now interval s ≡ ok (rs, t)
    → prepare now' interval' (after_all ws t) ≡ ok (later, u)
    → (a : ℤ) × (b : ℤ) × All (λ r. r.sequence ≡ a) rs × All (λ r. r.sequence ≡ b) later × (a <ℤ b)
sequences_rise now interval now' interval' ws s t u rs later h h' =
    let (c, e, er, et) = prepare-parts now interval s t rs h in
    let (c', e', er', et') = prepare-parts now' interval' (after_all ws t) u later h' in
    let kept = after_all-Keeps ws t in
    let start : load_sequence t ≡ run_sequence s =
      ap load_sequence et ∙ load-saved (run_sequence s) s in
    (
      run_sequence s,
      run_sequence (after_all ws t),
      rw er (sequence_of (run_sequence s) (snapshot c) (now -ℤ interval) now),
      rw er' (sequence_of (run_sequence (after_all ws t)) (snapshot c') (now' -ℤ interval') now'),
      rw (← start) (omega (arith, kept.sequence, (run_sequence-above (after_all ws t)).0)),
    )
