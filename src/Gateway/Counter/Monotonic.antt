-- ===== src/Gateway/Counter/Monotonic.antt =====
-- gateway/counter.py: what its calls do to a count and to the sequence.
use ble_usage_meter.Common.{
  Str, List, [], ◌∷◌, ok, err, value_error, if◌then◌else◌, str_is_eq, ◌==◌, ◌≡◌, arith, str_eq_iff,
  refl,
}
use ble_usage_meter.Common.Int.{ℤ, pos, ◌+ℤ◌, ◌≤ℤ◌, ◌<ℤ◌, +ℤ_parts}
use ble_usage_meter.Common.Dict.{insert, get_or-insert}
use ble_usage_meter.Gateway.Counter.{
  Counter, get, increment, next_sequence, Call, restore_call, restore_sequence_call, increment_call,
  next_sequence_call, after, after_all,
}

-- An increment by n > 0 returns the device's old count plus n, stores exactly that for the
-- device, and leaves every other device's count and the sequence as they were.
pub increment-get :
    (d : Str) (n : ℤ) (c : Counter)
    → pos 1 ≤ℤ n
    → (c' : Counter) × (increment d n c ≡ ok (get c d +ℤ n, c'))
      × ((j : Str) → get c' j ≡ (if d == j then get c d +ℤ n else get c j))
      × (c'.sequence ≡ c.sequence)
unfolding increment
increment-get d n c h = (
  record c { counts = insert d (get c d +ℤ n) c.counts },
  ground arith,
  λ j. get_or-insert d j (get c d +ℤ n) (pos 0) c.counts,
  refl,
)

-- An increment below 1 raises, whatever the state.
pub increment_raises :
    (d : Str) (n : ℤ) (c : Counter) → n <ℤ pos 1 → increment d n c ≡ err value_error
unfolding increment
increment_raises d n c h = ground arith

module _ (j : Str) where
  after-get : (call : Call) (c : Counter) → get c j ≤ℤ get (after call c) j
  unfolding after
  after-get (restore_call d n) c =
      ground (arith, get_or-insert d j n (pos 0) c.counts, str_eq_iff d j)
  after-get (restore_sequence_call s) c = ground arith
  after-get (increment_call d n) c = ground (
    arith,
    get_or-insert d j (get c d +ℤ n) (pos 0) c.counts,
    str_eq_iff d j,
    +ℤ_parts (get c d) n,
  )
  after-get next_sequence_call c = omega arith

after-sequence : (call : Call) (c : Counter) → c.sequence ≤ℤ (after call c).sequence
unfolding after
after-sequence (restore_call d n) c = ground arith
after-sequence (restore_sequence_call s) c = ground arith
after-sequence (increment_call d n) c = ground arith
after-sequence next_sequence_call c = ground (arith, +ℤ_parts c.sequence (pos 1))

-- Whatever methods are called with whatever arguments, no device's count and not the sequence
-- goes down.
pub after_all_monotonic :
    (calls : List Call) (c : Counter) (j : Str)
    → (get c j ≤ℤ get (after_all calls c) j) × (c.sequence ≤ℤ (after_all calls c).sequence)
unfolding after_all
after_all_monotonic [] c j = omega arith
after_all_monotonic (call ∷ calls) c j =
    omega
      (arith, after-get j call c, after-sequence call c, after_all_monotonic calls (after call c) j)

-- A sequence number that was handed out is below every one handed out later, whatever is called
-- in between.
pub next_sequence_fresh :
    (calls : List Call) (c : Counter)
    → let (s, c') = next_sequence c in s <ℤ (next_sequence (after_all calls c')).0
unfolding next_sequence
next_sequence_fresh calls c =
    let s = c.sequence +ℤ pos 1 in
    let later = after_all calls (record c { sequence = s }) in
    omega (
      arith,
      after_all_monotonic calls (record c { sequence = s }) [],
      +ℤ_parts later.sequence (pos 1),
    )
