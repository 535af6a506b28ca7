-- ===== src/Gateway/Pipeline/Counts.antt =====
-- The stored counts, the live counts and the log of events.
use ble_usage_meter.Common.{
  ℕ, ◌+◌, ◌≡◌, refl, ap, ◌∙◌, Str, List, [], ◌∷◌, not, ◌&&◌, none, ok, arith, if◌then◌else◌, ◌==◌,
  str_is_eq, str_eq_iff, Bool-cases, inl, inr,
}
use ble_usage_meter.Common.Int.{ℤ, pos, ◌≤ℤ◌, max_ℤ, leb_ℤ}
use ble_usage_meter.Common.Dict.{Dict, IsDict, lookup, insert, get_or, get_or-insert}
use ble_usage_meter.Gateway.Counter.{Counter, init, get, restore, restore_sequence}
use ble_usage_meter.Gateway.Matcher.{unknown}
use ble_usage_meter.Gateway.Store.{Store, CounterRow, EventRow, counts_of, load_sequence}
use ble_usage_meter.Gateway.Store.AppendOnly.{count_of, stored_count}
use ble_usage_meter.Gateway.Pipeline.{restore_all, load}

-- The events of a device that are of a rule.
unfoldable pub known_events : Str → List EventRow → ℕ
known_events d [] = 0
known_events d (e ∷ es) =
    (if (e.device_id == d) && not (e.event == unknown) then 1 else 0) + known_events d es

-- No device's stored count is above its live count, and that not above what the log shows.
pub record IsBacked (s : Store) (c : Counter) : Type 0 where
  pub dict : IsDict s.counters
  pub counts : (d : Str) → pos 0 ≤ℤ stored_count s d
  pub live : (d : Str) → stored_count s d ≤ℤ get c d
  pub log : (d : Str) → get c d ≤ℤ pos (known_events d s.events)

-- The three agree.
pub record IsExact (s : Store) (c : Counter) : Type 0 where
  pub backed : IsBacked s c
  pub stored : (d : Str) → stored_count s d ≡ pos (known_events d s.events)

-- A restored value that is not negative is taken where it is not below the live one.
restore-get :
    (d : Str) (n : ℤ) (c : Counter)
    → pos 0 ≤ℤ n
    → (c' : Counter) × (restore d n c ≡ ok c')
      × ((j : Str) → get c' j ≡ (if d == j then max_ℤ (get c d) n else get c j))
      × (c'.sequence ≡ c.sequence)
unfolding restore
restore-get d n c h = elim (Bool-cases (leb_ℤ (get c d) n)) [
  | inl above ↦ (
    record c { counts = insert d n c.counts },
    ground arith,
    λ j. ground (arith, get_or-insert d j n (pos 0) c.counts),
    refl,
  )
  | inr below ↦ (c, ground arith, λ j. ground (arith, str_eq_iff d j), refl)
]

pub tail_counts :
    (j : Str) (row : CounterRow) (rows : Dict Str CounterRow)
    → lookup j rows ≡ none
    → ((d : Str) → pos 0 ≤ℤ count_of (lookup d ((j, row) ∷ rows)))
    → (d : Str) → pos 0 ≤ℤ count_of (lookup d rows)
unfolding lookup
tail_counts j row rows new n d = ground (arith, n d, str_eq_iff j d)

pub head_count :
    (j : Str) (row : CounterRow) (rows : Dict Str CounterRow)
    → ((d : Str) → pos 0 ≤ℤ count_of (lookup d ((j, row) ∷ rows)))
    → pos 0 ≤ℤ row.count
unfolding lookup
head_count j row rows n = ground (arith, n j, str_eq_iff j j)

-- Restoring raises every count to the stored one.
restore_all-get :
    (rows : Dict Str CounterRow) (c : Counter)
    → IsDict rows
    → ((d : Str) → pos 0 ≤ℤ count_of (lookup d rows))
    → ((d : Str) → pos 0 ≤ℤ get c d)
    → (c' : Counter) × (restore_all (counts_of rows) c ≡ ok c')
      × ((d : Str) → get c' d ≡ max_ℤ (get c d) (count_of (lookup d rows)))
      × (c'.sequence ≡ c.sequence)
unfolding restore_all counts_of lookup
restore_all-get [] c h n m = (c, refl, λ d. ground (arith, m d), refl)
restore_all-get ((j, row) ∷ rows) c h n m =
    let (c1, e1, g1, s1) = restore-get j row.count c (head_count j row rows n) in
    let (c2, e2, g2, s2) =
      restore_all-get rows c1 h.1 (tail_counts j row rows h.0 n)
        (λ d. ground (arith, g1 d, m d, m j)) in
    (c2, rw e1 e2, λ d. ground (arith, g1 d, g2 d, str_eq_iff j d, m d), s2 ∙ s1)

init-get : (d : Str) → get init d ≡ pos 0
unfolding get get_or lookup
init-get d = refl

-- Restoring the sequence leaves the counts alone and raises the sequence.
restore_sequence-keeps :
    (d : Str) (q : ℤ) (c : Counter)
    → (get (restore_sequence q c) d ≡ get c d)
      × ((restore_sequence q c).sequence ≡ max_ℤ c.sequence q)
unfolding restore_sequence get
restore_sequence-keeps d q c = ground arith

-- What a process starts from, where the tables hold no negative count.
pub load-get :
    (s : Store)
    → IsDict s.counters
    → ((d : Str) → pos 0 ≤ℤ stored_count s d)
    → (c : Counter) × (load s ≡ ok c)
      × ((d : Str) → get c d ≡ stored_count s d)
      × (c.sequence ≡ max_ℤ (pos 0) (load_sequence s))
unfolding load
load-get s h n =
    let (c, e, g, q) = restore_all-get s.counters init h n (λ d. rw (init-get d) (omega arith)) in
    (
      restore_sequence (load_sequence s) c,
      rw e refl,
      λ d. ground (arith, (restore_sequence-keeps d (load_sequence s) c).0, g d, n d, init-get d),
      (restore_sequence-keeps [] (load_sequence s) c).1 ∙ ap (λ z. max_ℤ z (load_sequence s)) q,
    )
