-- ===== src/Gateway/Pipeline/Loaded.antt =====
-- What `_load` (gateway/cli.py) puts into the counter.
use ble_usage_meter.Common.{
  ◌≡◌, refl, sym, ap, ◌∙◌, Str, [], ◌∷◌, ◌++◌, append-nil, append_assoc, none, ok, arith, All,
  str_is_eq, str_eq_iff,
}
use ble_usage_meter.Common.Int.{ℤ, pos, ◌≤ℤ◌}
use ble_usage_meter.Common.Dict.{Dict, IsDict, lookup, insert, insert-new, get_or, lookup-insert}
use ble_usage_meter.Gateway.Counter.{Counter, init, get, restore, restore_sequence}
use ble_usage_meter.Gateway.Store.{Store, CounterRow, counts_of, load_sequence}
use ble_usage_meter.Gateway.Store.AppendOnly.{count_of, stored_count}
use ble_usage_meter.Gateway.Pipeline.{restore_all, load}
use ble_usage_meter.Gateway.Pipeline.Counts.{tail_counts, head_count}

-- None of these rows has a count yet.
abbrev AreNew : Dict Str CounterRow → Dict Str ℤ → Type 0
AreNew rows counts = All (λ r. lookup r.0 counts ≡ none) rows

init-AreNew : (rows : Dict Str CounterRow) → AreNew rows []
unfolding lookup
init-AreNew [] = tt
init-AreNew (r ∷ rows) = (refl, init-AreNew rows)

insert-AreNew :
    (j : Str) (n : ℤ) (rows : Dict Str CounterRow) (counts : Dict Str ℤ)
    → lookup j rows ≡ none
    → AreNew rows counts
    → AreNew rows (insert j n counts)
unfolding lookup
insert-AreNew j n [] counts h new = tt
insert-AreNew j n ((i, row) ∷ rows) counts h (one, new) = (
  ground (arith, h, one, lookup-insert j i n counts, str_eq_iff i j, str_eq_iff j i),
  insert-AreNew j n rows counts (ground (arith, h)) new,
)

restore-new :
    (j : Str) (n : ℤ) (c : Counter)
    → pos 0 ≤ℤ n
    → lookup j c.counts ≡ none
    → restore j n c ≡ ok (record c { counts = insert j n c.counts })
unfolding restore get get_or
restore-new j n c h new = ground (arith, h, new)

restore_all-counts :
    (rows : Dict Str CounterRow) (c : Counter)
    → IsDict rows
    → AreNew rows c.counts
    → ((d : Str) → pos 0 ≤ℤ count_of (lookup d rows))
    → restore_all (counts_of rows) c ≡ ok (record c { counts = c.counts ++ counts_of rows })
unfolding restore_all counts_of
restore_all-counts [] c dict new h =
    ap (λ l. ok (record c { counts = l })) (sym (append-nil c.counts))
restore_all-counts ((j, row) ∷ rows) c dict new h =
    let c1 : Counter = record c { counts = insert j row.count c.counts } in
    rw (restore-new j row.count c (head_count j row rows h) new.0) (
      restore_all-counts rows c1 dict.1 (insert-AreNew j row.count rows c.counts dict.0 new.1)
        (tail_counts j row rows dict.0 h)
      ∙ ap (λ l. ok (record c { counts = l }))
          (ap (λ l. l ++ counts_of rows) (insert-new j row.count c.counts new.0)
            ∙ append_assoc c.counts ((j, row.count) ∷ []) (counts_of rows)))

-- A process starts with the stored counts, all of them, in the order of the table.
pub load-counts :
    (s : Store)
    → IsDict s.counters
    → ((d : Str) → pos 0 ≤ℤ stored_count s d)
    → load s
      ≡ ok (
          restore_sequence
            (load_sequence s)
            (record { counts = counts_of s.counters; sequence = pos 0 }))
unfolding load
load-counts s dict h = rw (restore_all-counts s.counters init dict (init-AreNew s.counters) h) refl
