-- ===== src/Tools/Snoop/Rows.antt =====
-- What `main` of tools/parse_snoop.py prints: which rows, and in which order.
use ble_usage_meter.Common.{
  ℕ, ◌≤◌, ◌<◌, ◌≡◌, inl, inr, refl, sym, ap, ◌∙◌, Bytes, List, [], ◌∷◌, true, Bool-cases, Option,
  Option-cases, none, some, ok, length, take, take-short, leb, All, All-map, All-take, arith, ◌==◌,
  ==-refl, some-eq, subst,
}
use ble_usage_meter.Common.Dict.{Dict, lookup, get_or, IsDict}
use ble_usage_meter.Common.Sorting.{
  sort, IsSorted, sort-All, sort-IsSorted, sort-Mem, take-IsSorted,
}
use ble_usage_meter.Tools.Snoop.{iter_records}
use ble_usage_meter.Tools.Snoop.Groups.{
  Group, group_is_eq, collect_from, collect, candidates, Row, falling, printed,
}
use ble_usage_meter.Tools.Snoop.Counts.{occurrences, collect-count, collect_from-IsDict}
use mathlib.Core.List.{Memᴰ}

module _ (min_count : ℕ) where
  -- Rows of the groups behind the first one are rows of all groups.
  behind :
      (j : Group) (n : ℕ) (groups : Dict Group ℕ) (row : Row)
      → lookup j groups ≡ none
      → lookup row.1 groups ≡ some row.0
      → lookup row.1 ((j, n) ∷ groups) ≡ some row.0
  unfolding lookup
  behind j n groups row new found = elim (Bool-cases (j == row.1)) [
    | inl e ↦
        absurd
          (clash (sym (ap (λ k. lookup k groups) ((group_is_eq.same_iff j row.1).0 e)) ∙ new) found)
    | inr e ↦ rw e found
  ]
    where
      clash : {o : Option ℕ} {count : ℕ} → o ≡ none → o ≡ some count → ⊥
      clash h k = cc

  abbrev Candidate : Dict Group ℕ → Row → Type 0
  Candidate groups row = (lookup row.1 groups ≡ some row.0) × (min_count ≤ row.0)

  -- A row for every group with enough writes, with its count, and no other.
  candidates-All :
      (groups : Dict Group ℕ) → IsDict groups → All (Candidate groups) (candidates min_count groups)
  unfolding candidates lookup
  candidates-All [] h = tt
  candidates-All ((j, n) ∷ groups) h =
      let rest =
        All-map (candidates min_count groups) (λ row c. (behind j n groups row h.0 c.0, c.1))
          (candidates-All groups h.1) in
      elim (Bool-cases (leb min_count n)) [
        | inl e ↦ rw e ((own j n groups, enough n e), rest)
        | inr e ↦ rw e rest
      ]
    where
      own : (j : Group) (n : ℕ) (groups : Dict Group ℕ) → lookup j ((j, n) ∷ groups) ≡ some n
      own j n groups = rw (==-refl j) refl

      enough : (n : ℕ) → leb min_count n ≡ true → min_count ≤ n
      enough n e = ground (arith, e)

  candidates-later :
      (x : Row) (j : Group) (n : ℕ) (groups : Dict Group ℕ)
      → Memᴰ x (candidates min_count groups)
      → Memᴰ x (candidates min_count ((j, n) ∷ groups))
  unfolding candidates
  candidates-later x j n groups m = elim (Bool-cases (leb min_count n)) [
    | inl e ↦ rw e (Memᴰ.tail m)
    | inr e ↦ rw e m
  ]

  candidates-Mem :
      (count : ℕ) (g : Group) (groups : Dict Group ℕ)
      → lookup g groups ≡ some count
      → min_count ≤ count
      → Memᴰ (count, g) (candidates min_count groups)
  unfolding candidates lookup
  candidates-Mem count g [] h k = absurd (cc)
  candidates-Mem count g ((j, n) ∷ groups) h k = elim (Bool-cases (j == g)) [
    | inl e ↦
        let same : n ≡ count = some-eq (rw e at h) in
        rw (enough n same) (Memᴰ.head (pair (sym ((group_is_eq.same_iff j g).0 e)) (sym same)))
    | inr e ↦ candidates-later (count, g) j n groups (candidates-Mem count g groups (rw e at h) k)
  ]
    where
      enough : (n : ℕ) → n ≡ count → leb min_count n ≡ true
      enough n same = ground (arith, same, k)

      pair : {a b : Group} {m n : ℕ} → a ≡ b → m ≡ n → ◌≡◌ {A = Row} (m, a) (n, b)
      pair h k = cc

-- A group is looked up with its count, if that is not zero.
lookup-of-get_or :
    (g : Group) (groups : Dict Group ℕ)
    → 1 ≤ get_or g 0 groups
    → lookup g groups ≡ some (get_or g 0 groups)
unfolding get_or
lookup-of-get_or g groups h = elim (Option-cases (lookup g groups)) [
  | inl e ↦ absurd (omega (arith, rw (e, get_or) at h))
  | inr (n, e) ↦ rw (e, get_or) refl
]

get_or-of-lookup :
    (g : Group) (groups : Dict Group ℕ) (n : ℕ) → lookup g groups ≡ some n → n ≡ get_or g 0 groups
unfolding get_or
get_or-of-lookup g groups n e = rw (e, get_or) refl

module _ (prefix_len min_count top : ℕ) (file : Bytes) (records : List (ℕ × Bytes)) where
  abbrev file_groups : Dict Group ℕ
  file_groups = collect_from prefix_len records []

  abbrev all_rows : List Row
  all_rows = sort falling (candidates min_count file_groups)

  -- What a printed row says.
  abbrev pub Counts : Row → Type 0
  Counts (count, g) = (count ≡ occurrences prefix_len g records) × (min_count ≤ count)

  all_rows-Counts : All Counts all_rows
  all_rows-Counts = sort-All falling Counts (candidates min_count file_groups) (
      All-map (candidates min_count file_groups)
        (λ row c. (
          get_or-of-lookup row.1 file_groups row.0 c.0 ∙ collect-count prefix_len row.1 records,
          c.1,
        ))
        (candidates-All min_count file_groups (collect_from-IsDict prefix_len records [] tt)))

  all_rows-Mem :
      (g : Group)
      → 1 ≤ occurrences prefix_len g records
      → min_count ≤ occurrences prefix_len g records
      → Memᴰ (occurrences prefix_len g records, g) all_rows
  all_rows-Mem g some_write enough =
      let e = collect-count prefix_len g records in
      sort-Mem falling (occurrences prefix_len g records, g) (candidates min_count file_groups)
        (candidates-Mem min_count (occurrences prefix_len g records) g file_groups
          (lookup-of-get_or g file_groups (rw e some_write) ∙ ap some e) enough)

  -- Of a file with these records, each printed row has a group and the number of packets with a write
  -- of it, which reaches the least count, and the rows fall by count, opcode, handle and prefix. Where fewer
  -- rows are printed than the options allow, every group of a write that reaches the least count is
  -- among them.
  pub printed_lem :
      iter_records file ≡ ok records
      → (rows : List Row) × (printed prefix_len min_count top file ≡ ok rows)
        × All Counts rows
        × IsSorted falling rows
        × (length rows < top
            → (g : Group) → 1 ≤ occurrences prefix_len g records
            → min_count ≤ occurrences prefix_len g records
            → Memᴰ (occurrences prefix_len g records, g) rows)
  unfolding printed collect
  printed_lem h = (
    take top all_rows,
    rw h refl,
    All-take Counts top all_rows all_rows-Counts,
    take-IsSorted falling top all_rows (sort-IsSorted falling (candidates min_count file_groups)),
    λ short g some_write enough.
        subst (Memᴰ (occurrences prefix_len g records, g)) (sym (take-short top all_rows short))
          (all_rows-Mem g some_write enough),
  )
