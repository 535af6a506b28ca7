-- ===== src/Tools/Snoop/Counts.antt =====
-- How many writes a group is counted for.
use ble_usage_meter.Common.{
  ℕ, ◌+◌, ◌≡◌, ap, ◌∙◌, Bytes, List, [], ◌∷◌, Option, none, some, if◌then◌else◌, ◌==◌, arith,
}
use ble_usage_meter.Common.Dict.{Dict, lookup, get_or, get_or-insert, IsDict, insert-IsDict}
use ble_usage_meter.Tools.Snoop.{AttWrite, parse_acl_att}
use ble_usage_meter.Tools.Snoop.Groups.{Group, group_is_eq, group_of, add_write, collect_from}

module _ (prefix_len : ℕ) (g : Group) where
  -- Whether a packet has a write of the group, as a number, and how many of a file's packets have.
  abbrev pub hit : Option AttWrite → ℕ
  hit none = 0
  hit (some w) = if group_of prefix_len w == g then 1 else 0

  unfoldable pub occurrences : List (ℕ × Bytes) → ℕ
  occurrences [] = 0
  occurrences ((flags, packet) ∷ records) = hit (parse_acl_att packet) + occurrences records

  add_write-count :
      (w : Option AttWrite) (groups : Dict Group ℕ)
      → get_or g 0 (add_write prefix_len w groups) ≡ get_or g 0 groups + hit w
  unfolding add_write
  add_write-count none groups = omega arith
  add_write-count (some w) groups =
      let key = group_of prefix_len w in
      ground (
        arith,
        get_or-insert key g (get_or key 0 groups + 1) 0 groups,
        group_is_eq.same_iff key g,
        same_count key,
      )
    where
      same_count : (key : Group) → key ≡ g → get_or key 0 groups ≡ get_or g 0 groups
      same_count key e = ap (λ k. get_or k 0 groups) e

  collect_from-count :
      (records : List (ℕ × Bytes)) (groups : Dict Group ℕ)
      → get_or g 0 (collect_from prefix_len records groups)
        ≡ get_or g 0 groups + occurrences records
  unfolding collect_from occurrences
  collect_from-count [] groups = omega arith
  collect_from-count ((flags, packet) ∷ records) groups =
      collect_from-count records (add_write prefix_len (parse_acl_att packet) groups)
      ∙ ground (arith, add_write-count (parse_acl_att packet) groups)

  pub collect-count :
      (records : List (ℕ × Bytes))
      → get_or g 0 (collect_from prefix_len records []) ≡ occurrences records
  unfolding get_or lookup
  collect-count records = collect_from-count records [] ∙ omega arith

add_write-IsDict :
    (prefix_len : ℕ) (w : Option AttWrite) (groups : Dict Group ℕ)
    → IsDict groups
    → IsDict (add_write prefix_len w groups)
unfolding add_write
add_write-IsDict prefix_len none groups h = h
add_write-IsDict prefix_len (some w) groups h =
    insert-IsDict (group_of prefix_len w) (get_or (group_of prefix_len w) 0 groups + 1) groups h

pub collect_from-IsDict :
    (prefix_len : ℕ) (records : List (ℕ × Bytes)) (groups : Dict Group ℕ)
    → IsDict groups
    → IsDict (collect_from prefix_len records groups)
unfolding collect_from
collect_from-IsDict prefix_len [] groups h = h
collect_from-IsDict prefix_len ((flags, packet) ∷ records) groups h =
    collect_from-IsDict prefix_len records (add_write prefix_len (parse_acl_att packet) groups)
      (add_write-IsDict prefix_len (parse_acl_att packet) groups h)
