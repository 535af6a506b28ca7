-- ===== src/Tools/Snoop/Tests.antt =====
-- A capture of two records, and a packet of a write that goes on elsewhere.
use ble_usage_meter.Common.{
  ℕ, Bytes, List, [], ◌∷◌, ◌++◌, ok, some, ◌≡◌, refl, arith, All, length, ◌≤◌, ◌<◌,
}
use ble_usage_meter.Tools.Snoop.{
  btsnoop_magic, iter_records, opcode_of, write_req, payload_of, parse_acl_att, records_from,
}
use ble_usage_meter.Common.BigEndian.{big_endian}
use ble_usage_meter.Tools.Snoop.Records.{Entry, entries_bytes, entry_records, iter_records-entries}
use ble_usage_meter.Tools.Snoop.Ends.{records_from-ends}
use ble_usage_meter.Tools.Snoop.Groups.{Group, printed, Row, falling}
use ble_usage_meter.Tools.Snoop.Counts.{occurrences}
use ble_usage_meter.Common.Sorting.{IsSorted}
use ble_usage_meter.Tools.Snoop.Rows.{Counts, printed_lem}
use mathlib.Core.List.{Memᴰ}
use ble_usage_meter.Tools.Snoop.Writes.{packet, att_value, parse_acl_att-packet}

abbrev entry : ℕ → Bytes → Entry
entry flags packet = record {
  original_length = 9;
  flags = flags;
  drops = 0;
  timestamp = 5;
  packet = packet;
}

abbrev header : Bytes
header = 0 ∷ 0 ∷ 0 ∷ 1 ∷ 0 ∷ 0 ∷ 3 ∷ 234 ∷ []

abbrev entries : List Entry
entries = entry 0 (2 ∷ 1 ∷ []) ∷ entry 1 [] ∷ []

iter_records-entries_example :
    iter_records (btsnoop_magic ++ (header ++ entries_bytes entries))
    ≡ ok ((0, 2 ∷ 1 ∷ []) ∷ (1, []) ∷ [])
iter_records-entries_example = iter_records-entries header entries refl (omega arith)

write_req_lem : opcode_of 18 ≡ some write_req
unfolding opcode_of
write_req_lem = refl

-- The frame is said to be of 40 bytes, of which the packet has 5.
parse_acl_att-packet_example :
    parse_acl_att (packet 64 40 (att_value 18 3 (170 ∷ 1 ∷ [])))
    ≡ some (record { opcode = write_req; handle = 3; payload = 170 ∷ 1 ∷ [] })
unfolding payload_of
parse_acl_att-packet_example =
    parse_acl_att-packet 64 40 18 3 (170 ∷ 1 ∷ []) write_req (omega arith) (omega arith)
      (omega arith) (omega arith) (omega arith) write_req_lem

records_from-ends_example :
    records_from 60 (entries_bytes entries) ≡ records_from 100 (entries_bytes entries)
unfolding big_endian
records_from-ends_example =
    records_from-ends 60 100 (entries_bytes entries) (omega arith) (omega arith)

-- A capture in which a write of aa 01 comes twice and one of bb once.
abbrev driven : List Entry
driven =
    entry 0 (packet 64 5 (att_value 18 3 (170 ∷ 1 ∷ [])))
    ∷ entry 0 (packet 64 4 (att_value 18 3 (187 ∷ [])))
    ∷ entry 0 (packet 64 6 (att_value 18 3 (170 ∷ 1 ∷ 7 ∷ [])))
    ∷ []

abbrev driven_file : Bytes
driven_file = btsnoop_magic ++ (header ++ entries_bytes driven)

printed_lem_example :
    (rows : List Row) × (printed 2 1 40 driven_file ≡ ok rows)
    × All (Counts 2 1 40 driven_file (entry_records driven)) rows
    × IsSorted falling rows
    × (length rows < 40
        → (g : Group) → 1 ≤ occurrences 2 g (entry_records driven)
        → 1 ≤ occurrences 2 g (entry_records driven)
        → Memᴰ (occurrences 2 g (entry_records driven), g) rows)
printed_lem_example =
    printed_lem 2 1 40 driven_file (entry_records driven)
      (iter_records-entries header driven refl (omega arith))
