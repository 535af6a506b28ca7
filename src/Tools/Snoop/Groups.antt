-- ===== src/Tools/Snoop/Groups.antt =====
-- tools/parse_snoop.py: the writes of a capture, counted by opcode, handle and the start of the payload,
-- and the rows that are printed of them.
use ble_usage_meter.Common.{
  ℕ, ◌+◌, ◌-◌, ◌/◌, ◌%◌, ◌≡◌, ◌↔◌, arith, Str, Bytes, text, List, [], ◌∷◌, Bool, true, false, not,
  ◌&&◌, ◌||◌, Option, none, some, Result, ok, ◌>>=◌, take, ltb, leb, eqb, str_eq, str_eq_iff,
  if◌then◌else◌, Key, str_is_eq,
}
use ble_usage_meter.Common.Dict.{Dict, get_or, insert}
use ble_usage_meter.Common.Sorting.{
  leb_str, leb_str_total, leb_str_trans, leb_str_antisym, Order, sort,
}
use ble_usage_meter.Tools.Snoop.{
  Opcode, write_req, write_cmd, prepare_write_req, signed_write_cmd, AttWrite, parse_acl_att,
  iter_records,
}

unfoldable pub opcode_name : Opcode → Str
opcode_name write_req = text "write_req"
opcode_name write_cmd = text "write_cmd"
opcode_name prepare_write_req = text "prepare_write_req"
opcode_name signed_write_cmd = text "signed_write_cmd"

abbrev pub hex_digit : ℕ → ℕ
hex_digit d = if ltb d 10 then b'0' + d else b'a' + (d - 10)

-- `bytes.hex`
unfoldable pub hex : Bytes → Str
hex [] = []
hex (b ∷ bs) = hex_digit (b / 16) ∷ hex_digit (b % 16) ∷ hex bs

-- An opcode's name, a handle, and the start of a payload in hexadecimal.
abbrev pub Group : Type 0
Group = Str × ℕ × Str

abbrev pub group_eq : Group → Group → Bool
group_eq (a, m, b) (c, n, d) = str_eq a c && (eqb m n && str_eq b d)

pub group_eq_iff : (g h : Group) → (group_eq g h ≡ true) ↔ (g ≡ h)
group_eq_iff (a, m, b) (c, n, d) = ground (arith, str_eq_iff a c, str_eq_iff b d)

instance abbrev pub group_is_eq : Key Group
group_is_eq = record { same = group_eq; same_iff = group_eq_iff }

unfoldable pub group_of : ℕ → AttWrite → Group
group_of prefix_len w = (opcode_name w.opcode, w.handle, hex (take prefix_len w.payload))

-- One turn of the loop of `collect`.
unfoldable pub add_write : ℕ → Option AttWrite → Dict Group ℕ → Dict Group ℕ
add_write prefix_len none groups = groups
add_write prefix_len (some w) groups =
    insert (group_of prefix_len w) (get_or (group_of prefix_len w) 0 groups + 1) groups

unfoldable pub collect_from : ℕ → List (ℕ × Bytes) → Dict Group ℕ → Dict Group ℕ
collect_from prefix_len [] groups = groups
collect_from prefix_len ((flags, packet) ∷ records) groups =
    collect_from prefix_len records (add_write prefix_len (parse_acl_att packet) groups)

-- `collect` on the bytes of the file.
unfoldable pub collect : ℕ → Bytes → Result (Dict Group ℕ)
collect prefix_len file = do records ← iter_records file; ok (collect_from prefix_len records [])

abbrev pub Row : Type 0
Row = ℕ × Group

-- `<=` on groups, and on rows of a count and a group.
unfoldable pub leb_group : Group → Group → Bool
leb_group (a, m, b) (x, n, y) =
    (leb_str a x && not (str_eq a x)) || (str_eq a x && (ltb m n || (eqb m n && leb_str b y)))

unfoldable pub leb_row : Row → Row → Bool
unfolding leb_group
leb_row (c, g) (d, h) = ltb c d || (eqb c d && leb_group g h)

unfoldable pub candidates : ℕ → Dict Group ℕ → List Row
candidates min_count [] = []
candidates min_count ((g, count) ∷ groups) =
    if leb min_count count
    then (count, g) ∷ candidates min_count groups
    else candidates min_count groups

leb_group_total : (g h : Group) → leb_group g h ≡ false → leb_group h g ≡ true
unfolding leb_group
leb_group_total (a, m, b) (x, n, y) h =
    ground (arith, h, leb_str_total a x, leb_str_total b y, str_eq_iff a x, str_eq_iff x a)

leb_group_trans :
    (g h i : Group) → leb_group g h ≡ true → leb_group h i ≡ true → leb_group g i ≡ true
unfolding leb_group
leb_group_trans (a, m, b) (x, n, y) (u, k, v) h i = ground (
  arith,
  h,
  i,
  leb_str_trans a x u,
  leb_str_trans b y v,
  leb_str_antisym a x,
  str_eq_iff a x,
  str_eq_iff x u,
  str_eq_iff a u,
)

pub leb_row_total : (r s : Row) → leb_row r s ≡ false → leb_row s r ≡ true
unfolding leb_row
leb_row_total (c, g) (d, h) e = ground (arith, e, leb_group_total g h)

pub leb_row_trans : (r s t : Row) → leb_row r s ≡ true → leb_row s t ≡ true → leb_row r t ≡ true
unfolding leb_row
leb_row_trans (c, g) (d, h) (e, i) l m = ground (arith, l, m, leb_group_trans g h i)

-- `rows.sort(reverse=True)`
abbrev pub falling : Order Row
falling = record {
  precedes = λ r s. leb_row s r;
  total = λ r s. leb_row_total s r;
  trans = λ r s t h k. leb_row_trans t s r k h;
}

-- The rows that `main` prints of a file, on its options; `value_error` is answered with the exit code 2.
unfoldable pub printed : ℕ → ℕ → ℕ → Bytes → Result (List Row)
printed prefix_len min_count top file = do
  groups ← collect prefix_len file
  ok (take top (sort falling (candidates min_count groups)))
