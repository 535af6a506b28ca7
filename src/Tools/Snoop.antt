-- ===== src/Tools/Snoop.antt =====
-- tools/parse_snoop.py: the records of a btsnoop file, and the ATT writes in them.
pub mod Records
pub mod Writes
pub mod Ends
pub mod Groups
pub mod Counts
pub mod Rows
pub mod Prefix
mod Tests
use ble_usage_meter.Common.{
  ℕ, zero, suc, ◌+◌, ◌*◌, ◌/◌, ◌%◌, Str, Bytes, text, List, [], ◌∷◌, ◌++◌, Bool, true, false, not,
  ◌&&◌, ◌||◌, Option, none, some, Result, ok, err, value_error, length, take, drop, ltb, leb, eqb,
  str_eq, if◌then◌else◌, str_is_eq,
}
use ble_usage_meter.Common.BigEndian.{read_big_endian}

unfoldable pub btsnoop_magic : Bytes
btsnoop_magic = text "btsnoop" ++ 0 ∷ []

-- The loop on what is left of the file. The first number bounds its turns, of which each takes at
-- least the 24 bytes of a record's header.
unfoldable pub records_from : ℕ → Bytes → List (ℕ × Bytes)
records_from zero rest = []
records_from (suc turns) rest =
    let included = read_big_endian (take 4 (drop 4 rest)) in
    let flags = read_big_endian (take 4 (drop 8 rest)) in
    let body = drop 24 rest in
    let later = records_from turns (drop included body) in
    if ltb (length rest) 24 || ltb (length body) included
    then []
    else (flags, take included body) ∷ later

unfoldable pub iter_records : Bytes → Result (List (ℕ × Bytes))
iter_records file =
    if str_eq (take 8 file) btsnoop_magic
    then ok (records_from (length file) (drop 16 file))
    else err value_error

-- `int.from_bytes(…, "little")` of two bytes or fewer.
abbrev pub little : Bytes → ℕ
little [] = 0
little (a ∷ []) = a
little (a ∷ b ∷ bs) = a + b * 256

pub data Opcode : Type 0 where
  write_req write_cmd prepare_write_req signed_write_cmd : Opcode

-- `WRITE_OPCODES.get(opcode)`
unfoldable pub opcode_of : ℕ → Option Opcode
opcode_of n =
    if eqb n 0x12
    then some write_req
    else if eqb n 0x52
    then some write_cmd
    else if eqb n 0x16
    then some prepare_write_req
    else if eqb n 0xd2
    then some signed_write_cmd
    else none

pub record AttWrite : Type 0 where
  pub opcode : Opcode
  pub handle : ℕ
  pub payload : Bytes

-- The payload behind the opcode and the handle; a prepared write starts with an offset.
unfoldable pub payload_of : Opcode → Bytes → Bytes
payload_of prepare_write_req (a ∷ b ∷ bs) = bs
payload_of o bs = bs

unfoldable pub att_write : Option Opcode → ℕ → Bytes → Option AttWrite
att_write none handle payload = none
att_write (some o) handle payload =
    some (record { opcode = o; handle = handle; payload = payload_of o payload })

unfoldable pub parse_att : Bytes → Option AttWrite
parse_att (opcode ∷ a ∷ b ∷ payload) = att_write (opcode_of opcode) (little (a ∷ b ∷ [])) payload
parse_att _ = none

-- The L2CAP frame: its length, its channel, and the ATT value.
unfoldable pub parse_l2cap : Bytes → Option AttWrite
parse_l2cap (a ∷ b ∷ c ∷ d ∷ value) =
    if eqb (little (c ∷ d ∷ [])) 4 then parse_att (take (little (a ∷ b ∷ [])) value) else none
parse_l2cap _ = none

unfoldable pub parse_acl_att : Bytes → Option AttWrite
parse_acl_att (h4 ∷ a ∷ b ∷ c ∷ d ∷ frame) =
    if ltb (length frame) 4 || (not (eqb h4 2) || not (eqb (little (a ∷ b ∷ []) / 4096 % 4) 2))
    then none
    else parse_l2cap (take (little (c ∷ d ∷ [])) frame)
parse_acl_att _ = none
