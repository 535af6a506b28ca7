-- ===== src/Gateway/Config.antt =====
-- gateway/config.py: the event rules, as they are loaded from the parsed events.yaml.
pub mod Valid
pub mod Uuid
pub mod Settings
mod Tests
use ble_usage_meter.Common.{
  ℕ, suc, ◌+◌, ◌-◌, ◌*◌, ◌%◌, Str, Bytes, text, List, [], ◌∷◌, ◌++◌, Bool, true, false, not, ◌&&◌,
  ◌||◌, Option, none, some, Result, ok, err, config_error, ◌>>=◌, ◌>>◌, raise_if, if◌then◌else◌,
  length, drop, take, eqb, leb, lower, str_eq, ◌==◌, str_is_eq, triple_is_eq,
}
use ble_usage_meter.Common.Dict.{Dict, lookup}

-- What YAML makes of a scalar: a text, a null, bytes with their `str`, or another value with its `str`.
pub data Value : Type 0 where
  null : Value
  string : Str → Value
  binary : Bytes → Str → Value
  other : Str → Value

abbrev pub str_of : Value → Str
str_of null = text "None"
str_of (string s) = s
str_of (binary bs s) = s
str_of (other s) = s

-- The white space that `str.strip` takes off.
unfoldable pub is_space : ℕ → Bool
is_space c =
    (leb 9 c && leb c 13)
    || ((leb 28 c && leb c 32)
        || (eqb c 133
            || (eqb c 160
                || (eqb c 5760
                    || ((leb 8192 c && leb c 8202)
                        || (eqb c 8232
                            || (eqb c 8233 || (eqb c 8239 || (eqb c 8287 || eqb c 12288)))))))))

unfoldable pub lstrip : Str → Str
lstrip [] = []
lstrip (c ∷ s) = if is_space c then lstrip s else c ∷ s

abbrev pub is_nil : Str → Bool
is_nil [] = true
is_nil (c ∷ s) = false

unfoldable pub rstrip : Str → Str
rstrip [] = []
rstrip (c ∷ s) = let rest = rstrip s in if is_nil rest && is_space c then [] else c ∷ rest

abbrev pub strip : Str → Str
strip s = rstrip (lstrip s)

-- `c in _HEX`
abbrev pub is_hex : ℕ → Bool
is_hex c = (leb b'0' c && leb c b'9') || (leb b'a' c && leb c b'f')

unfoldable pub all_chars : (ℕ → Bool) → Str → Bool
all_chars test [] = true
all_chars test (c ∷ s) = test c && all_chars test s

unfoldable pub count_char : ℕ → Str → ℕ
count_char d [] = 0
count_char d (c ∷ s) = (if eqb c d then 1 else 0) + count_char d s

abbrev pub is_uuid_char : ℕ → Bool
is_uuid_char c = is_hex c || eqb c b'-'

unfoldable pub base_uuid : Str
base_uuid = text "-0000-1000-8000-00805f9b34fb"

-- The cases of `_normalise_uuid` on the stripped and lowered text.
unfoldable pub full_uuid : Str → Result Str
full_uuid s =
    if eqb (length s) 4 && all_chars is_hex s
    then ok (text "0000" ++ (s ++ base_uuid))
    else if eqb (length s) 8 && all_chars is_hex s
    then ok (s ++ base_uuid)
    else if not (eqb (length s) 36) || not (eqb (count_char b'-' s) 4)
    then err config_error
    else if not (all_chars is_uuid_char s)
    then err config_error
    else ok s

unfoldable pub normalise_uuid : Str → Result Str
normalise_uuid raw = full_uuid (lower (strip raw))

-- `replace(" ", "").replace(":", "")`
unfoldable pub without : ℕ → Str → Str
without d [] = []
without d (c ∷ s) = if eqb c d then without d s else c ∷ without d s

unfoldable pub drop_0x : Str → Str
drop_0x s = if str_eq (take 2 s) (b'0' ∷ b'x' ∷ []) then drop 2 s else s

-- The value of a lower-case hexadecimal digit.
abbrev pub hex_value : ℕ → ℕ
hex_value c = if leb c b'9' then c - 48 else c - 87

-- `bytes.fromhex`, on an even number of digits.
unfoldable pub from_hex : Str → Bytes
from_hex (h ∷ l ∷ s) = (hex_value h * 16 + hex_value l) ∷ from_hex s
from_hex _ = []

unfoldable pub parse_hex : Str → Result Bytes
parse_hex raw =
    let s = drop_0x (lower (without b':' (without b' ' raw))) in
    if not (eqb (length s % 2) 0) || not (all_chars is_hex s)
    then err config_error
    else ok (from_hex s)

-- `_parse_prefix`; a missing key is `None`.
unfoldable pub parse_prefix : Option Value → Result Bytes
parse_prefix none = ok []
parse_prefix (some null) = ok []
parse_prefix (some (string [])) = ok []
parse_prefix (some (string (c ∷ s))) = parse_hex (c ∷ s)
parse_prefix (some (binary bs s)) = ok bs
parse_prefix (some (other s)) = parse_hex s

pub record EventRule : Type 0 where
  pub service : Str
  pub characteristic : Str
  pub prefix : Bytes
  pub event : Str

-- An item of the list `events`.
pub data Item : Type 0 where
  mapping : Dict Str Value → Item
  no_mapping : Item

-- `item[key]`, whose `KeyError` becomes a `ConfigError`.
unfoldable pub required : Str → Dict Str Value → Result Str
required key item = elim (lookup key item) [ none ↦ err config_error | some v ↦ ok (str_of v) ]

-- One item, but for the test for duplicates.
unfoldable pub rule_of : Item → Result EventRule
rule_of no_mapping = err config_error
rule_of (mapping item) = do
  raw_service ← required (text "service") item
  service ← normalise_uuid raw_service
  raw_characteristic ← required (text "characteristic") item
  characteristic ← normalise_uuid raw_characteristic
  raw_name ← required (text "event") item
  raise_if (is_nil (strip raw_name)) config_error
  prefix ← parse_prefix (lookup (text "prefix") item)
  ok (record {
    service = service;
    characteristic = characteristic;
    prefix = prefix;
    event = strip raw_name;
  })

abbrev pub triple_of : EventRule → Str × Str × Bytes
triple_of r = (r.service, r.characteristic, r.prefix)

-- `key in seen`; `seen` holds the triples of the rules so far.
unfoldable pub is_seen : Str × Str × Bytes → List EventRule → Bool
is_seen key [] = false
is_seen key (r ∷ rules) = (triple_of r == key) || is_seen key rules

-- The loop, with the rules so far, the last one first.
unfoldable pub load_items : List Item → List EventRule → Result (List EventRule)
load_items [] rules = ok []
load_items (item ∷ items) rules = do
  r ← rule_of item
  raise_if (is_seen (triple_of r) rules) config_error
  rest ← load_items items (r ∷ rules)
  ok (r ∷ rest)

-- `load_events` on what `doc.get("events")` gives: `none` where that is no list.
unfoldable pub load_events : Option (List Item) → Result (List EventRule)
load_events none = err config_error
load_events (some []) = err config_error
load_events (some (item ∷ items)) = load_items (item ∷ items) []
