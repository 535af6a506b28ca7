-- ===== src/Gateway/Config/Settings.antt =====
-- gateway/config.py: the gateway's settings, as they are loaded from the parsed gateway.yaml.
pub mod Checked
use ble_usage_meter.Common.{
  ℕ, ◌+◌, ◌-◌, ◌*◌, Str, Bytes, text, List, [], ◌∷◌, Bool, true, false, ◌&&◌, ◌||◌, not, Option,
  none, some, Result, ok, err, value_error, config_error, type_error, ◌>>=◌, ◌>>◌, raise_if,
  if◌then◌else◌, leb, eqb, length, take, str_eq, str_is_eq,
}
use ble_usage_meter.Common.Int.{ℤ, pos, sub_ℕ, ltb_ℤ}
use ble_usage_meter.Common.Dict.{Dict, lookup}
use ble_usage_meter.Gateway.Config.{EventRule, Item, strip, is_nil, load_events}

-- What YAML makes of a scalar of gateway.yaml: a null, a text, an integer, a truth value, a float with
-- its `str` and its `int`, or what has a `str` and no `int`.
pub data Scalar : Type 0 where
  null : Scalar
  string : Str → Scalar
  integer : Str → ℤ → Scalar
  boolean : Bool → Scalar
  float : Str → ℤ → Scalar
  other : Str → Scalar

abbrev pub str_of : Scalar → Str
str_of null = text "None"
str_of (string s) = s
str_of (integer s n) = s
str_of (boolean true) = text "True"
str_of (boolean false) = text "False"
str_of (float s n) = s
str_of (other s) = s

abbrev pub is_digit : ℕ → Bool
is_digit c = leb b'0' c && leb c b'9'

-- The digits of `int`: single underscores may stand between two of them. The first argument says
-- whether a digit came before, the second is the value so far.
unfoldable pub read_digits : Bool → ℕ → Str → Option ℕ
read_digits before v [] = if before then some v else none
read_digits before v (c ∷ s) =
    let digit = read_digits true (v * 10 + (c - b'0')) s in
    let underscore = read_digits false v s in
    if is_digit c then digit else if before && eqb c b'_' then underscore else none

-- `int` of a text, in ASCII digits.
abbrev pub negated : Option ℕ → Result ℤ
negated none = err value_error
negated (some n) = ok (sub_ℕ 0 n)

abbrev pub unsigned : Option ℕ → Result ℤ
unsigned none = err value_error
unsigned (some n) = ok (pos n)

unfoldable pub int_of_text : Str → Result ℤ
int_of_text [] = err value_error
int_of_text (c ∷ s) =
    if eqb c b'-'
    then negated (read_digits false 0 s)
    else if eqb c b'+'
    then unsigned (read_digits false 0 s)
    else unsigned (read_digits false 0 (c ∷ s))

-- `int(…)`
unfoldable pub int_of : Scalar → Result ℤ
int_of null = err type_error
int_of (string s) = int_of_text (strip s)
int_of (integer s n) = ok n
int_of (boolean true) = ok (pos 1)
int_of (boolean false) = ok (pos 0)
int_of (float s n) = ok n
int_of (other s) = err type_error

-- What has to be there is there, or the configuration is refused.
abbrev pub given : Option Scalar → Result Scalar
given none = err config_error
given (some v) = ok v

-- `req(key)`
unfoldable pub req : Str → Dict Str Scalar → Result Scalar
req key doc = given (lookup key doc)

-- `int(doc.get(key, default))`
unfoldable pub get_int : Str → ℤ → Dict Str Scalar → Result ℤ
get_int key default doc = elim (lookup key doc) [ none ↦ ok default | some v ↦ int_of v ]

-- `str(doc.get(key, default))`
unfoldable pub get_str : Str → Str → Dict Str Scalar → Str
get_str key default doc = elim (lookup key doc) [ none ↦ default | some v ↦ str_of v ]

unfoldable pub starts_with : Str → Str → Bool
starts_with [] s = true
starts_with (c ∷ p) [] = false
starts_with (c ∷ p) (d ∷ s) = eqb c d && starts_with p s

abbrev pub is_http : Str → Bool
is_http endpoint = starts_with (text "http://") endpoint || starts_with (text "https://") endpoint

pub record GatewayConfig : Type 0 where
  pub meter_id : Str
  pub report_endpoint : Str
  pub report_interval_sec : ℤ
  pub db_path : Str
  pub private_key_path : Str
  pub retry_base_sec : ℤ
  pub retry_max_sec : ℤ
  pub retry_max_attempts : ℤ
  pub rules : List EventRule

-- `events_path or doc.get("events_file")`, where a null is as good as missing.
abbrev pub none_if_null : Option Scalar → Option Scalar
none_if_null (some null) = none
none_if_null v = v

unfoldable pub events_file_of : Option Str → Dict Str Scalar → Option Scalar
events_file_of none doc = none_if_null (lookup (text "events_file") doc)
events_file_of (some []) doc = none_if_null (lookup (text "events_file") doc)
events_file_of (some (c ∷ s)) doc = some (string (c ∷ s))

-- What the machine has: the path of a text with its home directory put in, and what stands under
-- `events` in a YAML file, `none` where that is no list.
pub record Machine : Type 0 where
  pub expanduser : Str → Str
  pub read_events : Str → Result (Option (List Item))

module _ (m : Machine) where
  -- `Path(…)` takes texts only.
  unfoldable pub load_events_file : Scalar → Result (List EventRule)
  load_events_file (string path) = do items ← m.read_events path; load_events items
  load_events_file v = err type_error

  -- `load_gateway` on the document, `{}` for an empty file, and the events file of the command line.
  unfoldable pub load_gateway : Dict Str Scalar → Option Str → Result GatewayConfig
  load_gateway doc events_path = do
    interval ← get_int (text "report_interval_sec") (pos 300) doc
    raise_if (ltb_ℤ interval (pos 10)) config_error
    key_path ← req (text "private_key_path") doc
    endpoint ← req (text "report_endpoint") doc
    raise_if (not (is_http (str_of endpoint))) config_error
    events_file ← given (events_file_of events_path doc)
    meter_id ← req (text "meter_id") doc
    retry_base_sec ← get_int (text "retry_base_sec") (pos 5) doc
    retry_max_sec ← get_int (text "retry_max_sec") (pos 600) doc
    retry_max_attempts ← get_int (text "retry_max_attempts") (pos 8) doc
    rules ← load_events_file events_file
    ok (record {
      meter_id = str_of meter_id;
      report_endpoint = str_of endpoint;
      report_interval_sec = interval;
      db_path = m.expanduser (get_str (text "db_path") (text "meter.sqlite3") doc);
      private_key_path = m.expanduser (str_of key_path);
      retry_base_sec = retry_base_sec;
      retry_max_sec = retry_max_sec;
      retry_max_attempts = retry_max_attempts;
      rules = rules;
    })
