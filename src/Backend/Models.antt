-- ===== src/Backend/Models.antt =====
-- backend/models.py: the wire shapes of a report, its validation, and the bytes that are verified.
pub mod Agreement
mod Tests
use ble_usage_meter.Common.{
  ℕ, ◌+◌, ◌-◌, ◌/◌, ◌%◌, ◌*◌, ◌≡◌, refl, Str, Bytes, text, List, [], ◌∷◌, ◌++◌, Bool, true, false,
  Option, none, some, Result, ok, err, value_error, overflow_error, type_error, ◌>>=◌, ◌>>◌,
  raise_if, length, ltb, leb, ◌||◌, if◌then◌else◌,
}
use ble_usage_meter.Common.Int.{ℤ, pos, negsuc, sub_ℕ, ◌-ℤ◌, ltb_ℤ, leb_ℤ}
use ble_usage_meter.Common.BigEndian.{pack_int}
use ble_usage_meter.Common.Utf8.{utf8}

unfoldable pub canonical_domain : Bytes
canonical_domain = text "ble-usage-meter/report/v1"

abbrev pub canonical_format_version : ℕ
canonical_format_version = 1

-- A `datetime`: the microseconds of its wall clock since 1970-01-01T00:00:00 on that clock, and the
-- offset of its zone from UTC, in microseconds, which a naive one lacks.
pub record DateTime : Type 0 where
  pub wall : ℤ
  pub utcoffset : Option ℤ

-- The years 1 to 9999, outside which date arithmetic raises `OverflowError`.
abbrev pub min_wall : ℤ
min_wall = negsuc 62135596799999999

abbrev pub max_wall : ℤ
max_wall = pos 253402300799999999

-- `value.replace(tzinfo=utc)` for a naive value, then `astimezone(utc)`.
unfoldable pub to_utc : DateTime → Result ℤ
to_utc d = elim d.utcoffset [
  | none ↦ ok d.wall
  | some offset ↦
      let utc = d.wall -ℤ offset in
      if ltb_ℤ utc min_wall || ltb_ℤ max_wall utc then err overflow_error else ok utc
]

-- `timestamp` is a float of 53 bits: from 2^34 seconds on, the last microseconds of a second are nearer to
-- the next one than to any other float. How many, for seconds with no more than 38 bits, which all
-- years up to 9999 have.
unfoldable pub rounded_up : ℕ → ℕ
rounded_up seconds =
    if ltb seconds 17179869184
    then 0
    else if ltb seconds 34359738368
    then 1
    else if ltb seconds 68719476736
    then 3
    else if ltb seconds 137438953472
    then 7
    else 15

-- `int(…)` of a number of microseconds as a float of seconds.
unfoldable pub float_seconds : ℕ → ℕ
unfolding rounded_up
float_seconds n =
    if leb (1000000 - n % 1000000) (rounded_up (n / 1000000)) then n / 1000000 + 1 else n / 1000000

-- `int(…)` of the seconds of a time in microseconds: it cuts towards zero.
unfoldable pub whole_seconds : ℤ → ℤ
unfolding float_seconds
whole_seconds (pos n) = pos (float_seconds n)
whole_seconds (negsuc n) = sub_ℕ 0 (float_seconds (n + 1))

unfoldable pub canonical_unix_seconds : DateTime → Result ℤ
canonical_unix_seconds value = do utc ← to_utc value; ok (whole_seconds utc)

-- `int.to_bytes` raises `OverflowError` for an integer that does not fit.
unfoldable pub canonical_message : Str → ℤ → ℤ → DateTime → DateTime → Result Bytes
canonical_message device_id count sequence window_start window_end = do
  did ← utf8 device_id
  raise_if (ltb 0xffff (length did)) value_error
  size ← pack_int overflow_error 2 (pos (length did))
  c ← pack_int overflow_error 8 count
  s ← pack_int overflow_error 8 sequence
  start ← canonical_unix_seconds window_start
  a ← pack_int overflow_error 8 start
  end ← canonical_unix_seconds window_end
  b ← pack_int overflow_error 8 end
  ok (canonical_domain ++ canonical_format_version ∷ [] ++ size ++ did ++ c ++ s ++ a ++ b)

pub record UsageReport : Type 0 where
  pub device_id : Str
  pub count : ℤ
  pub sequence : ℤ
  pub window_start : DateTime
  pub window_end : DateTime
  pub signature : Str

-- `a < b` on datetimes: a naive and an aware one cannot be compared.
unfoldable pub before : DateTime → DateTime → Result Bool
before a b = elim a.utcoffset [
  | none ↦ elim b.utcoffset [ none ↦ ok (ltb_ℤ a.wall b.wall) | some q ↦ err type_error ]
  | some p ↦ elim b.utcoffset [
    | none ↦ err type_error
    | some q ↦ ok (ltb_ℤ (a.wall -ℤ p) (b.wall -ℤ q))
  ]
]

-- The model's validation of decoded values; `value_error` is a request that is refused as invalid.
unfoldable pub validate : UsageReport → Result UsageReport
validate r = do
  unordered ← before r.window_end r.window_start
  raise_if
      (unordered
        || (ltb (length r.device_id) 1
            || (ltb 128 (length r.device_id)
                || (ltb_ℤ r.count (pos 0)
                    || (ltb_ℤ r.sequence (pos 0) || ltb (length r.signature) 1)))))
      value_error
  ok r

-- `UsageReport.canonical_bytes`
unfoldable pub canonical_bytes : UsageReport → Result Bytes
canonical_bytes r = canonical_message r.device_id r.count r.sequence r.window_start r.window_end

-- `DeviceRecord` and the row of the table `devices` that it mirrors.
pub record DeviceRecord : Type 0 where
  pub public_key : Str
  pub label : Option Str
  pub registered_at : Str
  pub last_accepted_sequence : ℤ
  pub last_accepted_count : ℤ
