-- ===== src/Gateway/Signer.antt =====
-- gateway/signer.py: the canonical bytes of a report, and signatures over them.
pub mod RoundTrip
mod Tests
use ble_usage_meter.Common.{
  ℕ, Str, Bytes, text, List, [], ◌∷◌, ◌++◌, Bool, true, false, Result, ok, err, value_error,
  struct_error, type_error, missing_file, Option, none, some, ◌&&◌, ◌||◌, eqb, ◌>>=◌, ◌>>◌,
  raise_if, length, ltb,
}
use ble_usage_meter.Common.Int.{ℤ, pos}
use ble_usage_meter.Common.BigEndian.{pack_int, pack_four}
use ble_usage_meter.Common.Utf8.{utf8}
use ble_usage_meter.Common.Ed25519.{Ed25519}

unfoldable pub domain : Bytes
domain = text "ble-usage-meter/report/v1"

abbrev pub format_version : ℕ
format_version = 1

pub record ReportTuple : Type 0 where
  pub device_id : Str
  pub count : ℤ
  pub sequence : ℤ
  pub window_start : ℤ
  pub window_end : ℤ

-- `struct.pack(">QQQQ", …)` raises `struct.error` for an integer outside 64 unsigned bits.
unfoldable pub canonical_bytes : ReportTuple → Result Bytes
canonical_bytes r = do
  dev ← utf8 r.device_id
  raise_if (ltb 0xffff (length dev)) value_error
  size ← pack_int struct_error 2 (pos (length dev))
  words ← pack_four r.count r.sequence r.window_start r.window_end
  ok (domain ++ (format_version ∷ [] ++ (size ++ (dev ++ words))))

module _ (scheme : Ed25519) where
  -- `Signer.sign`, with the signer's private key.
  unfoldable pub sign : Bytes → ReportTuple → Result Bytes
  sign key r = do message ← canonical_bytes r; ok (scheme.sign key message)

  -- `verify`: every exception counts as a refusal, except those of loading the key.
  abbrev accepted_by : Bytes → Bytes → Result Bytes → Bool
  accepted_by public_key signature (ok message) = scheme.accepts public_key signature message
  accepted_by public_key signature (err e) = false

  unfoldable pub verify : Bytes → ReportTuple → Bytes → Bool
  verify public_key r signature = accepted_by public_key signature (canonical_bytes r)

-- A private key of a PEM file.
pub data PrivateKey : Type 0 where
  ed25519 : Bytes → PrivateKey
  other_key : PrivateKey

abbrev pub only_ed25519 : PrivateKey → Result Bytes
only_ed25519 (ed25519 key) = ok key
only_ed25519 other_key = err type_error

unfoldable pub begins : Bytes → Bytes → Bool
begins [] bs = true
begins (a ∷ rest) [] = false
begins (a ∷ rest) (b ∷ bs) = eqb a b && begins rest bs

-- `part in whole`
unfoldable pub contains : Bytes → Bytes → Bool
contains part [] = begins part []
contains part (b ∷ bs) = begins part (b ∷ bs) || contains part bs

abbrev pub placeholder : Bytes
placeholder = text "REPLACE_ME"

-- `Signer.from_file` on what the file holds, `none` where there is none; `load_pem` is
-- `load_pem_private_key` without a password.
unfoldable pub from_file : (Bytes → Result PrivateKey) → Option Bytes → Result Bytes
from_file load_pem none = err missing_file
from_file load_pem (some content) = do
  raise_if (contains placeholder content) value_error
  key ← load_pem content
  only_ed25519 key
