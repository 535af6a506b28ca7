-- ===== src/System/Provisioned.antt =====
-- A key pair from tools/keygen.py to the gateway, which reads the private half (gateway/signer.py), and to
-- the backend, where the public half is registered (backend/app.py).
mod Tests
use ble_usage_meter.Common.{
  suc, text, [], ◌∷◌, ◌≤◌, ltb, str_eq, ℕ, ◌≡◌, refl, sym, ap, subst, ◌∙◌, Str, Bytes, Bool, true,
  false, Option, none, some, Result, ok, err, All, length, eqb, not, str_is_eq, str_eq_iff,
  if◌then◌else◌, arith, ==-refl,
}
use ble_usage_meter.Common.Dict.{Dict, lookup, insert, lookup-insert}
use ble_usage_meter.Backend.Wire.{
  Json, string, Pydantic, valid, read_member, required, optional_label, parse_registration,
}
use ble_usage_meter.Common.BigEndian.{IsByte}
use ble_usage_meter.Common.Base64.{b64encode, b64decode, b64decode-b64encode}
use ble_usage_meter.Common.Ed25519.{Ed25519}
use ble_usage_meter.Gateway.Signer.{PrivateKey, ed25519, contains, placeholder, from_file}
use ble_usage_meter.Backend.Models.{DeviceRecord}
use ble_usage_meter.Backend.Db.{Database}
use ble_usage_meter.Backend.App.{
  Response, registered, RegisterDeviceRequest, new_device, add_device, register_decoded,
  register_device,
}
use ble_usage_meter.Tools.Keygen.{
  FilePath, path_is_eq, Entry, directory, file, Disk, Machine, owner_only, Outcome, written, keygen,
}
use ble_usage_meter.Tools.Keygen.Written.{IsWritten, keygen-IsSafe}

-- What a program reads of a path, `none` where there is no file.
abbrev pub content_of : Option Entry → Option Bytes
content_of none = none
content_of (some directory) = none
content_of (some (file content mode)) = some content

abbrev pub request : Str → Str → RegisterDeviceRequest
request device_id public_key = record {
  device_id = device_id;
  public_key = public_key;
  label = none;
}

-- The JSON object that keygen prints for the registration.
abbrev pub printed_object : Str → Str → Dict Str Json
printed_object device_id public_key =
    (text "device_id", string device_id) ∷ (text "public_key", string public_key) ∷ []

one_or_more : (n : ℕ) → ltb (suc n) 1 ≡ false
one_or_more n = ground arith

encoded-some : (bs : Bytes) → 1 ≤ length bs → ltb (length (b64encode bs)) 1 ≡ false
unfolding b64encode
encoded-some [] h = absurd (omega arith)
encoded-some (a ∷ []) h = refl
encoded-some (a ∷ b ∷ []) h = refl
encoded-some (a ∷ b ∷ c ∷ bs) h = one_or_more (suc (suc (suc (length (b64encode bs)))))

parse_registration-printed :
    (p : Pydantic) (device_id : Str) (key : Bytes)
    → ((s : Str) → p.read_str (string s) ≡ some s)
    → 1 ≤ length device_id
    → length device_id ≤ 128
    → 1 ≤ length key
    → parse_registration p (printed_object device_id (b64encode key))
      ≡ ok (request device_id (b64encode key))
unfolding parse_registration required read_member valid optional_label lookup str_eq
parse_registration-printed p device_id key reads lo hi size =
    rw (reads device_id, reads (b64encode key), short lo, long hi, encoded-some key size) refl
  where
    short : 1 ≤ length device_id → ltb (length device_id) 1 ≡ false
    short h = ground (arith, h)

    long : length device_id ≤ 128 → ltb 128 (length device_id) ≡ false
    long h = ground (arith, h)

register-key :
    (key : Bytes) (db : Database) (device_id now : Str)
    → All IsByte key
    → length key ≡ 32
    → lookup device_id db.devices ≡ none
    → register_device db (request device_id (b64encode key)) now
      ≡ (registered device_id, add_device db (request device_id (b64encode key)) now)
unfolding register_device register_decoded
register-key key db device_id now bytes size new =
    rw (b64decode-b64encode key bytes, size, new) refl

module _ (m : Machine) (scheme : Ed25519) (pem_of : Bytes → Bytes)
    (load_pem : Bytes → Result PrivateKey) where
  -- Where keygen prints a public key, the gateway reads the private half from the new file, and the
  -- backend reads the printed JSON object and takes its key for a device id of 1 to 128 characters that
  -- is not registered yet, as the key that verifies the gateway's signatures: if a key is loaded back
  -- from its PEM text, that is no placeholder, and pydantic reads a text as itself.
  pub key_pair_works :
      (p : Pydantic) (key : Bytes) (dest : FilePath) (force : Bool) (disk : Disk) (public_key : Str)
      (db : Database) (device_id now : Str)
      → ((s : Str) → p.read_str (string s) ≡ some s)
      → 1 ≤ length device_id
      → length device_id ≤ 128
      → load_pem (pem_of key) ≡ ok (ed25519 key)
      → contains placeholder (pem_of key) ≡ false
      → (keygen m scheme pem_of key dest force disk).0 ≡ written public_key
      → lookup device_id db.devices ≡ none
      → (from_file load_pem
            (content_of (lookup dest (keygen m scheme pem_of key dest force disk).1))
          ≡ ok key)
        × (parse_registration p (printed_object device_id public_key)
            ≡ ok (request device_id public_key))
        × (register_device db (request device_id public_key) now
            ≡ (registered device_id, add_device db (request device_id public_key) now))
        × ((d : DeviceRecord) × (lookup device_id
                (add_device db (request device_id public_key) now).devices
              ≡ some d)
            × (d.public_key ≡ b64encode (scheme.public_of key)))
  unfolding from_file add_device
  key_pair_works p key dest force disk public_key db device_id now reads lo hi loads real printed
        new =
      let (printed_key, there) =
        wrote (keygen m scheme pem_of key dest force disk)
          (keygen-IsSafe m scheme pem_of key dest force disk).1 printed in
      (
        rw (there, real, loads) refl,
        rw printed_key (
            parse_registration-printed p device_id (scheme.public_of key) reads lo hi
              (omega (arith, scheme.length-public_of key))),
        rw printed_key (
            register-key (scheme.public_of key) db device_id now (scheme.public_of-IsByte key)
              (scheme.length-public_of key) new),
        (
          new_device (request device_id public_key) now,
          lookup-insert device_id device_id (new_device (request device_id public_key) now)
                db.devices
              ∙ rw (==-refl device_id) refl,
          printed_key,
        ),
      )
    where
      wrote :
          (result : Outcome × Disk)
          → IsWritten m scheme pem_of key dest result
          → result.0 ≡ written public_key
          → (public_key ≡ b64encode (scheme.public_of key))
            × (lookup dest result.1 ≡ some (file (pem_of key) owner_only))
      wrote (o, d) w e = subst (λ x. IsWritten m scheme pem_of key dest (x, d)) e w
