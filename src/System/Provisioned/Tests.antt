-- ===== src/System/Provisioned/Tests.antt =====
-- A key pair of a new gateway, at a backend that knows another device.
use ble_usage_meter.Common.{
  Option, Str, Bytes, text, [], ◌∷◌, none, some, false, Result, ok, ◌≡◌, refl, str_eq, str_is_eq,
  arith,
}
use ble_usage_meter.Common.Dict.{lookup, insert}
use ble_usage_meter.Common.Base64.{b64encode}
use ble_usage_meter.Common.Ed25519.{toy}
use ble_usage_meter.Gateway.Signer.{PrivateKey, ed25519, begins, contains, placeholder, from_file}
use ble_usage_meter.Backend.Models.{DeviceRecord, DateTime}
use ble_usage_meter.Backend.App.{registered, add_device, register_device}
use ble_usage_meter.Backend.Example.{db, private_key}
use ble_usage_meter.Tools.Keygen.{
  FilePath, path_is_eq, path_eq, Disk, directory, entry_at, walk_up, add_directory, mkdir,
  write_private_key, Machine, in_git_worktree, written, print_pair, write_pair, keygen,
}
use ble_usage_meter.Common.Int.{ℤ}
use ble_usage_meter.Backend.Wire.{Json, string, Pydantic, parse_registration}
use ble_usage_meter.System.Provisioned.{printed_object, content_of, request, key_pair_works}

abbrev machine : Machine
machine = record { resolve = λ path. path; git = λ path. none }

-- A PEM text that is the key's bytes.
abbrev pem_of : Bytes → Bytes
pem_of key = key

abbrev load_pem : Bytes → Result PrivateKey
load_pem content = ok (ed25519 content)

abbrev dest : FilePath
dest = text "gateway.key" ∷ text "etc" ∷ []

abbrev disk : Disk
disk = (text "etc" ∷ [], directory) ∷ []

abbrev public_key : Str
public_key = b64encode (toy.public_of private_key)

is_printed : (keygen machine toy pem_of private_key dest false disk).0 ≡ written public_key
unfolding keygen in_git_worktree walk_up entry_at lookup path_eq str_eq write_pair mkdir
    add_directory insert print_pair write_private_key
is_printed = refl

is_real : contains placeholder private_key ≡ false
unfolding contains begins
is_real = refl

is_new : lookup (text "gateway-2") db.devices ≡ none
unfolding lookup str_eq
is_new = refl

abbrev text_of : Json → Option Str
text_of (string s) = some s
text_of v = none

abbrev no_int : Json → Option ℤ
no_int v = none

abbrev no_datetime : Json → Option DateTime
no_datetime v = none

abbrev plain : Pydantic
plain = record { read_str = text_of; read_int = no_int; read_datetime = no_datetime }

key_pair_works_example :
    (from_file load_pem
        (content_of (lookup dest (keygen machine toy pem_of private_key dest false disk).1))
      ≡ ok private_key)
    × (parse_registration plain (printed_object (text "gateway-2") public_key)
        ≡ ok (request (text "gateway-2") public_key))
    × (register_device db (request (text "gateway-2") public_key) (text "now") ≡ (
      registered (text "gateway-2"),
      add_device db (request (text "gateway-2") public_key) (text "now"),
    ))
    × ((d : DeviceRecord) × (lookup
            (text "gateway-2")
            (add_device db (request (text "gateway-2") public_key) (text "now")).devices
          ≡ some d)
        × (d.public_key ≡ b64encode (toy.public_of private_key)))
key_pair_works_example =
    key_pair_works machine toy pem_of load_pem plain private_key dest false disk public_key db
      (text "gateway-2") (text "now") (λ s. refl) (omega arith) (omega arith) refl is_real
      is_printed is_new
