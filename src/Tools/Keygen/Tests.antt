-- ===== src/Tools/Keygen/Tests.antt =====
-- A key that is written outside any work tree, on a disk with one directory.
use ble_usage_meter.Common.{◌⊎◌, true, Bytes, text, [], ◌∷◌, false, none, ◌≡◌, refl, str_eq}
use ble_usage_meter.Common.Dict.{lookup, insert}
use ble_usage_meter.Common.Base64.{b64encode}
use ble_usage_meter.Common.Ed25519.{toy}
use ble_usage_meter.Tools.Keygen.{
  FilePath, exists, parent_of, path_eq, Disk, directory, entry_at, walk_up, add_directory, mkdir,
  write_private_key, Machine, in_git_worktree, written, print_pair, write_pair, keygen,
}
use ble_usage_meter.Tools.Keygen.Written.{IsSafe}
use ble_usage_meter.Tools.Keygen.Writes.{IsFree, keygen_lem}

abbrev machine : Machine
machine = record { resolve = λ path. path; git = λ path. none }

abbrev pem_of : Bytes → Bytes
pem_of key = key

abbrev dest : FilePath
dest = text "gateway.key" ∷ text "meter" ∷ text "etc" ∷ []

abbrev disk : Disk
disk = (text "etc" ∷ [], directory) ∷ []

keygen_lem_example :
    let result = keygen machine toy pem_of (7 ∷ []) dest false disk in
    IsSafe machine toy pem_of (7 ∷ []) dest false disk result
    × (exists dest disk ≡ false
        → IsFree (parent_of dest) disk
        → (false ≡ true) ⊎ (in_git_worktree machine dest disk ≡ none)
        → result.0 ≡ written (b64encode (toy.public_of (7 ∷ []))))
keygen_lem_example = keygen_lem machine toy pem_of (7 ∷ []) dest false disk

is_written :
    (keygen machine toy pem_of (7 ∷ []) dest false disk).0
    ≡ written (b64encode (toy.public_of (7 ∷ [])))
unfolding keygen in_git_worktree walk_up entry_at lookup path_eq str_eq write_pair mkdir
    add_directory insert print_pair write_private_key
is_written = refl
