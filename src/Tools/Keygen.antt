-- ===== src/Tools/Keygen.antt =====
-- tools/keygen.py: making a gateway's key pair, on the file system.
pub mod Safe
pub mod Written
pub mod Writes
mod Tests
use ble_usage_meter.Common.{
  ℕ, ◌*◌, ◌+◌, ◌≡◌, ◌↔◌, refl, arith, Str, Bytes, text, List, [], ◌∷◌, Bool, true, false, ◌&&◌, not,
  Option, none, some, Result, ok, err, os_error, ◌>>=◌, if◌then◌else◌, Key, str_eq, str_eq_iff,
  str_is_eq,
}
use ble_usage_meter.Common.Dict.{Dict, lookup, insert}
use ble_usage_meter.Common.Base64.{b64encode}
use ble_usage_meter.Common.Ed25519.{Ed25519}

-- An absolute path: its names from the last one up; the root has none.
abbrev pub FilePath : Type 0
FilePath = List Str

unfoldable pub path_eq : FilePath → FilePath → Bool
path_eq [] [] = true
path_eq [] (b ∷ q) = false
path_eq (a ∷ p) [] = false
path_eq (a ∷ p) (b ∷ q) = str_eq a b && path_eq p q

pub path_eq_iff : (p q : FilePath) → (path_eq p q ≡ true) ↔ (p ≡ q)
unfolding path_eq
path_eq_iff [] [] = ground arith
path_eq_iff [] (b ∷ q) = ground arith
path_eq_iff (a ∷ p) [] = ground arith
path_eq_iff (a ∷ p) (b ∷ q) = ground (arith, str_eq_iff a b, path_eq_iff p q)

instance abbrev pub path_is_eq : Key FilePath
path_is_eq = record { same = path_eq; same_iff = path_eq_iff }

-- What stands at a path: a directory, or a file with what it holds and its mode.
pub data Entry : Type 0 where
  directory : Entry
  file : Bytes → ℕ → Entry

-- The file system; the root is a directory that is not listed.
abbrev pub Disk : Type 0
Disk = Dict FilePath Entry

unfoldable pub entry_at : FilePath → Disk → Option Entry
entry_at [] disk = some directory
entry_at (name ∷ parent) disk = lookup (name ∷ parent) disk

abbrev pub is_some : Option Entry → Bool
is_some none = false
is_some (some e) = true

-- `path.exists()`
abbrev pub exists : FilePath → Disk → Bool
exists path disk = is_some (entry_at path disk)

abbrev pub parent_of : FilePath → FilePath
parent_of [] = []
parent_of (name ∷ parent) = parent

-- `path if path.is_dir() else path.parent`
abbrev pub directory_or_parent : Option Entry → FilePath → FilePath
directory_or_parent (some directory) path = path
directory_or_parent e path = parent_of path

-- The first of `[probe, *probe.parents]` that has a `.git`.
unfoldable pub walk_up : Disk → FilePath → Option FilePath
walk_up disk [] = if exists (text ".git" ∷ []) disk then some [] else none
walk_up disk (name ∷ parent) =
    let further = walk_up disk parent in
    if exists (text ".git" ∷ name ∷ parent) disk then some (name ∷ parent) else further

-- One directory of `mkdir`, from what is at its path and what came of the directories above.
unfoldable pub add_directory : FilePath → Option Entry → Disk → Result Disk → Result Disk
add_directory path (some directory) disk above = ok disk
add_directory path (some (file content mode)) disk above = err os_error
add_directory path none disk above = do disk' ← above; ok (insert path directory disk')

-- `path.mkdir(parents=True, exist_ok=True)`
unfoldable pub mkdir : FilePath → Disk → Result Disk
mkdir [] disk = ok disk
mkdir (name ∷ parent) disk =
    add_directory (name ∷ parent) (lookup (name ∷ parent) disk) disk (mkdir parent disk)

-- The mode `S_IRUSR | S_IWUSR`.
abbrev pub owner_only : ℕ
owner_only = 256 + 128

-- `write_private_key`: `O_EXCL` refuses a path where something is.
unfoldable pub write_private_key : Bytes → FilePath → Disk → Result Disk
write_private_key pem dest disk =
    if exists dest disk then err os_error else ok (insert dest (file pem owner_only) disk)

-- What the machine has: `resolve` takes the links and dots out of a path, and `git` is the top level
-- that `git rev-parse` answers for a directory, if it answers with one.
pub record Machine : Type 0 where
  pub resolve : FilePath → FilePath
  pub git : FilePath → Option FilePath

abbrev pub or_else : Option FilePath → Option FilePath → Option FilePath
or_else none other = other
or_else (some root) other = some root

module _ (m : Machine) where
  unfoldable pub in_git_worktree : FilePath → Disk → Option FilePath
  in_git_worktree path disk =
      let probe = m.resolve (directory_or_parent (entry_at path disk) path) in
      or_else (walk_up disk probe) (m.git probe)

-- What `main` comes to: an exit code of 2, an exit code of 0 with the public key that is printed, or an
-- `OSError`.
pub data Outcome : Type 0 where
  refused : Outcome
  written : Str → Outcome
  raised : Outcome

abbrev pub is_found : Option FilePath → Bool
is_found none = false
is_found (some root) = true

module _ (m : Machine) (scheme : Ed25519) (pem_of : Bytes → Bytes) where
  -- The end of `main`, from what `write_private_key` and `mkdir` came to, with the file system before.
  unfoldable pub print_pair : Bytes → Disk → Result Disk → Outcome × Disk
  print_pair key disk (err e) = (raised, disk)
  print_pair key disk (ok disk') = (written (b64encode (scheme.public_of key)), disk')

  unfoldable pub write_pair : Bytes → FilePath → Disk → Result Disk → Outcome × Disk
  write_pair key dest disk (err e) = (raised, disk)
  write_pair key dest disk (ok disk') =
      print_pair key disk' (write_private_key (pem_of key) dest disk')

  -- `main` on `--out`, with the home directory put in, and `--force`; `key` is what was generated.
  unfoldable pub keygen : Bytes → FilePath → Bool → Disk → Outcome × Disk
  keygen key dest force disk =
      if exists dest disk
      then (refused, disk)
      else if is_found (in_git_worktree m dest disk) && not force
      then (refused, disk)
      else write_pair key dest disk (mkdir (parent_of dest) disk)
