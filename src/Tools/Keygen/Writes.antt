-- ===== src/Tools/Keygen/Writes.antt =====
-- tools/keygen.py: where a run writes a key.
use ble_usage_meter.Common.{
  ℕ, suc, ◌≡◌, ◌⊎◌, inl, inr, refl, ap, ◌∙◌, Bytes, [], ◌∷◌, Bool, true, false, not, ◌&&◌, Option,
  none, some, Result, ok, drop, arith,
}
use ble_usage_meter.Common.Dict.{lookup, insert}
use ble_usage_meter.Common.Base64.{b64encode}
use ble_usage_meter.Common.Ed25519.{Ed25519}
use ble_usage_meter.Tools.Keygen.{
  FilePath, path_is_eq, Entry, directory, file, Disk, entry_at, is_some, exists, parent_of,
  add_directory, mkdir, write_private_key, Machine, in_git_worktree, written, is_found, print_pair,
  write_pair, keygen,
}
use ble_usage_meter.Tools.Keygen.Written.{IsSafe, keygen-IsSafe}
use ble_usage_meter.Tools.Keygen.Safe.{mkdir-deeper}

-- No file stands at the path or above it.
abbrev pub IsFree : FilePath → Disk → Type 0
IsFree path disk =
    (k : ℕ) (content : Bytes) (mode : ℕ) → lookup (drop k path) disk ≡ some (file content mode) → ⊥

add_directory-ok :
    (path : FilePath) (o : Option Entry) (disk : Disk) (above : Result Disk)
    → ((content : Bytes) (mode : ℕ) → o ≡ some (file content mode) → ⊥)
    → (d : Disk) × (above ≡ ok d)
    → (d : Disk) × (add_directory path o disk above ≡ ok d)
unfolding add_directory
add_directory-ok path (some directory) disk above free made = (disk, refl)
add_directory-ok path (some (file content mode)) disk above free made =
    absurd (free content mode refl)
add_directory-ok path none disk above free (d, e) = (insert path directory d, rw e refl)

mkdir-ok :
    (path : FilePath) (disk : Disk) → IsFree path disk → (d : Disk) × (mkdir path disk ≡ ok d)
unfolding mkdir
mkdir-ok [] disk free = (disk, refl)
mkdir-ok (name ∷ parent) disk free =
    add_directory-ok (name ∷ parent) (lookup (name ∷ parent) disk) disk (mkdir parent disk) (free 0)
      (mkdir-ok parent disk (λ k. free (suc k)))

-- The directories that are made leave the key's path free.
still_absent :
    (dest : FilePath) (disk d : Disk)
    → exists dest disk ≡ false
    → mkdir (parent_of dest) disk ≡ ok d
    → exists dest d ≡ false
unfolding entry_at
still_absent [] disk d new made = absurd (cc)
still_absent (name ∷ parent) disk d new made =
    ap is_some (mkdir-deeper parent (name ∷ parent) disk d (omega arith) made) ∙ new

unguarded :
    (force : Bool) (root : Option FilePath)
    → (force ≡ true) ⊎ (root ≡ none)
    → (is_found root && not force) ≡ false
unguarded force none may = refl
unguarded true (some root) may = refl
unguarded false (some root) (inl forced) = absurd (cc)
unguarded false (some root) (inr no_root) = absurd (cc)

module _ (m : Machine) (scheme : Ed25519) (pem_of : Bytes → Bytes) (key : Bytes)
    (dest : FilePath) where
  write_pair-written :
      (disk d : Disk)
      → exists dest disk ≡ false
      → mkdir (parent_of dest) disk ≡ ok d
      → (write_pair m scheme pem_of key dest disk (mkdir (parent_of dest) disk)).0
        ≡ written (b64encode (scheme.public_of key))
  unfolding write_pair write_private_key print_pair
  write_pair-written disk d new made = rw (made, still_absent dest disk d new made) refl

  keygen_writes :
      (force : Bool) (disk : Disk)
      → exists dest disk ≡ false
      → IsFree (parent_of dest) disk
      → (force ≡ true) ⊎ (in_git_worktree m dest disk ≡ none)
      → (keygen m scheme pem_of key dest force disk).0 ≡ written (b64encode (scheme.public_of key))
  unfolding keygen
  keygen_writes force disk new free may =
      let (d, made) = mkdir-ok (parent_of dest) disk free in
      let unguarded_here : (is_found (in_git_worktree m dest disk) && not force) ≡ false =
        unguarded force (in_git_worktree m dest disk) may in
      rw (new, unguarded_here) (write_pair-written disk d new made)

  -- Nothing that is on the disk is changed or taken away. Where a key is printed, its private half is in
  -- the new file, for the owner alone; there was nothing at the path; and unless it was forced, no
  -- directory on the way up to the root holds a `.git`, and git knows of no work tree there. And a key
  -- is printed where nothing is at the path, no file stands where a directory is wanted, and no work
  -- tree is found or it is forced.
  pub keygen_lem :
      (force : Bool) (disk : Disk)
      → let result = keygen m scheme pem_of key dest force disk in
        IsSafe m scheme pem_of key dest force disk result
        × (exists dest disk ≡ false
            → IsFree (parent_of dest) disk
            → (force ≡ true) ⊎ (in_git_worktree m dest disk ≡ none)
            → result.0 ≡ written (b64encode (scheme.public_of key)))
  keygen_lem force disk =
      (keygen-IsSafe m scheme pem_of key dest force disk, keygen_writes force disk)
