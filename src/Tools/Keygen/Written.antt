-- ===== src/Tools/Keygen/Written.antt =====
-- tools/keygen.py: what a run does to the file system.
use ble_usage_meter.Common.{
  ℕ, ◌≡◌, ◌⊎◌, inl, inr, refl, Str, Bytes, text, ◌∷◌, Bool, true, false, not, ◌&&◌, Option, none,
  some, Result, ok, err, if◌then◌else◌, drop,
}
use ble_usage_meter.Common.Dict.{lookup}
use ble_usage_meter.Common.Base64.{b64encode}
use ble_usage_meter.Common.Ed25519.{Ed25519}
use ble_usage_meter.Tools.Keygen.{
  FilePath, path_is_eq, file, Disk, entry_at, exists, parent_of, directory_or_parent, walk_up,
  mkdir, owner_only, write_private_key, Machine, or_else, in_git_worktree, Outcome, refused,
  written, is_found, print_pair, write_pair, keygen,
}
use ble_usage_meter.Tools.Keygen.Safe.{Keeps, mkdir-Keeps, write_private_key-Keeps, walk_up-none}

both-none : (a b : Option FilePath) → is_found (or_else a b) ≡ false → (a ≡ none) × (b ≡ none)
both-none none none h = (refl, refl)
both-none none (some root) h = absurd (cc)
both-none (some root) b h = absurd (cc)

module _ (m : Machine) (scheme : Ed25519) (pem_of : Bytes → Bytes) (key : Bytes)
    (dest : FilePath) where
  -- The directory from which a work tree is looked for.
  abbrev pub probe : Disk → FilePath
  probe disk = m.resolve (directory_or_parent (entry_at dest disk) dest)

  -- The key's file is there, for its owner alone, and its public half is what is printed.
  abbrev pub IsWritten : Outcome × Disk → Type 0
  IsWritten (written public_key, disk') =
      (public_key ≡ b64encode (scheme.public_of key))
      × (lookup dest disk' ≡ some (file (pem_of key) owner_only))
  IsWritten (o, disk') = Unit

  print_pair-Keeps :
      (disk : Disk) (w : Result Disk)
      → write_private_key (pem_of key) dest disk ≡ w
      → Keeps disk (print_pair m scheme pem_of key disk w).1
        × IsWritten (print_pair m scheme pem_of key disk w)
  unfolding print_pair
  print_pair-Keeps disk (err e) h = (λ at f found. found, tt)
  print_pair-Keeps disk (ok disk') h =
      let (kept, there) = write_private_key-Keeps (pem_of key) dest disk disk' h in
      (kept, (refl, there))

  write_pair-Keeps :
      (disk : Disk) (made : Result Disk)
      → mkdir (parent_of dest) disk ≡ made
      → Keeps disk (write_pair m scheme pem_of key dest disk made).1
        × IsWritten (write_pair m scheme pem_of key dest disk made)
  unfolding write_pair
  write_pair-Keeps disk (err e) h = (λ at f found. found, tt)
  write_pair-Keeps disk (ok disk') h =
      let (kept, wrote) = print_pair-Keeps disk' (write_private_key (pem_of key) dest disk') refl in
      (λ at f found. kept at f (mkdir-Keeps (parent_of dest) disk disk' h at f found), wrote)

  -- Outside a work tree: no directory from the probe up has a `.git`, and git knows of none.
  abbrev pub IsOutside : Disk → Type 0
  IsOutside disk =
      ((k : ℕ) → exists (text ".git" ∷ drop k (probe disk)) disk ≡ false)
      × (m.git (probe disk) ≡ none)

  outside : (disk : Disk) → is_found (in_git_worktree m dest disk) ≡ false → IsOutside disk
  unfolding in_git_worktree
  outside disk h =
      let (free, unknown) = both-none (walk_up disk (probe disk)) (m.git (probe disk)) h in
      (walk_up-none disk (probe disk) free, unknown)

  -- What holds of a run of the program.
  abbrev pub IsSafe : Bool → Disk → Outcome × Disk → Type 0
  IsSafe force disk result =
      Keeps disk result.1
      × IsWritten result
      × ((public_key : Str)
          → result.0 ≡ written public_key
          → (exists dest disk ≡ false) × ((force ≡ true) ⊎ IsOutside disk))

  refused-IsSafe : (force : Bool) (disk : Disk) → IsSafe force disk (refused, disk)
  refused-IsSafe force disk = (λ at f found. found, tt, λ public_key e. absurd (cc))

  write_pair-IsSafe :
      (force : Bool) (disk : Disk)
      → exists dest disk ≡ false
      → (force ≡ true) ⊎ IsOutside disk
      → IsSafe force disk (write_pair m scheme pem_of key dest disk (mkdir (parent_of dest) disk))
  write_pair-IsSafe force disk free may =
      let (kept, wrote) = write_pair-Keeps disk (mkdir (parent_of dest) disk) refl in
      (kept, wrote, λ public_key e. (free, may))

  if-IsSafe :
      (force : Bool) (disk : Disk) (test : Bool) (a b : Outcome × Disk)
      → (test ≡ true → IsSafe force disk a)
      → (test ≡ false → IsSafe force disk b)
      → IsSafe force disk (if test then a else b)
  if-IsSafe force disk true a b h k = h refl
  if-IsSafe force disk false a b h k = k refl

  allowed :
      (inside force : Bool) → (inside && not force) ≡ false → (force ≡ true) ⊎ (inside ≡ false)
  allowed inside true h = inl refl
  allowed false false h = inr refl
  allowed true false h = absurd (cc)

  pub keygen-IsSafe :
      (force : Bool) (disk : Disk) → IsSafe force disk (keygen m scheme pem_of key dest force disk)
  unfolding keygen
  keygen-IsSafe force disk =
      if-IsSafe force disk (exists dest disk) _ _ (λ taken. refused-IsSafe force disk)
        (λ free.
          if-IsSafe force disk (is_found (in_git_worktree m dest disk) && not force) _ _
            (λ inside. refused-IsSafe force disk)
            (λ away.
              write_pair-IsSafe force disk free
                (elim (allowed (is_found (in_git_worktree m dest disk)) force away) [
                  | inl forced ↦ inl forced
                  | inr none_found ↦ inr (outside disk none_found)
                ])))
