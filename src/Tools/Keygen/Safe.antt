-- ===== src/Tools/Keygen/Safe.antt =====
-- tools/keygen.py: directories and files that are made, and the search for a work tree.
use ble_usage_meter.Common.{
  ℕ, zero, suc, ◌≡◌, inl, inr, refl, sym, ap, subst, ◌∙◌, Str, Bytes, text, [], ◌∷◌, true, false,
  Bool-cases, Option, Option-cases, none, some, Result, ok, err, os_error, bind-eq-ok, ok-injective,
  if◌then◌else◌, ◌==◌, ==-refl, drop, arith, length, ◌<◌,
}
use ble_usage_meter.Common.Dict.{lookup, insert, lookup-insert}
use ble_usage_meter.Tools.Keygen.{
  FilePath, path_is_eq, Entry, directory, file, Disk, entry_at, exists, walk_up, add_directory,
  mkdir, owner_only, write_private_key,
}

-- What was there is still there, as it was.
abbrev pub Keeps : Disk → Disk → Type 0
Keeps disk disk' =
    (path : FilePath) (e : Entry) → lookup path disk ≡ some e → lookup path disk' ≡ some e

-- An entry at a path that had none.
insert-Keeps :
    (path : FilePath) (e : Entry) (disk : Disk)
    → lookup path disk ≡ none
    → Keeps disk (insert path e disk)
insert-Keeps path e disk new at f found = elim (Bool-cases (path == at)) [
  | inl same ↦
      absurd
        (clash (sym (ap (λ p. lookup p disk) ((path_is_eq.same_iff path at).0 same)) ∙ new) found)
  | inr other ↦ lookup-insert path at e disk ∙ rw other found
]
  where
    clash : {o : Option Entry} {f : Entry} → o ≡ none → o ≡ some f → ⊥
    clash h k = cc

-- The directories that are made are no longer than the path.
add_directory-deeper :
    (path at : FilePath) (o : Option Entry) (disk disk' : Disk) (above : Result Disk)
    → length path < length at
    → ((d : Disk) → above ≡ ok d → lookup at d ≡ lookup at disk)
    → add_directory path o disk above ≡ ok disk'
    → lookup at disk' ≡ lookup at disk
unfolding add_directory
add_directory-deeper path at (some directory) disk disk' above n k h =
    ap (lookup at) (sym (ok-injective h))
add_directory-deeper path at (some (file content mode)) disk disk' above n k h = absurd (cc)
add_directory-deeper path at none disk disk' above n k h =
    let (d, made, e) = bind-eq-ok above _ h in
    ap (lookup at) (sym (ok-injective e))
    ∙ lookup-insert path at directory d
    ∙ elsewhere d
    ∙ k d made
  where
    other : (path == at) ≡ false
    other = elim (Bool-cases (path == at)) [
      | inl same ↦ absurd (omega (arith, ap length ((path_is_eq.same_iff path at).0 same), n))
      | inr different ↦ different
    ]

    elsewhere : (d : Disk) → (if path == at then some directory else lookup at d) ≡ lookup at d
    elsewhere d = rw other refl

pub mkdir-deeper :
    (path at : FilePath) (disk disk' : Disk)
    → length path < length at
    → mkdir path disk ≡ ok disk'
    → lookup at disk' ≡ lookup at disk
unfolding mkdir
mkdir-deeper [] at disk disk' n h = ap (lookup at) (sym (ok-injective h))
mkdir-deeper (name ∷ parent) at disk disk' n h =
    add_directory-deeper (name ∷ parent) at (lookup (name ∷ parent) disk) disk disk'
      (mkdir parent disk) n (λ d made. mkdir-deeper parent at disk d (omega (arith, n)) made) h

add_directory-Keeps :
    (path : FilePath) (o : Option Entry) (disk disk' : Disk) (above : Result Disk)
    → lookup path disk ≡ o
    → ((d : Disk) → above ≡ ok d → Keeps disk d × (lookup path d ≡ lookup path disk))
    → add_directory path o disk above ≡ ok disk'
    → Keeps disk disk'
unfolding add_directory
add_directory-Keeps path (some directory) disk disk' above e k h =
    subst (Keeps disk) (ok-injective h) (λ at f found. found)
add_directory-Keeps path (some (file content mode)) disk disk' above e k h = absurd (cc)
add_directory-Keeps path none disk disk' above e k h =
    let (d, made, same) = bind-eq-ok above _ h in
    let (kept, free) = k d made in
    subst (Keeps disk) (ok-injective same)
      (λ at f found. insert-Keeps path directory d (free ∙ e) at f (kept at f found))

pub mkdir-Keeps :
    (path : FilePath) (disk disk' : Disk) → mkdir path disk ≡ ok disk' → Keeps disk disk'
unfolding mkdir
mkdir-Keeps [] disk disk' h = subst (Keeps disk) (ok-injective h) (λ at f found. found)
mkdir-Keeps (name ∷ parent) disk disk' h =
    add_directory-Keeps (name ∷ parent) (lookup (name ∷ parent) disk) disk disk' (mkdir parent disk)
      refl
      (λ d made. (
        mkdir-Keeps parent disk d made,
        mkdir-deeper parent (name ∷ parent) disk d (omega arith) made,
      ))
      h

pub absent : (path : FilePath) (disk : Disk) → exists path disk ≡ false → lookup path disk ≡ none
unfolding entry_at
absent [] disk h = absurd (cc)
absent (name ∷ parent) disk h = elim (Option-cases (lookup (name ∷ parent) disk)) [
  | inl free ↦ free
  | inr (e, found) ↦ absurd (clash (rw found at h))
]
  where
    clash : true ≡ false → ⊥
    clash e = cc

written_file :
    (path : FilePath) (e : Entry) (disk : Disk) → lookup path (insert path e disk) ≡ some e
written_file path e disk = lookup-insert path path e disk ∙ rw (==-refl path) refl

pub write_private_key-Keeps :
    (pem : Bytes) (dest : FilePath) (disk disk' : Disk)
    → write_private_key pem dest disk ≡ ok disk'
    → Keeps disk disk' × (lookup dest disk' ≡ some (file pem owner_only))
unfolding write_private_key
write_private_key-Keeps pem dest disk disk' h = elim (Bool-cases (exists dest disk)) [
  | inl taken ↦ absurd (never (rw taken at h))
  | inr free ↦
      let same = ok-injective (rw free at h) in
      (
        subst (Keeps disk) same
            (insert-Keeps dest (file pem owner_only) disk (absent dest disk free)),
        ap (lookup dest) (sym same) ∙ written_file dest (file pem owner_only) disk,
      )
]
  where
    never : err os_error ≡ ok disk' → ⊥
    never e = cc

-- No directory on the way up has a `.git`.
pub walk_up-none :
    (disk : Disk) (probe : FilePath)
    → walk_up disk probe ≡ none
    → (k : ℕ) → exists (text ".git" ∷ drop k probe) disk ≡ false
unfolding walk_up
walk_up-none disk [] h k = elim (Bool-cases (exists (text ".git" ∷ []) disk)) [
  | inl e ↦ absurd (found_one (rw e at h))
  | inr e ↦ rw (drop_nil k) e
]
  where
    found_one : ◌≡◌ {A = Option FilePath} (some []) none → ⊥
    found_one e = cc

    drop_nil : (k : ℕ) → drop {A = Str} k [] ≡ []
    drop_nil zero = refl
    drop_nil (suc k) = refl
walk_up-none disk (name ∷ parent) h k =
    elim (Bool-cases (exists (text ".git" ∷ name ∷ parent) disk)) [
      | inl e ↦ absurd (found_one (rw e at h))
      | inr e ↦ from_there k e (walk_up-none disk parent (rw e at h))
    ]
  where
    found_one : some (name ∷ parent) ≡ none → ⊥
    found_one e = cc

    from_there :
        (k : ℕ)
        → exists (text ".git" ∷ name ∷ parent) disk ≡ false
        → ((j : ℕ) → exists (text ".git" ∷ drop j parent) disk ≡ false)
        → exists (text ".git" ∷ drop k (name ∷ parent)) disk ≡ false
    from_there zero e f = e
    from_there (suc k) e f = f k
