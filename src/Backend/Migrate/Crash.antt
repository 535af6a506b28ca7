-- ===== src/Backend/Migrate/Crash.antt =====
-- Migrating a database file, also one whose last migration was broken off.
use ble_usage_meter.Common.{
  ℕ, suc, zero, ◌≡◌, inl, inr, refl, ap, ◌∙◌, Str, List, [], ◌∷◌, ◌++◌, Bool, true, false,
  Bool-cases, Option, none, some, take,
}
use ble_usage_meter.Common.Dict.{Dict, lookup, insert, lookup-insert}
use ble_usage_meter.Backend.Migrate.{
  schema_version, version_is_eq, File, Statement, create_migrations, create_devices,
  create_usage_reports, create_policies, create_index, create_no_update, create_no_delete,
  record_version, or_empty, run, run_script, schema, is_some, has_version, migrate_until, migrate,
  contents,
}

-- Every object of the schema is there.
abbrev pub HasObjects : File → Type 0
HasObjects f =
    (is_some f.devices ≡ true)
    × (is_some f.usage_reports ≡ true)
    × (is_some f.policies ≡ true)
    × (f.index ≡ true)
    × (f.no_update ≡ true)
    × (f.no_delete ≡ true)

-- A recorded version stands for a whole schema.
abbrev pub IsSound : File → Type 0
IsSound f = has_version f ≡ true → HasObjects f

run-contents : (s : Statement) (f : File) → contents (run s f) ≡ contents f
unfolding run
run-contents create_migrations f = refl
run-contents create_devices f = refl
run-contents create_usage_reports f = refl
run-contents create_policies f = refl
run-contents create_index f = refl
run-contents create_no_update f = refl
run-contents create_no_delete f = refl
run-contents (record_version now) f = refl

run_script-contents : (ss : List Statement) (f : File) → contents (run_script ss f) ≡ contents f
unfolding run_script
run_script-contents [] f = refl
run_script-contents (s ∷ ss) f = run_script-contents ss (run s f) ∙ run-contents s f

-- Whatever is in the file stays.
pub migrate_until-contents :
    (n : ℕ) (now : Str) (f : File) → contents (migrate_until n now f) ≡ contents f
unfolding migrate_until
migrate_until-contents n now f = elim (Bool-cases (has_version (run create_migrations f))) [
  | inl e ↦ rw e (run-contents create_migrations f)
  | inr e ↦ rw e (
      run_script-contents (take n (schema ++ record_version now ∷ [])) (run create_migrations f)
      ∙ run-contents create_migrations f)
]

clash : {b : Bool} → b ≡ false → b ≡ true → ⊥
clash h k = cc

lookup-recorded :
    (now : Str) (d : Dict ℕ Str)
    → is_some (lookup schema_version (insert schema_version now d)) ≡ true
lookup-recorded now d = rw (lookup-insert schema_version schema_version now d) refl

-- The script records the version with its last statement: broken off before, it leaves a file without.
script-IsSound :
    (n : ℕ) (now : Str) (f : File)
    → has_version f ≡ false
    → IsSound (run_script (take n (schema ++ record_version now ∷ [])) f)
unfolding run_script run has_version
script-IsSound zero now f new = λ v. absurd (clash new v)
script-IsSound (suc zero) now f new = λ v. absurd (clash new v)
script-IsSound (suc (suc zero)) now f new = λ v. absurd (clash new v)
script-IsSound (suc (suc (suc zero))) now f new = λ v. absurd (clash new v)
script-IsSound (suc (suc (suc (suc zero)))) now f new = λ v. absurd (clash new v)
script-IsSound (suc (suc (suc (suc (suc zero))))) now f new = λ v. absurd (clash new v)
script-IsSound (suc (suc (suc (suc (suc (suc zero)))))) now f new = λ v. absurd (clash new v)
script-IsSound (suc (suc (suc (suc (suc (suc (suc zero))))))) now f new = λ v. absurd (clash new v)
script-IsSound (suc (suc (suc (suc (suc (suc (suc (suc zero)))))))) now f new =
    λ v. (refl, refl, refl, refl, refl, refl)
script-IsSound (suc (suc (suc (suc (suc (suc (suc (suc (suc n))))))))) now f new =
    λ v. (refl, refl, refl, refl, refl, refl)

create_migrations-IsSound : (f : File) → IsSound f → IsSound (run create_migrations f)
unfolding run has_version
create_migrations-IsSound f sound = sound

pub migrate_until-IsSound :
    (n : ℕ) (now : Str) (f : File) → IsSound f → IsSound (migrate_until n now f)
unfolding migrate_until
migrate_until-IsSound n now f sound = elim (Bool-cases (has_version (run create_migrations f))) [
  | inl e ↦ rw e (create_migrations-IsSound f sound)
  | inr e ↦ rw e (script-IsSound n now (run create_migrations f) e)
]

script-has_version :
    (now : Str) (f : File) → has_version (run_script (schema ++ record_version now ∷ []) f) ≡ true
unfolding run_script run has_version
script-has_version now f = lookup-recorded now (or_empty f.migrations)

pub migrate-has_version : (now : Str) (f : File) → has_version (migrate now f) ≡ true
unfolding migrate migrate_until
migrate-has_version now f = elim (Bool-cases (has_version (run create_migrations f))) [
  | inl e ↦ rw e e
  | inr e ↦ rw e (script-has_version now (run create_migrations f))
]

-- A file with its version recorded is not touched.
recorded-some :
    (o : Option (Dict ℕ Str))
    → is_some (lookup schema_version (or_empty o)) ≡ true
    → some (or_empty o) ≡ o
unfolding lookup
recorded-some none h = absurd (cc)
recorded-some (some d) h = refl

migrate-recorded : (now : Str) (f : File) → has_version f ≡ true → migrate now f ≡ f
unfolding migrate migrate_until run has_version
migrate-recorded now f h =
    rw h (ap (λ o. record f { migrations = o }) (recorded-some f.migrations h))

-- Whichever statement the last migration was broken off after, the next one that runs to its end leaves
-- a file with every object of the schema and the version recorded, with all rows of devices, reports and
-- policies as they were, and further migrations change nothing. The version was not recorded before, or
-- every object was there.
pub migrate_recovers :
    (n : ℕ) (now later : Str) (f : File)
    → IsSound f
    → let g = migrate later (migrate_until n now f) in
      HasObjects g
      × (has_version g ≡ true)
      × (contents g ≡ contents f)
      × ((again : Str) → migrate again g ≡ g)
unfolding migrate
migrate_recovers n now later f sound =
    let broken = migrate_until n now f in
    let g = migrate later broken in
    let recorded : has_version g ≡ true = migrate-has_version later broken in
    (
      migrate_until-IsSound 8 later broken (migrate_until-IsSound n now f sound) recorded,
      recorded,
      migrate_until-contents 8 later broken ∙ migrate_until-contents n now f,
      λ again. migrate-recorded again g recorded,
    )
