-- ===== src/Backend/Service/Migrated.antt =====
-- backend/app.py on a file that each request migrates first (backend/db.py), against the rows alone.
use ble_usage_meter.Common.{
  ◌≡◌, refl, ap, ◌∙◌, Str, List, [], ◌∷◌, true, Option, none, some, str_is_eq,
}
use ble_usage_meter.Common.Ed25519.{Ed25519}
use ble_usage_meter.Common.Dict.{Dict}
use ble_usage_meter.Backend.Models.{DeviceRecord}
use ble_usage_meter.Backend.Db.{Database}
use ble_usage_meter.Backend.Migrate.{File, is_some, migrate, migrate_until, contents}
use ble_usage_meter.Backend.Migrate.Crash.{
  IsSound, HasObjects, migrate-has_version, migrate_until-IsSound, migrate_until-contents,
}
use ble_usage_meter.Backend.Service.{
  Call, health, register, report, usage, license, Answer, written, store_in, Visit, served, killed,
  endpoint, report_rows, usage_rows, failing, on_rows, on_devices, on_file, with_conn, visit_all,
  answer_all,
}

module _ (scheme : Ed25519) where
  -- The connection's file and answer against the rows.
  abbrev Agrees : Call → Str → File → Answer × File → Type 0
  Agrees call now f (a, g) =
      (a ≡ (endpoint scheme call now (contents f)).0)
      × (contents g ≡ (endpoint scheme call now (contents f)).1)
      × IsSound g

  is_some-eq : {A : Type 0} (o : Option A) → is_some o ≡ true → (a : A) × (o ≡ some a)
  is_some-eq none h = absurd (cc)
  is_some-eq (some a) h = (a, refl)

  -- On a file that has its tables, the handlers are the endpoints on its rows.
  on_rows-endpoint :
      (call : Call) (now : Str) (f : File) (db : Database)
      → HasObjects f
      → on_rows scheme call now f db ≡ endpoint scheme call now db
  unfolding on_rows report_rows usage_rows failing endpoint
  on_rows-endpoint health now f db h = refl
  on_rows-endpoint (register req) now f db h = refl
  on_rows-endpoint (report r) now f db h =
      let (rows, e) = is_some-eq f.usage_reports h.1 in rw e refl
  on_rows-endpoint (usage d) now f db h =
      let (rows, e) = is_some-eq f.usage_reports h.1 in rw e refl
  on_rows-endpoint (license faults d day second) now f db h = rw (h.1, h.2) refl

  on_devices-some :
      (o : Option (Dict Str DeviceRecord)) (call : Call) (now : Str) (f : File)
      → is_some o ≡ true
      → let (a, db) = on_rows scheme call now f (contents f) in
        on_devices scheme o call now f ≡ (a, store_in db f)
  unfolding on_devices
  on_devices-some none call now f h = absurd (cc)
  on_devices-some (some rows) call now f h = refl

  on_file-endpoint :
      (call : Call) (now : Str) (f : File)
      → HasObjects f
      → let (a, db) = endpoint scheme call now (contents f) in
        on_file scheme call now f ≡ (a, store_in db f)
  unfolding on_file
  on_file-endpoint call now f h =
      on_devices-some f.devices call now f h.0
      ∙ ap (λ x. (x.0, store_in x.1 f)) (on_rows-endpoint call now f (contents f) h)

  written-some :
      {A : Type 0} (o : Option (List A)) (rows : List A)
      → is_some o ≡ true
      → written o rows ≡ some rows
  written-some none rows h = absurd (cc)
  written-some (some old) rows h = refl

  stored_in :
      (db : Database) (f : File)
      → HasObjects f
      → (contents (store_in db f) ≡ db) × HasObjects (store_in db f)
  stored_in db f (devices, reports, policies, index, no_update, no_delete) =
      rw
        (
          written-some f.devices db.devices devices,
          written-some f.usage_reports db.usage_reports reports,
          written-some f.policies db.policies policies,
        )
        (refl, (refl, refl, refl, index, no_update, no_delete))

  on_migrated :
      (call : Call) (now : Str) (f : File)
      → IsSound f
      → Agrees call now f (on_file scheme call now (migrate now f))
  unfolding migrate
  on_migrated call now f sound =
      let f' = migrate_until 8 now f in
      let same = migrate_until-contents 8 now f in
      let objects = migrate_until-IsSound 8 now f sound (migrate-has_version now f) in
      let (rows, kept) = stored_in (endpoint scheme call now (contents f')).1 f' objects in
      rw (on_file-endpoint call now f' objects) (
        ap (λ db. (endpoint scheme call now db).0) same,
        rows ∙ ap (λ db. (endpoint scheme call now db).1) same,
        λ h. kept,
      )

  with_conn-Agrees :
      (call : Call) (now : Str) (f : File)
      → IsSound f
      → Agrees call now f (with_conn scheme call now f)
  unfolding with_conn
  with_conn-Agrees health now f sound = unfold endpoint in (refl, refl, sound)
  with_conn-Agrees (register req) now f sound = on_migrated (register req) now f sound
  with_conn-Agrees (report r) now f sound = on_migrated (report r) now f sound
  with_conn-Agrees (usage d) now f sound = on_migrated (usage d) now f sound
  with_conn-Agrees (license faults d day second) now f sound =
      on_migrated (license faults d day second) now f sound

  -- Whatever is requested, and wherever processes are killed in a migration: the answers and the rows are
  -- those of the same requests on rows that need no migration. The version was not recorded in the file
  -- before, or every object was there, and so it is after.
  pub visit_all_refines :
      (visits : List Visit) (f : File)
      → IsSound f
      → ((visit_all scheme visits f).0 ≡ (answer_all scheme visits (contents f)).0)
        × (contents (visit_all scheme visits f).1 ≡ (answer_all scheme visits (contents f)).1)
        × IsSound (visit_all scheme visits f).1
  unfolding visit_all answer_all
  visit_all_refines [] f sound = (refl, refl, sound)
  visit_all_refines (served call now ∷ rest) f sound =
      let (answered, rows, sound') = with_conn-Agrees call now f sound in
      let (answers, end, last) = visit_all_refines rest (with_conn scheme call now f).1 sound' in
      (
        ap (λ a. a ∷ (visit_all scheme rest (with_conn scheme call now f).1).0) answered
            ∙ ap (λ l. (endpoint scheme call now (contents f)).0 ∷ l)
                (answers ∙ ap (λ db. (answer_all scheme rest db).0) rows),
        end ∙ ap (λ db. (answer_all scheme rest db).1) rows,
        last,
      )
  visit_all_refines (killed n now ∷ rest) f sound =
      let (answers, end, last) =
        visit_all_refines rest (migrate_until n now f) (migrate_until-IsSound n now f sound) in
      let same = migrate_until-contents n now f in
      (
        answers ∙ ap (λ db. (answer_all scheme rest db).0) same,
        end ∙ ap (λ db. (answer_all scheme rest db).1) same,
        last,
      )
