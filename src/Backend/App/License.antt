-- ===== src/Backend/App/License.antt =====
-- backend/app.py: the licence endpoint.
use ble_usage_meter.Common.{
  ℕ, Str, true, ◌≡◌, refl, Option, none, some, Result, ok, str_is_eq, ok-injective,
}
use ble_usage_meter.Common.Dict.{lookup}
use ble_usage_meter.Backend.Models.{DeviceRecord}
use ble_usage_meter.Backend.Db.{Database}
use ble_usage_meter.Backend.Policy.{Decision, deny, no_policy_on_record, Faults, decide}
use ble_usage_meter.Backend.Policy.Closed.{IsGranted, decide-IsGranted}

unfoldable pub license_of : Faults → Database → Str → ℕ → ℕ → Option DeviceRecord → Result Decision
license_of faults db device_id today now none = ok (deny no_policy_on_record)
license_of faults db device_id today now (some device) = decide faults db device_id today now

-- `GET /devices/{device_id}/license`
unfoldable pub get_license : Faults → Database → Str → ℕ → ℕ → Result Decision
get_license faults db device_id today now =
    license_of faults db device_id today now (lookup device_id db.devices)

module _ (faults : Faults) (db : Database) (device_id : Str) (today now : ℕ) where
  license_of-IsGranted :
      (o : Option DeviceRecord) (d : Decision)
      → license_of faults db device_id today now o ≡ ok d
      → d.allowed ≡ true
      → ((device : DeviceRecord) × (o ≡ some device)) × IsGranted faults db device_id today now
  unfolding license_of
  license_of-IsGranted none d h a = absurd (not_allowed (ok-injective h) a)
    where
      not_allowed : deny no_policy_on_record ≡ d → d.allowed ≡ true → ⊥
      not_allowed e b = cc
  license_of-IsGranted (some device) d h a =
      ((device, refl), decide-IsGranted faults db device_id today now d h a)

  -- A licence is granted only to a registered device, and only on everything that `decide` needs for
  -- it: a readable, active policy that has not expired, and under a quota a measured usage below it.
  pub get_license-IsGranted :
      (d : Decision)
      → get_license faults db device_id today now ≡ ok d
      → d.allowed ≡ true
      → ((device : DeviceRecord) × (lookup device_id db.devices ≡ some device))
        × IsGranted faults db device_id today now
  unfolding get_license
  get_license-IsGranted d h a = license_of-IsGranted (lookup device_id db.devices) d h a
