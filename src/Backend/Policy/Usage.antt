-- ===== src/Backend/Policy/Usage.antt =====
-- The usage of a period: what a consistent database makes of it, and where its cutoff lies.
use ble_usage_meter.Common.{
  ℕ, Str, List, [], ◌∷◌, Bool, true, ◌≡◌, refl, sym, ap, ◌∙◌, Option, none, some, ok, arith,
  str_is_eq, str_eq_iff, bind-eq-ok, ok-injective, subst,
}
use ble_usage_meter.Common.Int.{ℤ, pos, negsuc, ◌≤ℤ◌, ◌-ℤ◌, -ℤ_parts, int_laws, max_ℤ}
use ble_usage_meter.Common.Dict.{lookup}
use ble_usage_meter.Common.Calendar.{strftime_z}
use ble_usage_meter.Backend.Models.{DeviceRecord}
use ble_usage_meter.Backend.Db.{Database, ReportRow}
use ble_usage_meter.Backend.App.History.{marks, IsHistory, IsConsistent}
use ble_usage_meter.Backend.Policy.{
  newest, ended_before, count_or_zero, usage_since, usage_in_period, days_before,
}

abbrev mark_of : Option ReportRow → ℤ × ℤ
mark_of none = (negsuc 0, pos 0)
mark_of (some r) = (r.sequence, r.count)

-- In a history the row with the greatest sequence is the newest one.
newest-marks :
    (id : Str) (rs : List ReportRow)
    → IsHistory rs
    → mark_of (newest (λ _. true) id rs) ≡ marks id rs
unfolding newest
newest-marks id [] h = refl
newest-marks id (r ∷ rs) h = ground (arith, newest-marks id rs h.2, str_eq_iff r.device_id id)

-- No row of a device counts more than its newest one, and none less than zero.
count_or_zero_bounds :
    (keep : ReportRow → Bool) (id : Str) (rs : List ReportRow)
    → IsHistory rs
    → (pos 0 ≤ℤ count_or_zero (newest keep id rs))
      × (count_or_zero (newest keep id rs) ≤ℤ (marks id rs).1)
unfolding newest
count_or_zero_bounds keep id [] h = omega arith
count_or_zero_bounds keep id (r ∷ rs) h =
    ground (arith, count_or_zero_bounds keep id rs h.2, str_eq_iff r.device_id id)

-- What `usage_since` makes of the newest row and a baseline that is not above it.
abbrev less_baseline : Option ReportRow → ℤ → ℤ
less_baseline none base = pos 0
less_baseline (some latest) base = max_ℤ (pos 0) (latest.count -ℤ base)

less_baseline-exact :
    (o : Option ReportRow) (base : ℤ)
    → pos 0 ≤ℤ base
    → base ≤ℤ (mark_of o).1
    → less_baseline o base ≡ (mark_of o).1 -ℤ base
less_baseline-exact none base lo hi = omega int_laws
less_baseline-exact (some r) base lo hi = ground (arith, -ℤ_parts r.count base)

usage_since-less_baseline :
    (id cutoff : Str) (rs : List ReportRow)
    → usage_since rs id cutoff
      ≡ less_baseline
          (newest (λ _. true) id rs)
          (count_or_zero (newest (ended_before cutoff) id rs))
unfolding usage_since
usage_since-less_baseline id cutoff rs = ground arith

-- In a history the usage is exactly the newest count less the baseline: nothing is cut off at zero,
-- and it is between zero and the newest count.
pub usage_since-exact :
    (id cutoff : Str) (rs : List ReportRow)
    → IsHistory rs
    → let base = count_or_zero (newest (ended_before cutoff) id rs) in
      (usage_since rs id cutoff ≡ (marks id rs).1 -ℤ base)
      × (pos 0 ≤ℤ usage_since rs id cutoff)
      × (usage_since rs id cutoff ≤ℤ (marks id rs).1)
usage_since-exact id cutoff rs h =
    let base = count_or_zero (newest (ended_before cutoff) id rs) in
    let (lo, hi) = count_or_zero_bounds (ended_before cutoff) id rs h in
    let m = newest-marks id rs h in
    let exact : usage_since rs id cutoff ≡ (marks id rs).1 -ℤ base =
      usage_since-less_baseline id cutoff rs
      ∙ less_baseline-exact (newest (λ _. true) id rs) base lo (subst (λ x. base ≤ℤ x.1) (sym m) hi)
      ∙ ap (λ x. x.1 -ℤ base) m in
    (
      exact,
      rw exact (omega (arith, -ℤ_parts (marks id rs).1 base)),
      rw exact (omega (arith, -ℤ_parts (marks id rs).1 base)),
    )

-- In a consistent database the usage of a registered device, over whatever period, is between zero
-- and the device's last accepted count.
pub usage_in_period_bounds :
    (db : Database) (id : Str) (d : DeviceRecord) (period : ℤ) (now : ℕ) {u : ℤ}
    → IsConsistent db
    → lookup id db.devices ≡ some d
    → usage_in_period db id period now ≡ ok u
    → (pos 0 ≤ℤ u) × (u ≤ℤ d.last_accepted_count)
unfolding usage_in_period
usage_in_period_bounds db id d period now c found h =
    let (cutoff, hc, e) = bind-eq-ok (days_before now period) _ h in
    let (exact, lo, hi) = usage_since-exact id (strftime_z cutoff) db.usage_reports c.history in
    let (s, n) = c.marked id d found in rw (← ok-injective e, n) (lo, hi)
