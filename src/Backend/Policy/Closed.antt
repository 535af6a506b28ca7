-- ===== src/Backend/Policy/Closed.antt =====
-- backend/policy.py: what an allowed decision needs, on the pure function and on the database.
use ble_usage_meter.Common.{
  ℕ, ◌*◌, ◌≤◌, ◌<◌, Str, Bool, true, false, ◌||◌, ◌≡◌, refl, sym, subst, some-eq, ◌↔◌, inl, inr,
  Option, none, some, Result, ok, err, overflow_error, ◌>>=◌, arith, if◌then◌else◌, str_is_eq,
  bind-eq-ok, Bool-cases, ok-injective,
}
use ble_usage_meter.Common.Int.{ℤ, pos, ◌<ℤ◌, eqb_ℤ}
use ble_usage_meter.Common.Dict.{lookup}
use ble_usage_meter.Backend.Db.{Database, PolicyRow}
use ble_usage_meter.Backend.Policy.{
  PolicyRecord, Decision, deny, load_expiry, record_of, load_policy, evaluate_quota,
  evaluate_record, evaluate, policy_unevaluable, usage_in_period, Faults, used_for, decide_loaded,
  decide, days_before,
}

-- Below the quota in a period of at least a day, where there is a quota.
abbrev pub WithinQuota : Option ℤ → Option ℤ → Option ℤ → Type 0
WithinQuota none period used = Unit
WithinQuota (some q) none used = ⊥
WithinQuota (some q) (some n) none = ⊥
WithinQuota (some q) (some n) (some u) = (pos 0 <ℤ n) × (u <ℤ q)

abbrev pub NotPast : ℕ → Option ℕ → Type 0
NotPast today none = Unit
NotPast today (some d) = today ≤ d

-- What a licence needs: activation, a date that has not passed, and usage below the quota.
abbrev pub Licensed : PolicyRecord → Option ℤ → ℕ → Type 0
Licensed p used today =
    (p.active ≡ true) × NotPast today p.expires_on × WithinQuota p.quota_units p.period_days used

evaluate_fields :
    (active : Bool) (quota period : Option ℤ) (expires : Option ℕ) (used : Option ℤ) (today : ℕ)
    → let p : PolicyRecord = record {
      active = active;
      quota_units = quota;
      period_days = period;
      expires_on = expires;
    } in
      ((evaluate_record p used today).allowed ≡ true) ↔ Licensed p used today
unfolding evaluate_record evaluate_quota
evaluate_fields false quota period expires used today = ground arith
evaluate_fields true none period none used today = ground arith
evaluate_fields true none period (some e) used today = ground arith
evaluate_fields true (some q) none none used today = ground arith
evaluate_fields true (some q) none (some e) used today = ground arith
evaluate_fields true (some q) (some n) none none today = ground arith
evaluate_fields true (some q) (some n) none (some u) today = ground arith
evaluate_fields true (some q) (some n) (some e) none today = ground arith
evaluate_fields true (some q) (some n) (some e) (some u) today = ground arith

-- The decision is `allowed` exactly for a policy on record that is active, not expired, and, where
-- it has a quota, has a period of at least a day and a known usage below the quota.
pub evaluate_iff :
    (policy : Option PolicyRecord) (used : Option ℤ) (today : ℕ)
    → ((evaluate policy used today).allowed ≡ true)
      ↔ ((p : PolicyRecord) × (policy ≡ some p) × Licensed p used today)
unfolding evaluate
evaluate_iff none used today = (λ h. cc, λ (p, e, l). cc)
evaluate_iff (some p) used today = (
  λ h.
      (p, refl, (evaluate_fields p.active p.quota_units p.period_days p.expires_on used today).0 h),
  λ (q, e, l).
      (evaluate_fields p.active p.quota_units p.period_days p.expires_on used today).1
        (subst (λ x. Licensed x used today) (some-eq (sym e)) l),
)

-- A quota's usage was read from the database, for the period of the policy, and is below the quota.
abbrev pub Measured : Faults → Database → Str → ℕ → Option ℤ → Option ℤ → Type 0
Measured faults db device_id now none period = Unit
Measured faults db device_id now (some q) none = ⊥
Measured faults db device_id now (some q) (some n) =
    (pos 0 <ℤ n)
    × (faults.usage ≡ false)
    × ((u : ℤ) × (usage_in_period db device_id n now ≡ ok u) × (u <ℤ q))

-- Everything that a licence rests on.
pub record IsGranted (faults : Faults) (db : Database) (device_id : Str) (today now : ℕ)
    : Type 0 where
  pub policy : PolicyRecord
  pub readable : faults.policy ≡ false
  pub loaded : load_policy db device_id ≡ ok (some policy)
  pub active : policy.active ≡ true
  pub current : NotPast today policy.expires_on
  pub measured : Measured faults db device_id now policy.quota_units policy.period_days

module _ (faults : Faults) (db : Database) (device_id : Str) (today now : ℕ) where
  quota-Measured :
      (q n : ℤ) (used : Option ℤ)
      → (if eqb_ℤ n (pos 0) || faults.usage
          then ok none
          else (do u ← usage_in_period db device_id n now; ok (some u)))
        ≡ ok used
      → WithinQuota (some q) (some n) used
      → Measured faults db device_id now (some q) (some n)
  quota-Measured q n none h w = absurd w
  quota-Measured q n (some v) h w = elim (Bool-cases (eqb_ℤ n (pos 0) || faults.usage)) [
    | inl skipped ↦ absurd (ground arith)
    | inr read ↦
        let (u, hu, e) = bind-eq-ok (usage_in_period db device_id n now) _ (rw read at h) in
        (w.0, ground arith, (u, hu, subst (λ x. x <ℤ q) (sym (some-eq (ok-injective e))) w.1))
  ]

  used_for-Measured :
      (active : Bool) (quota period : Option ℤ) (expires : Option ℕ) (used : Option ℤ)
      → let p : PolicyRecord = record {
        active = active;
        quota_units = quota;
        period_days = period;
        expires_on = expires;
      } in
        used_for faults db device_id (some p) now ≡ ok used
        → WithinQuota quota period used
        → Measured faults db device_id now quota period
  unfolding used_for
  used_for-Measured active none period expires used h w = tt
  used_for-Measured active (some q) none expires used h w = absurd w
  used_for-Measured active (some q) (some n) expires used h w = quota-Measured q n used h w

  evaluate-IsGranted :
      (policy : Option PolicyRecord)
      → faults.policy ≡ false
      → load_policy db device_id ≡ ok policy
      → (used : Option ℤ) → used_for faults db device_id policy now ≡ ok used
      → (evaluate policy used today).allowed ≡ true
      → IsGranted faults db device_id today now
  evaluate-IsGranted policy readable loaded used hu h =
      let (p, e, l) = (evaluate_iff policy used today).0 h in
      record {
        policy = p;
        readable = readable;
        loaded = rw e at loaded;
        active = l.0;
        current = l.1;
        measured =
            used_for-Measured p.active p.quota_units p.period_days p.expires_on used (rw e at hu)
              l.2;
      }

  decide_loaded-IsGranted :
      (loaded : Result (Option PolicyRecord))
      → faults.policy ≡ false
      → load_policy db device_id ≡ loaded
      → (d : Decision) → decide_loaded faults db device_id loaded today now ≡ ok d
      → d.allowed ≡ true
      → IsGranted faults db device_id today now
  unfolding decide_loaded
  decide_loaded-IsGranted (err e) readable hl d h a = cc
  decide_loaded-IsGranted (ok policy) readable hl d h a =
      let (used, hu, e) = bind-eq-ok (used_for faults db device_id policy now) _ h in
      evaluate-IsGranted policy readable hl used hu
        (subst (λ x. x.allowed ≡ true) (sym (ok-injective e)) a)

  -- Whatever the database holds and whichever read of it fails: where `decide` allows, the policy
  -- row was read, is there and has a readable date, the device is active and not expired, and under
  -- a quota the usage of a period of at least a day was read and is below it.
  pub decide-IsGranted :
      (d : Decision)
      → decide faults db device_id today now ≡ ok d
      → d.allowed ≡ true
      → IsGranted faults db device_id today now
  unfolding decide decide_loaded used_for
  decide-IsGranted d h a = elim (Bool-cases faults.policy) [
    | inl bad ↦ absurd (denied (rw bad at h))
    | inr readable ↦
        decide_loaded-IsGranted (load_policy db device_id) readable refl d (rw readable at h) a
  ]
    where
      denied : ok (deny policy_unevaluable) ≡ ok d → ⊥
      denied e = cc

-- `decide` is not total: for a policy without an expiry date, and where both reads succeed, a quota over
-- a period that reaches back before the year 1 raises, whether or not the device is active, instead
-- of denying.
pub decide_raises :
    (db : Database) (device_id : Str) (row : PolicyRow) (q : ℤ) (n today now : ℕ)
    → lookup device_id db.policies ≡ some row
    → row.quota_units ≡ some q
    → row.period_days ≡ some (pos n)
    → row.expires_on ≡ none
    → now < n * 86400000000
    → decide (record { policy = false; usage = false }) db device_id today now ≡ err overflow_error
unfolding decide load_policy record_of load_expiry decide_loaded used_for usage_in_period
    days_before
decide_raises db device_id row q n today now found hq hp he far = ground arith
