-- ===== src/Gateway/Reporter/Delivery.antt =====
-- How often a report is posted, and what its result says.
use ble_usage_meter.Common.{
  ℕ, zero, suc, ◌+◌, ◌*◌, ◌≤◌, ◌<◌, ◌≡◌, ◌⊎◌, inl, inr, refl, some-eq, ap, sym, Bool-cases, List,
  [], Bool, true, false, none, some, ltb, length, arith, Option-cases,
}
use ble_usage_meter.Gateway.Reporter.{
  Attempt, answered, failed, PostResult, is_success, is_rejection, result_of, min_ℕ, or_next,
  attempts_from, post,
}

-- Delivered with a 2xx status, or given up on a 4xx one.
abbrev pub IsFinal : ℕ → Bool → Type 0
IsFinal status delivered =
    ((is_success status ≡ true) × (delivered ≡ true))
    ⊎ ((is_rejection status ≡ true) × (delivered ≡ false))

-- The result says what the last attempt came to, or that no attempt was conclusive.
abbrev pub Explains : (ℕ → Attempt) → ℕ → PostResult → Type 0
Explains server max_attempts r =
    ((r.delivered ≡ false)
      × (r.status ≡ none)
      × (r.attempts ≡ max_attempts)
      × (result_of max_attempts (server max_attempts) ≡ none))
    ⊎ ((status : ℕ) × (server r.attempts ≡ answered status)
        × (r.status ≡ some status)
        × IsFinal status r.delivered)

result_of_lem :
    (attempt : ℕ) (a : Attempt) (r : PostResult)
    → result_of attempt a ≡ some r
    → (r.attempts ≡ attempt)
      × ((status : ℕ) × (a ≡ answered status)
          × (r.status ≡ some status)
          × IsFinal status r.delivered)
unfolding result_of
result_of_lem attempt failed r h = cc
result_of_lem attempt (answered status) r h = elim (Bool-cases (is_success status)) [
  | inl good ↦
      let e = some-eq (rw good at h) in
      (
        ap (λ x. x.attempts) (sym e),
        (status, refl, ap (λ x. x.status) (sym e), inl (good, ap (λ x. x.delivered) (sym e))),
      )
  | inr other ↦ elim (Bool-cases (is_rejection status)) [
    | inl bad ↦
        let e = some-eq (rw (other, bad) at h) in
        (
          ap (λ x. x.attempts) (sym e),
          (status, refl, ap (λ x. x.status) (sym e), inr (bad, ap (λ x. x.delivered) (sym e))),
        )
    | inr neither ↦ absurd (none_some (rw (other, neither) at h))
  ]
]
  where
    none_some : none ≡ some r → ⊥
    none_some e = cc

module _ (server : ℕ → Attempt) (max_attempts max_delay : ℕ) where
  -- Nothing was conclusive between two attempts.
  abbrev Inconclusive : ℕ → ℕ → Type 0
  Inconclusive from to = (i : ℕ) → from ≤ i → i < to → result_of i (server i) ≡ none

  abbrev Loop : ℕ → PostResult × List ℕ → Type 0
  Loop attempt (r, sleeps) =
      Explains server max_attempts r
      × Inconclusive attempt r.attempts
      × (length sleeps + attempt ≡ r.attempts)
      × (r.attempts ≤ max_attempts)

  -- An attempt that is not conclusive, before others and as the last one.
  before_others :
      (attempt delay : ℕ) (r : PostResult) (sleeps : List ℕ)
      → attempt < max_attempts
      → result_of attempt (server attempt) ≡ none
      → Loop (suc attempt) (r, sleeps)
      → Loop attempt (or_next none (ltb attempt max_attempts) delay (r, sleeps))
  unfolding or_next
  before_others attempt delay r sleeps h e (explained, between, slept, most) = (
    explained,
    λ i lo hi. elim (le-cases attempt i lo) [
      | inl same ↦ rw (← same) e
      | inr later ↦ between i later hi
    ],
    ground (arith, slept),
    most,
  )
    where
      le-cases : (a i : ℕ) → a ≤ i → (a ≡ i) ⊎ (suc a ≤ i)
      le-cases a i lo = ground arith

  as_last :
      (attempt delay : ℕ) (r : PostResult)
      → attempt ≡ max_attempts
      → result_of attempt (server attempt) ≡ none
      → r ≡ record { delivered = false; status = none; attempts = max_attempts }
      → Loop attempt (or_next none (ltb attempt max_attempts) delay (r, []))
  unfolding or_next
  as_last attempt delay r h e same = rw same (
    inl (refl, refl, refl, rw (← h) e),
    (λ i lo hi. absurd (omega (arith, h))),
    ground (arith, h),
    omega arith,
  )

  conclusive :
      (attempt delay : ℕ) (r : PostResult) (n : PostResult × List ℕ)
      → attempt ≤ max_attempts
      → result_of attempt (server attempt) ≡ some r
      → Loop attempt (or_next (some r) (ltb attempt max_attempts) delay n)
  unfolding or_next
  conclusive attempt delay r n h e =
      let (at, explained) = result_of_lem attempt (server attempt) r e in
      (
        inr (rw (← at) at explained),
        (λ i lo hi. absurd (omega (arith, at))),
        omega (arith, at),
        omega (arith, at),
      )

  attempts_from_lem :
      (left attempt delay : ℕ)
      → attempt + left ≡ max_attempts
      → Loop attempt (attempts_from server max_attempts max_delay attempt delay (suc left))
  unfolding attempts_from
  attempts_from_lem zero attempt delay h =
      elim (Option-cases (result_of attempt (server attempt))) [
        | inr (r, e) ↦ rw e (conclusive attempt delay r _ (omega (arith, h)) e)
        | inl none_yet ↦ rw none_yet (as_last attempt delay _ (omega (arith, h)) none_yet refl)
      ]
  attempts_from_lem (suc left) attempt delay h =
      let rest =
        attempts_from_lem left (suc attempt) (min_ℕ (delay * 2) max_delay) (omega (arith, h)) in
      elim (Option-cases (result_of attempt (server attempt))) [
        | inr (r, e) ↦ rw e (conclusive attempt delay r _ (omega (arith, h)) e)
        | inl none_yet ↦
            rw none_yet (before_others attempt delay _ _ (omega (arith, h)) none_yet rest)
      ]

-- Where at least one attempt is configured: a post makes at least one and at most the configured
-- number, and stops at the first one that is conclusive: the attempts before it were failures or
-- statuses other than 2xx and 4xx. The result names the status of the last attempt, delivered for 2xx
-- and not for 4xx; without a conclusive attempt it is undelivered, without a status, after all
-- attempts. The process sleeps once between two attempts and not after the last.
pub post_lem :
    (server : ℕ → Attempt) (base_delay max_delay max_attempts : ℕ)
    → 1 ≤ max_attempts
    → let (r, sleeps) = post server base_delay max_delay max_attempts in
      Explains server max_attempts r
      × ((i : ℕ) → 1 ≤ i → i < r.attempts → result_of i (server i) ≡ none)
      × (length sleeps + 1 ≡ r.attempts)
      × (r.attempts ≤ max_attempts)
unfolding post
post_lem server base_delay max_delay zero h = absurd (omega arith)
post_lem server base_delay max_delay (suc left) h =
    attempts_from_lem server (suc left) max_delay left 1 base_delay (omega arith)
