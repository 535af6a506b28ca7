-- ===== src/Gateway/Reporter/Ends.antt =====
-- gateway/reporter.py: where the loop of attempts ends.
use ble_usage_meter.Common.{
  ℕ, zero, suc, ◌+◌, ◌*◌, ◌≤◌, ◌<◌, ◌≡◌, ◌⊎◌, inl, inr, refl, none, some, arith,
}
use ble_usage_meter.Gateway.Reporter.{
  Attempt, PostResult, result_of, min_ℕ, or_next, attempts_from, post,
}

attempts_from-ends :
    (server : ℕ → Attempt) (max_attempts max_delay last : ℕ) (r : PostResult)
    → result_of last (server last) ≡ some r
    → (left attempt delay : ℕ) → attempt ≤ last
    → last < attempt + left
    → ((i : ℕ) → attempt ≤ i → i < last → result_of i (server i) ≡ none)
    → (attempts_from server max_attempts max_delay attempt delay left).0 ≡ r
unfolding attempts_from or_next
attempts_from-ends server max_attempts max_delay last r e zero attempt delay lo hi q =
    absurd (omega arith)
attempts_from-ends server max_attempts max_delay last r e (suc left) attempt delay lo hi q =
    elim (le-cases attempt last lo) [
      | inl same ↦ rw (same, e) refl
      | inr more ↦ rw (q attempt (omega arith) more) (
          attempts_from-ends server max_attempts max_delay last r e left (suc attempt)
            (min_ℕ (delay * 2) max_delay) (omega arith) (omega arith)
            (λ i a b. q i (omega arith) b))
    ]
  where
    le-cases : (a i : ℕ) → a ≤ i → (a ≡ i) ⊎ (suc a ≤ i)
    le-cases a i h = ground arith

-- The result of the first conclusive attempt is the result, if it is within the attempts allowed.
pub post-ends :
    (server : ℕ → Attempt) (base_delay max_delay max_attempts last : ℕ) (r : PostResult)
    → 1 ≤ last
    → last ≤ max_attempts
    → ((i : ℕ) → 1 ≤ i → i < last → result_of i (server i) ≡ none)
    → result_of last (server last) ≡ some r
    → (post server base_delay max_delay max_attempts).0 ≡ r
unfolding post
post-ends server base_delay max_delay max_attempts last r lo hi q e =
    attempts_from-ends server max_attempts max_delay last r e max_attempts 1 base_delay lo
      (omega arith) q
