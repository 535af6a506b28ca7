-- ===== src/Gateway/Reporter/Delays.antt =====
-- gateway/reporter.py: how long the reporter sleeps.
use ble_usage_meter.Common.{ℕ, zero, suc, ◌*◌, ◌^◌, ◌≤◌, ◌≡◌, ap, ◌∙◌, List, [], ◌∷◌, arith}
use ble_usage_meter.Gateway.Reporter.{Attempt, min_ℕ, or_next, attempts_from, post}

module _ (base_delay max_delay : ℕ) where
  -- The sleeps from the i-th on: each is twice the one before, up to the longest one.
  abbrev pub AreBackoff : ℕ → List ℕ → Type 0
  AreBackoff i [] = Unit
  AreBackoff i (d ∷ sleeps) =
      (d ≡ min_ℕ (base_delay * 2 ^ i) max_delay)
      × (base_delay ≤ d)
      × (d ≤ max_delay)
      × AreBackoff (suc i) sleeps

  double_min :
      (x delay : ℕ)
      → delay ≡ min_ℕ x max_delay
      → min_ℕ (delay * 2) max_delay ≡ min_ℕ (x * 2) max_delay
  double_min x delay h = ground (arith, h)

  next_power : (i : ℕ) → base_delay * 2 ^ i * 2 ≡ base_delay * 2 ^ suc i
  next_power i = rw power (omega arith)
    where
      power : 2 ^ suc i ≡ 2 ^ i * 2
      power = omega arith

  doubled :
      (i delay : ℕ)
      → delay ≡ min_ℕ (base_delay * 2 ^ i) max_delay
      → min_ℕ (delay * 2) max_delay ≡ min_ℕ (base_delay * 2 ^ suc i) max_delay
  doubled i delay h =
      double_min (base_delay * 2 ^ i) delay h ∙ ap (λ x. min_ℕ x max_delay) (next_power i)

  attempts_from-AreBackoff :
      (server : ℕ → Attempt) (max_attempts i left attempt delay : ℕ)
      → delay ≡ min_ℕ (base_delay * 2 ^ i) max_delay
      → base_delay ≤ delay
      → delay ≤ max_delay
      → AreBackoff i (attempts_from server max_attempts max_delay attempt delay left).1
  unfolding attempts_from or_next
  attempts_from-AreBackoff server max_attempts i zero attempt delay h lo hi = tt
  attempts_from-AreBackoff server max_attempts i (suc left) attempt delay h lo hi =
      let rest =
        attempts_from-AreBackoff server max_attempts (suc i) left (suc attempt)
          (min_ℕ (delay * 2) max_delay) (doubled i delay h) (ground arith) (ground arith) in
      ground (arith, rest, h)

  -- The i-th sleep, from the 0-th on, is the base delay times 2 to the i, but no longer than the longest
  -- delay, and so between the two. The base is not above the longest.
  pub post-AreBackoff :
      (server : ℕ → Attempt) (max_attempts : ℕ)
      → base_delay ≤ max_delay
      → AreBackoff 0 (post server base_delay max_delay max_attempts).1
  unfolding post
  post-AreBackoff server max_attempts h =
      attempts_from-AreBackoff server max_attempts 0 max_attempts 1 base_delay (ground (arith, h))
        (omega arith) h
