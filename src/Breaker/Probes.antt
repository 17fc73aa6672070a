-- ===== src/Breaker/Probes.antt =====
-- How many calls an open or half-open circuit lets through.
use fapilog.Prelude.{
  ℕ, ◌+◌, ◌-◌, ◌≤◌, ◌<◌, ◌≡◌, refl, some, List, [], ◌∷◌, length, All, min, max, arith,
  if◌then◌else◌,
}
use fapilog.Breaker.{Breaker, open_circuit, half_open, should_allow}

-- how many of the calls at these times are let through, with no outcome recorded in between
pub allowed : Breaker → List ℕ → ℕ
allowed b [] = 0
allowed b (now ∷ times) =
    let (b', ok) = should_allow b now in (if ok then 1 else 0) + allowed b' times

-- Until an outcome is recorded, a half-open circuit lets through exactly what is left of its
-- `half_open_max_calls`, however the calls are timed.
pub allowed-half_open :
    (b : Breaker) (times : List ℕ)
    → b.state ≡ half_open
    → allowed b times ≡ min (length times) (b.config.half_open_max_calls - b.half_open_calls)
unfolding allowed should_allow
allowed-half_open b [] e = omega arith
allowed-half_open b (now ∷ times) e = ground (
  arith,
  allowed-half_open b times e,
  allowed-half_open (record b { half_open_calls = b.half_open_calls + 1 }) times e,
)

-- A circuit that opened with a failure refuses every call that comes before the recovery timeout
-- has passed since; and until an outcome is recorded it lets through `half_open_max_calls` calls at
-- most, or one where that is less, however late the calls come.
pub allowed-open :
    (b : Breaker) (times : List ℕ) (failed : ℕ)
    → b.state ≡ open_circuit
    → b.last_failure_time ≡ some failed
    → (All (λ now. now < failed + b.config.recovery_timeout) times → allowed b times ≡ 0)
      × (allowed b times ≤ max 1 b.config.half_open_max_calls)
unfolding allowed should_allow
allowed-open b [] failed e f = (λ _. refl, omega arith)
allowed-open b (now ∷ times) failed e f =
    let behind = allowed-open b times failed e f in
    let probing =
      allowed-half_open (record b { state = half_open; half_open_calls = 1 }) times refl in
    (λ early. ground (arith, early.0, behind.0 early.1), ground (arith, behind.1, probing))
