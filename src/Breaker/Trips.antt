-- ===== src/Breaker/Trips.antt =====
-- When the circuit opens and closes, and what the callback is told.
use fapilog.Prelude.{
  ℕ, ◌+◌, ◌≤◌, ◌<◌, ◌≡◌, refl, some, List, [], ◌∷◌, ◌++◌, length, append_assoc, ◌∙◌, arith,
}
use fapilog.Breaker.{
  Breaker, CircuitState, closed, open_circuit, half_open, record_failure, record_success,
}

record_failure-below :
    (b : Breaker) (now : ℕ)
    → b.state ≡ closed
    → b.failure_count + 1 < b.config.failure_threshold
    → record_failure b now
      ≡ record b { failure_count = b.failure_count + 1; last_failure_time = some now }
unfolding record_failure
record_failure-below b now e h = ground arith

record_failure-trips :
    (b : Breaker) (now : ℕ)
    → b.config.failure_threshold ≤ b.failure_count + 1
    → record_failure b now ≡ record b {
      state = open_circuit;
      failure_count = b.failure_count + 1;
      last_failure_time = some now;
      emitted = b.emitted ++ open_circuit ∷ [];
    }
unfolding record_failure
record_failure-trips b now h = ground arith

-- failures recorded at these times, one after the other
unfoldable pub failures : Breaker → List ℕ → Breaker
failures b [] = b
failures b (now ∷ times) = failures (record_failure b now) times

abbrev pub repeated : CircuitState → List ℕ → List CircuitState
repeated s [] = []
repeated s (now ∷ times) = s ∷ repeated s times

-- A closed circuit stays closed, and tells the callback nothing, while its failures in a row stay
-- below the threshold.
pub failures-below :
    (b : Breaker) (times : List ℕ)
    → b.state ≡ closed
    → b.failure_count + length times < b.config.failure_threshold
    → ((failures b times).state ≡ closed)
      × ((failures b times).failure_count ≡ b.failure_count + length times)
      × ((failures b times).emitted ≡ b.emitted)
unfolding failures
failures-below b [] e h = (e, omega arith, refl)
failures-below b (now ∷ times) e h =
    let b' : Breaker = record b {
      failure_count = b.failure_count + 1;
      last_failure_time = some now;
    } in
    let rest = failures-below b' times e (omega arith) in
    rw (record_failure-below b now e (omega arith), failures) (rest.0, omega arith, rest.2)

-- Every failure recorded once the count is one short of the threshold or above it opens the circuit
-- and tells the callback so, also when the circuit is open already: one report for each of them.
pub failures-reported :
    (b : Breaker) (now : ℕ) (times : List ℕ)
    → b.config.failure_threshold ≤ b.failure_count + 1
    → ((failures b (now ∷ times)).state ≡ open_circuit)
      × ((failures b (now ∷ times)).emitted ≡ b.emitted ++ repeated open_circuit (now ∷ times))
unfolding failures
failures-reported b now [] h = rw (record_failure-trips b now h, failures) (refl, refl)
failures-reported b now (later ∷ times) h =
    let b' : Breaker = record b {
      state = open_circuit;
      failure_count = b.failure_count + 1;
      last_failure_time = some now;
      emitted = b.emitted ++ open_circuit ∷ [];
    } in
    let rest = failures-reported b' later times (omega arith) in
    rw (record_failure-trips b now h, failures)
      (rest.0, rest.1 ∙ append_assoc b.emitted (open_circuit ∷ []) _)

-- A probe that succeeds closes the circuit, resets the count and is reported once; one that fails
-- opens it whatever the count, with its time for the recovery timeout to run from.
pub probe_outcome :
    (b : Breaker) (now : ℕ)
    → b.state ≡ half_open
    → ((record_success b).state ≡ closed)
      × ((record_success b).failure_count ≡ 0)
      × ((record_success b).emitted ≡ b.emitted ++ closed ∷ [])
      × ((record_failure b now).state ≡ open_circuit)
      × ((record_failure b now).last_failure_time ≡ some now)
      × ((record_failure b now).emitted ≡ b.emitted ++ open_circuit ∷ [])
unfolding record_success record_failure
probe_outcome b now e = ground arith
