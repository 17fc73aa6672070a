-- ===== src/Breaker.antt =====
-- core/circuit_breaker.py: the circuit breaker of one sink. A clock reading is an argument of each
-- call that reads the clock. The lock makes each method one step. `emitted` holds the states that
-- the callback `on_state_change` was called with, oldest first.
pub mod Probes
pub mod Trips
mod Tests
use fapilog.Prelude.{
  ℕ, suc, ◌+◌, Bool, true, false, Option, none, some, List, [], ◌∷◌, ◌++◌, ltb, leb, if◌then◌else◌,
}

pub data CircuitState : Type 0 where
  closed open_circuit half_open : CircuitState

pub record Config : Type 0 where
  pub failure_threshold : ℕ
  pub recovery_timeout : ℕ
  pub half_open_max_calls : ℕ

pub record Breaker : Type 0 where
  pub config : Config
  pub state : CircuitState
  pub failure_count : ℕ
  pub last_failure_time : Option ℕ
  pub half_open_calls : ℕ
  pub emitted : List CircuitState

unfoldable pub init : Config → Breaker
init config = record {
  config = config;
  state = closed;
  failure_count = 0;
  last_failure_time = none;
  half_open_calls = 0;
  emitted = [];
}

unfoldable pub is_open : Breaker → Bool
is_open b = elim b.state [ open_circuit ↦ true | _ ↦ false ]

-- an open circuit lets the first call through when the recovery timeout has passed
allow_open : Breaker → ℕ → Option ℕ → Breaker × Bool
allow_open b now none = (b, false)
allow_open b now (some failed) =
    if leb (failed + b.config.recovery_timeout) now
    then (record b { state = half_open; half_open_calls = 1 }, true)
    else (b, false)

unfoldable pub allow_in : Breaker → ℕ → CircuitState → Breaker × Bool
unfolding allow_open
allow_in b now closed = (b, true)
allow_in b now open_circuit = allow_open b now b.last_failure_time
allow_in b now half_open =
    if ltb b.half_open_calls b.config.half_open_max_calls
    then (record b { half_open_calls = b.half_open_calls + 1 }, true)
    else (b, false)

unfoldable pub should_allow : Breaker → ℕ → Breaker × Bool
unfolding allow_in
should_allow b now = allow_in b now b.state

unfoldable pub emit_state_change : Breaker → CircuitState → Breaker
emit_state_change b s = record b { emitted = b.emitted ++ s ∷ [] }

unfoldable pub recovered : Breaker → CircuitState → Breaker
unfolding emit_state_change
recovered b half_open = emit_state_change (record b { state = closed }) closed
recovered b _ = b

unfoldable pub record_success : Breaker → Breaker
unfolding recovered
record_success b = record (recovered b b.state) { failure_count = 0 }

failed_in : Breaker → CircuitState → Breaker
unfolding emit_state_change
failed_in b half_open = emit_state_change (record b { state = open_circuit }) open_circuit
failed_in b _ =
    if leb b.config.failure_threshold b.failure_count
    then emit_state_change (record b { state = open_circuit }) open_circuit
    else b

unfoldable pub record_failure : Breaker → ℕ → Breaker
unfolding failed_in
record_failure b now =
    failed_in (record b { failure_count = b.failure_count + 1; last_failure_time = some now })
      b.state
