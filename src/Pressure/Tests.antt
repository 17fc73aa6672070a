-- ===== src/Pressure/Tests.antt =====
-- Runs of the pressure monitor.
use fapilog.Prelude.{ℕ, ◌+◌, ◌*◌, ◌≡◌, true, false, none, [], ◌∷◌, ◌++◌, arith}
use fapilog.Prelude.Value.{Value}
use fapilog.Queue.Dual.{Dual}
use fapilog.Breaker.{Breaker, record_failure, closed, open_circuit, should_allow}
use fapilog.Breaker.Trips.{failures, repeated}
use fapilog.Pressure
use fapilog.Pressure.{
  Level, normal, elevated, high, critical, Fill, Thresholds, Machine, evaluate, change,
}
use fapilog.Pressure.Steps.{HasBands}
use fapilog.Pressure.Cooldown.{AllSpaced, transitions, transitions-AllSpaced}
use fapilog.Pressure.Monitor.{Monitor, other, dual, init, Readings}
use fapilog.Pressure.Monitor.Counters.{Sample, ticks, IsCounted, ticks-init-IsCounted}
use fapilog.Pressure.Monitor.Boost.{feed, outage, leftover_boost}

abbrev thresholds : Thresholds
thresholds = record {
  scale = 100;
  escalate_to_elevated = 60;
  escalate_to_high = 80;
  escalate_to_critical = 92;
  deescalate_from_critical = 75;
  deescalate_from_high = 60;
  deescalate_from_elevated = 40;
}

abbrev machine : Machine
machine = record {
  thresholds = thresholds;
  cooldown = 5;
  level = normal;
  last_transition_time = 0;
  first_evaluation = true;
}

abbrev seven_tenths : Fill
seven_tenths = record { top = 7; bottom = 10 }

abbrev reading : Readings
reading = record { evaluated = 10; changed = 11; shed = 12 }

abbrev bands : HasBands thresholds
bands = record { elevated_band = omega arith; high_band = omega arith; critical_band = omega arith }

transitions-AllSpaced_example :
    AllSpaced machine.cooldown
      (transitions machine ((10, seven_tenths) ∷ (12, record { top = 1; bottom = 10 }) ∷ []))
transitions-AllSpaced_example =
    transitions-AllSpaced machine ((10, seven_tenths) ∷ (12, record { top = 1; bottom = 10 }) ∷ [])

-- a full queue with an open circuit, and later an empty one whose circuit has closed
abbrev busy : Sample
busy = record { queue = other 10 9; circuits = open_circuit ∷ []; clock = reading }

abbrev quiet : ℕ → Sample
quiet now = record {
  queue = other 10 0;
  circuits = closed ∷ [];
  clock = record { evaluated = now; changed = now; shed = now };
}

ticks-init-IsCounted_example : IsCounted (
    ticks
      (init (other 10 7) (Pressure.init thresholds 5) 20 90 50 1)
      (busy ∷ quiet 30 ∷ quiet 60 ∷ []))
ticks-init-IsCounted_example =
    ticks-init-IsCounted (other 10 7) thresholds 5 20 90 50 1 (busy ∷ quiet 30 ∷ quiet 60 ∷ [])

abbrev shedding_queue : Dual Value
shedding_queue = record {
  main = record { capacity = 2; dq = [] };
  protected = record { capacity = 2; dq = [] };
  protected_levels = [];
  main_drops = 0;
  protected_drops = 0;
  shedding = true;
}

abbrev monitor : Monitor
monitor = record {
  queue = dual shedding_queue;
  machine = machine;
  circuit_boost = 0;
  circuit_boost_per_open = 20;
  shed_threshold = 90;
  recover_threshold = 50;
  escalation_count = 0;
  deescalation_count = 0;
  peak_level = normal;
  level_entered_at = 0;
  time_at_level = λ l. 0;
  shed_activations = 1;
  shed_total = 0;
  shed_started_at = 3;
  dispatched = [];
  stopped = false;
  filters_swapped = 0;
  workers_scaled = 0;
  peak_workers = 0;
  batch_resize_count = 0;
}

abbrev breaker : Breaker
breaker = record {
  config = record { failure_threshold = 1; recovery_timeout = 30; half_open_max_calls = 1 };
  state = closed;
  failure_count = 0;
  last_failure_time = none;
  half_open_calls = 0;
  emitted = [];
}

leftover_boost_example :
    ((outage breaker 1 (2 ∷ []) 40).state ≡ closed)
    × ((outage breaker 1 (2 ∷ []) 40).emitted
        ≡ [] ++ (repeated open_circuit (1 ∷ 2 ∷ []) ++ closed ∷ []))
    × ((feed monitor (repeated open_circuit (1 ∷ 2 ∷ []) ++ closed ∷ [])).circuit_boost
        ≡ 0 + 1 * 20)
unfolding failures record_failure should_allow
leftover_boost_example = leftover_boost breaker monitor 1 (2 ∷ []) 40 (omega arith) (ground arith)
