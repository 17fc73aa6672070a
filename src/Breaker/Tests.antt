-- ===== src/Breaker/Tests.antt =====
-- Runs of a circuit breaker.
use fapilog.Prelude.{◌+◌, ◌-◌, ◌≤◌, ◌<◌, ◌≡◌, refl, some, none, [], ◌∷◌, min, max, All}
use fapilog.Breaker.{Config, Breaker, init, closed, open_circuit, half_open}
use fapilog.Breaker.Probes.{allowed, allowed-half_open, allowed-open}

abbrev config : Config
config = record { failure_threshold = 2; recovery_timeout = 30; half_open_max_calls = 1 }

abbrev fresh : Breaker
fresh = record {
  config = config;
  state = closed;
  failure_count = 0;
  last_failure_time = none;
  half_open_calls = 0;
  emitted = [];
}

abbrev failed_once : Breaker
failed_once = record fresh { failure_count = 1; last_failure_time = some 4 }

abbrev opened : Breaker
opened = record fresh { state = open_circuit; failure_count = 2; last_failure_time = some 5 }

abbrev probing : Breaker
probing = record opened { state = half_open; half_open_calls = 0 }

starts_closed : init config ≡ fresh
unfolding init
starts_closed = refl

allowed-half_open_example : allowed probing (41 ∷ 42 ∷ []) ≡ min 2 (1 - 0)
allowed-half_open_example = allowed-half_open probing (41 ∷ 42 ∷ []) refl

allowed-open_example :
    (All (λ now. now < 5 + 30) (6 ∷ 36 ∷ []) → allowed opened (6 ∷ 36 ∷ []) ≡ 0)
    × (allowed opened (6 ∷ 36 ∷ []) ≤ max 1 1)
allowed-open_example = allowed-open opened (6 ∷ 36 ∷ []) 5 refl refl
